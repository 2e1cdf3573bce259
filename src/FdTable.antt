-- ===== src/FdTable.antt =====
-- src/fs.c: the table of open files, `fd_hashseekfree` and `fd_hashset`.
pub mod Search
pub mod Slots
use chironfs.Base.{
  ℕ, zero, suc, ◌+◌, ◌-◌, ◌^◌, ℤ, pos, negsuc, Bool, true, false, not, ◌&&◌, Option, none, some,
  List, [], ◌∷◌, if◌then◌else◌, ltb, get_elem?, set, codes,
}
use chironfs.Model.{Replica, FdTable, State}
use chironfs.Log.{log}
use chironfs.Hash.{hash_fd, u32}

-- Whether slot `i` is read as NULL. A slot outside the table is not.
abbrev pub is_free : FdTable → ℕ → Bool
is_free t i = elim (get_elem? t i) [ some (some fd) ↦ false | some none ↦ true | none ↦ false ]

-- while (fd[i] != NULL && i < stop) i++, for at most `n` rounds: where `i` stops. fd[i] is read first, also behind
-- the table; whatever is there, the loop ends by the second test.
unfoldable pub seek : FdTable → ℕ → ℕ → ℕ → ℕ
seek t stop zero i = i
seek t stop (suc n) i =
    let next = seek t stop n (u32 (i + 1)) in if not (is_free t i) && ltb i stop then next else i

-- The search of `fd_hashseekfree`: from `fd_ndx` to the end of the table, then from its start.
unfoldable pub find_free : ℕ → FdTable → ℕ → Option ℕ
find_free fd_buf_size t fd_ndx =
    let i = seek t fd_buf_size fd_buf_size fd_ndx in
    let j = seek t fd_ndx fd_ndx 0 in
    if ltb i fd_buf_size then some i else if ltb j fd_ndx then some j else none

-- CHIRONFS_ERR_TOO_MANY_FOPENS
abbrev pub too_many_fopens : ℤ
too_many_fopens = negsuc 3

-- What `return(i)` makes of an `unsigned` as an `int`.
abbrev pub to_int : ℕ → ℤ
to_int n = if ltb n (2 ^ 31) then pos n else negsuc (2 ^ 32 - 1 - n)

-- The descriptor that `fd_hashset` hashes: the first that is open on a replica that is not disabled.
unfoldable pub first_fd : List Replica → List ℤ → Option ℕ
first_fd [] fd = none
first_fd (r ∷ rs) [] = none
first_fd (r ∷ rs) (negsuc n ∷ fd) = first_fd rs fd
first_fd (r ∷ rs) (pos n ∷ fd) = let rest = first_fd rs fd in if r.disabled then rest else some n

module _ {W : Type 0} where
  unfoldable pub fd_hashseekfree : ℕ → State W → ℤ × State W
  fd_hashseekfree fd_ndx s = elim (find_free s.config.fd_buf_size s.config.tab_fd fd_ndx) [
    | some i ↦ (to_int i, s)
    | none ↦
        (too_many_fopens, log "hash allocation" (some (codes "too many opened files")) (pos 0) s)
  ]

  -- config.tab_fd.fd[fd_ndx] = fd
  unfoldable pub put_slot : ℕ → Option (List ℤ) → State W → State W
  put_slot fd_ndx fd s = record s {
    config = record (s.config) { tab_fd = set s.config.tab_fd fd_ndx fd };
  }

  unfoldable pub fd_hashset : List ℤ → State W → ℤ × State W
  fd_hashset fd s = elim (first_fd s.config.replicas fd) [
    | none ↦ (negsuc 0, s)
    | some n ↦
        let (fd_ndx, s') = fd_hashseekfree (hash_fd s.config.fd_buf_size n) s in
        elim fd_ndx [ pos k ↦ (pos k, put_slot k (some fd) s') | negsuc k ↦ (negsuc k, s') ]
  ]
