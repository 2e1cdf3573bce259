-- ===== src/OpenFiles.antt =====
-- src/fs.c: chiron_open, chiron_create and chiron_release.
pub mod Usable
pub mod Opening
pub mod Releasing
use chironfs.Base.{
  ℕ, zero, suc, ℤ, pos, negsuc, neg, is_negative, is_nonzero, Bool, not, ◌&&◌, ◌==◌, String, Option,
  none, some, List, [], ◌∷◌, if◌then◌else◌, get_elem?,
}
use chironfs.Model.{
  Bytes, Replica, Cred, Call, calloc, open_path, creat, close, Kernel, State, call,
}
use chironfs.Priv.{drop_priv, reacquire_priv}
use chironfs.Policy.{disable_faulty_replicas, get_first_error}
use chironfs.FdTable.{fd_hashset, put_slot}
use chironfs.Mirror.{
  Visit, skipped, failed, succeeded, err_list, succ_cnt, fail_cnt, enomem, einval, emfile, xlate,
}

-- fd > 0
abbrev pub is_positive : ℤ → Bool
is_positive (pos n) = not (n == 0)
is_positive (negsuc n) = Bool.false

-- r & x of two `int`s of which one is 0 or -1; `close` returns nothing else.
abbrev pub and_int : ℤ → ℤ → ℤ
and_int (pos n) x = pos 0
and_int (negsuc n) x = x

module _ {W : Type 0} (sys : Kernel W) where
  -- fd[i] = open(…), and what follows.
  unfoldable pub open_fname : Call → State W → (Visit × ℤ) × State W
  open_fname c s =
      let (fd, s') = call sys c s in
      if is_negative fd.ret
      then ((failed (neg fd.errno), fd.ret), s')
      else ((succeeded, fd.ret), s')

  -- One iteration, with the entry of `fd` that it leaves; calloc has set it to 0.
  unfoldable pub open_visit : (Bytes → Call) → Bytes → Replica → State W → (Visit × ℤ) × State W
  open_visit c path r s =
      let (fname, s') = xlate sys path r.path s in
      if r.disabled
      then ((skipped, pos 0), s)
      else elim fname [ none ↦ ((failed enomem, negsuc 0), s') | some f ↦ open_fname (c f) s' ]

  unfoldable pub open_all :
      (Bytes → Call) → Bytes → List Replica → State W → (List Visit × List ℤ) × State W
  open_all c path [] s = (([], []), s)
  open_all c path (r ∷ rs) s =
      let (one, s1) = open_visit c path r s in
      let (rest, s2) = open_all c path rs s1 in ((one.0 ∷ rest.0, one.1 ∷ rest.1), s2)

  -- close(fd[i]) on each replica that is not disabled, where fd[i] >= 0.
  unfoldable pub close_open : List Replica → List ℤ → State W → State W
  close_open [] fd s = s
  close_open (r ∷ rs) [] s = s
  close_open (r ∷ rs) (f ∷ fd) s =
      close_open rs fd
        (if not r.disabled && not (is_negative f) then (call sys (close f) s).1 else s)

  -- The end of chiron_open and chiron_create, once some replica has opened the file: the result, and
  -- `fi->fh` where it is set.
  unfoldable pub store_fds : List ℤ → State W → (ℤ × Option ℕ) × State W
  store_fds fd s =
      let (fd_ndx, s') = fd_hashset fd s in
      elim fd_ndx [
        | pos k ↦ ((pos 0, some k), (reacquire_priv sys s').1)
        | negsuc k ↦ ((emfile, none), (reacquire_priv sys (close_open s'.config.replicas fd s')).1)
      ]

  -- chiron_open and chiron_create behind their loop.
  unfoldable pub open_end : String → List Visit → List ℤ → State W → (ℤ × Option ℕ) × State W
  open_end operation vs fd s =
      let s' = disable_faulty_replicas operation (succ_cnt vs) (fail_cnt vs) (err_list vs) s in
      if succ_cnt vs == 0
      then ((get_first_error s'.config.replicas (err_list vs), none), (reacquire_priv sys s').1)
      else store_fds fd s'

  -- The same from the loop on.
  unfoldable pub open_body : String → (Bytes → Call) → Bytes → State W → (ℤ × Option ℕ) × State W
  open_body operation c path s =
      let (fds, s') = open_all c path s.config.replicas s in open_end operation fds.0 fds.1 s'

  -- The two allocations that come first.
  unfoldable pub open_file :
      String → (Bytes → Call) → Cred → Bytes → State W → (ℤ × Option ℕ) × State W
  open_file operation c context path s =
      let s1 = (drop_priv sys context s).1 in
      let (p, s2) = call sys (calloc s1.config.max_replica 4) s1 in
      let (q, s3) = call sys (calloc s1.config.max_replica 4) s2 in
      if is_nonzero p.ret
      then if is_nonzero q.ret
        then open_body operation c path s3
        else ((enomem, none), (reacquire_priv sys s3).1)
      else ((enomem, none), (reacquire_priv sys s2).1)

  unfoldable pub chiron_open : Cred → Bytes → ℕ → State W → (ℤ × Option ℕ) × State W
  chiron_open context path flags = open_file "open" (λ fname. open_path fname flags) context path

  unfoldable pub chiron_create : Cred → Bytes → ℕ → State W → (ℤ × Option ℕ) × State W
  chiron_create context path mode = open_file "create" (λ fname. creat fname mode) context path

  -- The loop of chiron_release, from `r` on.
  unfoldable pub release_loop : List Replica → List ℤ → ℤ → State W → ℤ × State W
  release_loop [] fd r s = (r, s)
  release_loop (x ∷ rs) [] r s = (r, s)
  release_loop (x ∷ rs) (f ∷ fd) r s =
      let (closed, s') = call sys (close f) s in
      let hit = is_positive f && not x.disabled in
      release_loop rs fd (if hit then and_int r closed.ret else r) (if hit then s' else s)

  -- chiron_release: none where `fi->fh` is outside the table.
  unfoldable pub chiron_release : Cred → ℕ → State W → Option (ℤ × State W)
  chiron_release context fh s =
      let s1 = (drop_priv sys context s).1 in
      elim (get_elem? s1.config.tab_fd fh) [
        | none ↦ none
        | some none ↦ some (einval, (reacquire_priv sys s1).1)
        | some (some fd) ↦
            let (r, s2) = release_loop s1.config.replicas fd (negsuc 0) s1 in
            some (r, (reacquire_priv sys (put_slot fh none s2)).1)
      ]
