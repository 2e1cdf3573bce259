-- ===== src/FdTable/Slots.antt =====
-- The slots of the table before and after `fd_hashset`.
use chironfs.Base.{
  ℕ, zero, suc, ◌^◌, ◌≤◌, ◌<◌, ℤ, pos, negsuc, true, false, Option, none, some, List, [], ◌∷◌, ◌≡◌,
  refl, ap, inl, inr, lt→ltb, arith, Option-cases, length, get_elem?, set,
}
use chironfs.Model.{FdTable, Config, State}
use chironfs.Log.{log}
use chironfs.Hash.{hash_fd}
use chironfs.Hash.Bounds.{hash_fd-lt}
use chironfs.FdTable.{
  is_free, find_free, first_fd, fd_hashseekfree, put_slot, fd_hashset, too_many_fopens,
}
use chironfs.FdTable.Search.{Found, slot, full, find_free-Found}

-- The table has as many slots as the configuration says, at least one, and no more than an `int`
-- can number.
pub record TableFits (c : Config) : Type 0 where
  pub slots : length c.tab_fd ≡ c.fd_buf_size
  pub some_slot : 0 < c.fd_buf_size
  pub numbered : c.fd_buf_size ≤ 2 ^ 31

pub is_free-get : (t : FdTable) (i : ℕ) → is_free t i ≡ true → get_elem? t i ≡ some none
is_free-get [] i h = cc
is_free-get (none ∷ t) zero h = refl
is_free-get (some fd ∷ t) zero h = cc
is_free-get (x ∷ t) (suc i) h = is_free-get t i h

-- Emptying a slot that was free before it was filled gives the old table back.
pub set-set_free :
    (t : FdTable) (i : ℕ) (fd : Option (List ℤ)) → is_free t i ≡ true → set (set t i fd) i none ≡ t
set-set_free [] i fd h = refl
set-set_free (none ∷ t) zero fd h = refl
set-set_free (some x ∷ t) zero fd h = cc
set-set_free (x ∷ t) (suc i) fd h = ap (λ u. x ∷ u) (set-set_free t i fd h)

-- How `fd_hashset` ends, from the configuration before and after.
pub data Stored (fd : List ℤ) (c : Config) (ret : ℤ) (c' : Config) : Type 0 where
  stored :
      (k : ℕ)
      → ret ≡ pos k
      → k < c.fd_buf_size
      → is_free c.tab_fd k ≡ true
      → c' ≡ record c { tab_fd = set c.tab_fd k (some fd) }
      → Stored fd c ret c'
  nothing_open : first_fd c.replicas fd ≡ none → ret ≡ negsuc 0 → c' ≡ c → Stored fd c ret c'
  no_room :
      ((j : ℕ) → j < c.fd_buf_size → is_free c.tab_fd j ≡ false)
      → ret ≡ too_many_fopens
      → c' ≡ c
      → Stored fd c ret c'

module _ {W : Type 0} where
  log_config : (f : _) (p : _) (e : ℤ) (s : State W) → (log f p e s).config ≡ s.config
  unfolding log
  log_config f p e s = ground arith

  hashset_at :
      (fd : List ℤ) (n : ℕ) (s : State W)
      → first_fd s.config.replicas fd ≡ some n
      → (r : Option ℕ)
      → find_free s.config.fd_buf_size s.config.tab_fd (hash_fd s.config.fd_buf_size n) ≡ r
      → s.config.fd_buf_size ≤ 2 ^ 31
      → Found s.config.tab_fd s.config.fd_buf_size r
      → Stored fd s.config (fd_hashset fd s).0 (fd_hashset fd s).1.config
  unfolding fd_hashset fd_hashseekfree put_slot
  hashset_at fd n s e r q b (slot i ri lt free) =
      simp (fd_hashset, fd_hashseekfree, e, q, ri, lt→ltb i (2 ^ 31) (omega arith))
        (stored i refl lt free refl)
  hashset_at fd n s e r q b (full rn used) =
      simp (fd_hashset, fd_hashseekfree, e, q, rn) (no_room used refl (log_config _ _ _ s))

  -- `fd_hashset` puts the descriptors into a slot that was free, returns its index, and changes
  -- nothing else of the configuration; or it changes nothing, and either no replica that is not
  -- disabled has an open descriptor, or every slot is used.
  pub fd_hashset-Stored :
      (fd : List ℤ) (s : State W)
      → TableFits s.config
      → Stored fd s.config (fd_hashset fd s).0 (fd_hashset fd s).1.config
  unfolding fd_hashset
  fd_hashset-Stored fd s v = elim (Option-cases (first_fd s.config.replicas fd)) [
    | inl e ↦ simp (fd_hashset, e) (nothing_open e refl refl)
    | inr (n, e) ↦ hashset_at fd n s e _ refl v.numbered (
        find_free-Found s.config.tab_fd s.config.fd_buf_size _ v.numbered
          (hash_fd-lt s.config.fd_buf_size n v.some_slot (omega (arith, v.numbered))))
  ]
