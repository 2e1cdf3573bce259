-- ===== src/Directory/Proofs.antt =====
-- How the calls of chiron_readdir end.
use chironfs.Base.{
  ℕ, zero, suc, ◌≤◌, ◌<◌, ℤ, pos, neg, is_nonzero, true, some, ◌≡◌, refl, ◌∙◌, inl, inr, arith,
  Bool-cases, Option-cases,
}
use chironfs.Model.{Bytes, Cred, opendir, seekdir, readdir, closedir, filler, Kernel, State, call}
use chironfs.Mirror.{xlate}
use chironfs.Mirror.Laws.{SameButWorld, xlate_frame}
use chironfs.Scan.{Attempt, passed, missed, served}
use chironfs.Scan.Total.{get_elem?-lt}
use chironfs.Scan.Survivor.{Did-same, Works, scan_all-Survives}
use chironfs.Mirror.{enomem, finish}
use chironfs.FileIo.{served_cnt}
use chironfs.Scan.Finish.{Able, Keeps, Keeps-started, Kept-scanned}
use chironfs.Directory.{fill, list_entries, readdir_attempt, readdir_body, chiron_readdir}

-- Directory streams have an end: the names that are left in one are at most `n` and become fewer
-- with each name that is read, and taking a name does not bring others.
pub record Listing {W : Type 0} (sys : Kernel W) (n : ℕ) : Type 0 where
  pub left : ℤ → W → ℕ
  pub bounded : (dp : ℤ) (w : W) → left dp w ≤ n
  pub fewer :
      (k : Cred) (dp : ℤ) (w : W)
      → let (r, v) = sys k (readdir dp) w in is_nonzero r.ret ≡ true → left dp v < left dp w
  pub taken : (k : Cred) (dp : ℤ) (b : Bytes) (w : W) → left dp (sys k (filler b) w).1 ≡ left dp w

module _ {W : Type 0} (sys : Kernel W) where
  fill_total :
      (most : ℕ) (ls : Listing sys most) (n : ℕ) (dp : ℤ) (s : State W)
      → ls.left dp s.world < n
      → (t : State W) × (fill sys n dp s ≡ some t) × SameButWorld s t
  unfolding fill call
  fill_total most ls zero dp s h = absurd (omega arith)
  fill_total most ls (suc n) dp s h =
      let (de, s1) = call sys (readdir dp) s in
      let (full, s2) = call sys (filler de.stored) s1 in
      elim (Bool-cases (is_nonzero de.ret)) [
        | inr z ↦ (s1, simp z, (refl, refl, refl))
        | inl y ↦ elim (Bool-cases (is_nonzero full.ret)) [
          | inl x ↦ (s2, simp (y, x), (refl, refl, refl))
          | inr x ↦
              let less = ls.fewer s.cred dp s.world y in
              let same = ls.taken s1.cred dp de.stored s1.world in
              let (t, e, f) = fill_total most ls n dp s2 (omega arith) in (t, simp (y, x, e), f)
        ]
      ]

  list_entries_total :
      (most : ℕ) (ls : Listing sys most) (offset : ℤ) (f : Bytes) (s : State W)
      → (a : Attempt) × (t : State W) × (list_entries sys (suc most) offset f s ≡ some (a, t))
        × SameButWorld s t
  unfolding list_entries call
  list_entries_total most ls offset f s =
      let (dp, s1) = call sys (opendir f) s in
      let s2 = (call sys (seekdir dp.ret offset) s1).1 in
      elim (Bool-cases (is_nonzero dp.ret)) [
        | inr z ↦ (missed (neg dp.errno), s1, simp z, (refl, refl, refl))
        | inl y ↦
            let (t, e, k) =
              fill_total most ls (suc most) dp.ret s2 (omega (arith, ls.bounded dp.ret s2.world)) in
            (served dp, (call sys (closedir dp.ret) t).1, simp (y, e), k)
      ]

  readdir_attempt-Works :
      (most : ℕ)
      → Listing sys most
      → (path : Bytes) (offset : ℤ) (n : ℕ) → Works (readdir_attempt sys (suc most) path offset) n
  unfolding readdir_attempt
  readdir_attempt-Works most ls path offset n r s m e h =
      let (x, g) = get_elem?-lt s.config.replicas r (omega (arith, m.count)) in
      let u : State W = (xlate sys path x.path s).1 in
      let f = xlate_frame sys path x.path s in
      elim (Bool-cases x.disabled) [
        | inl off ↦ (passed, s, simp (g, off), refl)
        | inr on ↦ elim (Option-cases (xlate sys path x.path s).0) [
          | inl z ↦ (passed, u, simp (g, on, z), f.0)
          | inr (y, z) ↦
              let (a, t, k, w) = list_entries_total most ls offset y u in
              (a, t, simp (g, on, z, k), Did-same a r x s.config t.config m g on (w.0 ∙ f.0))
        ]
      ]

  readdir_body-Keeps :
      (most : ℕ)
      → Listing sys most
      → (path : Bytes) (offset : ℤ) (s : State W) → Able s.config
      → Keeps s.config (readdir_body sys (suc most) path offset s)
  unfolding readdir_body
  readdir_body-Keeps most ls path offset s a =
      let n = s.config.max_replica in
      let (got, u, e, x) =
        scan_all-Survives (readdir_attempt sys (suc most) path offset) n
          (readdir_attempt-Works most ls path offset n) s a.mounted a.spread refl in
      let out = finish sys "readdir" (pos 0) (served_cnt got.reply) got.fail_cnt got.err_list u in
      (
        out.0,
        out.1,
        simp e,
        Kept-scanned sys "readdir" (pos 0) n s.config got u a.mounted x a.alive,
      )

  -- chiron_readdir returns, with a fuel of one name more than a directory has, on every configuration as
  -- it is mounted whose tables hold no replica twice and that has a replica which is not disabled. It
  -- changes only the counters of choose_replica and the replicas, and leaves some replica enabled.
  pub chiron_readdir-Keeps :
      (most : ℕ)
      → Listing sys most
      → (context : Cred) (path : Bytes) (offset : ℤ) (s : State W) → Able s.config
      → Keeps s.config (chiron_readdir sys (suc most) context path offset s)
  unfolding chiron_readdir
  chiron_readdir-Keeps most ls context path offset s a =
      Keeps-started sys context s enomem (readdir_body sys (suc most) path offset)
        (λ u e b. readdir_body-Keeps most ls path offset u b) a
