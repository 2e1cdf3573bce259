-- ===== src/Lookup/Laws.antt =====
-- How the calls of chiron_getattr, chiron_access and chiron_readlink end.
use chironfs.Base.{
  ℕ, zero, suc, ◌<◌, ℤ, is_nonzero, Bool, true, String, Option, none, ◌≡◌, refl, sym, ap, ◌∙◌,
  Returns, returns, inl, inr, arith, Bool-cases, Option-cases,
}
use mathlib.Core.Path.{subst}
use chironfs.Model.{Bytes, Call, Cred, Config, Reply, Kernel, State, calloc, call}
use chironfs.Choose.Valid.{choose_replica_all_low}
use chironfs.Priv.{drop_priv}
use chironfs.Priv.Laws.{drop_priv_frame}
use chironfs.Mirror.{xlate}
use chironfs.Mirror.Laws.{xlate_frame, has_err_list, started, started_frame}
use chironfs.Scan.{Attempt, passed, Scanned, scan, scan_all}
use chironfs.Scan.Total.{Mounted, Ends, get_elem?-lt, scan_all_total}
use chironfs.Lookup.{ask, lookup_attempt, lookup_body, lookup}

module _ {W : Type 0} (attempt : ℕ → State W → Option (Attempt × State W)) where
  scan_low :
      (k : ℕ) (acc : Scanned) (s : State W)
      → s.config.max_replica_high ≡ 0
      → 0 < k
      → scan attempt k 0 acc s ≡ none
  unfolding scan
  scan_low zero acc s z h = absurd (omega arith)
  scan_low (suc k) acc s z h = rw (choose_replica_all_low s.config z)

  scan_all_low :
      (s : State W)
      → s.config.max_replica_high ≡ 0
      → 0 < s.config.max_replica
      → scan_all attempt s ≡ none
  unfolding scan_all
  scan_all_low s z h = scan_low s.config.max_replica _ s z h

module _ {W : Type 0} (sys : Kernel W) where
  pub ask_config : (t : ℤ → Bool) (c : Call) (s : State W) → (ask sys t c s).1.config ≡ s.config
  unfolding ask call
  ask_config t c s = ground arith

  lookup_attempt-Ends :
      (t : ℤ → Bool) (c : Bytes → Call) (path : Bytes) (n : ℕ)
      → Ends (lookup_attempt sys t c path) n
  unfolding lookup_attempt
  lookup_attempt-Ends t c path n r s m e h =
      let (x, g) = get_elem?-lt s.config.replicas r (omega (arith, m.count)) in
      elim (Bool-cases x.disabled) [
        | inl off ↦ (passed, s, simp (g, off), m, e)
        | inr on ↦ elim (Option-cases (xlate sys path x.path s).0) [
          | inl z ↦
              let u : State W = (xlate sys path x.path s).1 in
              let f = (xlate_frame sys path x.path s).0 in
              (
                passed,
                u,
                simp (g, on, z),
                subst Mounted (sym f) m,
                ap (λ (q : Config). q.max_replica) f ∙ e,
              )
          | inr (y, z) ↦
              let u : State W = (xlate sys path x.path s).1 in
              let a = ask sys t (c y) u in
              let f = ask_config t (c y) u ∙ (xlate_frame sys path x.path s).0 in
              (
                a.0,
                a.1,
                simp (g, on, z),
                subst Mounted (sym f) m,
                ap (λ (q : Config). q.max_replica) f ∙ e,
              )
        ]
      ]

  lookup_body_total :
      (op : String) (t : ℤ → Bool) (c : Bytes → Call) (keep : Reply → Bytes) (path : Bytes)
      (s : State W)
      → Mounted s.config
      → Returns (lookup_body sys op t c keep path s)
  unfolding lookup_body
  lookup_body_total op t c keep path s m =
      let d =
        scan_all_total (lookup_attempt sys t c path) s.config.max_replica
          (lookup_attempt-Ends t c path s.config.max_replica) s m refl in
      rw d.2 (returns _)

  -- What chiron_getattr, chiron_access and chiron_readlink share, `lookup`, returns, with a result and a state, on every
  -- configuration as it is mounted: neither a division nor an index of its tries can fault.
  pub lookup_total :
      (op : String) (t : ℤ → Bool) (c : Bytes → Call) (keep : Reply → Bytes) (context : Cred)
      (path : Bytes) (s : State W)
      → Mounted s.config
      → Returns (lookup sys op t c keep context path s)
  unfolding lookup call
  lookup_total op t c keep context path s m =
      let s1 : State W = (drop_priv sys context s).1 in
      let (p, s2) = call sys (calloc s1.config.max_replica 4) s1 in
      elim (Bool-cases (is_nonzero p.ret)) [
        | inl y ↦ rw y (
            lookup_body_total op t c keep path s2
              (subst Mounted (sym (drop_priv_frame sys context s).0) m))
        | inr z ↦ rw z (returns _)
      ]

  -- With no replica of high priority, but some replica, `lookup`, which chiron_getattr,
  -- chiron_access and chiron_readlink share, divides by zero as soon as it has `err_list`.
  pub lookup_all_low :
      (op : String) (t : ℤ → Bool) (c : Bytes → Call) (keep : Reply → Bytes) (context : Cred)
      (path : Bytes) (s : State W)
      → s.config.max_replica_high ≡ 0
      → 0 < s.config.max_replica
      → has_err_list sys context s ≡ true
      → lookup sys op t c keep context path s ≡ none
  unfolding lookup lookup_body
  lookup_all_low op t c keep context path s z h y =
      let f = (started_frame sys context s).0 in
      rw y (
        rw (
          scan_all_low (lookup_attempt sys t c path) (started sys context s)
            (ap (λ (q : Config). q.max_replica_high) f ∙ z)
            (subst (λ (q : Config). 0 < q.max_replica) (sym f) h)))
