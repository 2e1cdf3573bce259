-- ===== src/Lookup/Survivor.antt =====
-- What chiron_getattr, chiron_access and chiron_readlink leave of the configuration.
use chironfs.Base.{
  ℕ, ℤ, pos, Bool, String, [], refl, ◌∙◌, inl, inr, arith, Bool-cases, Option-cases,
}
use chironfs.Model.{Bytes, Call, Cred, Reply, Kernel, State}
use chironfs.Mirror.{enomem, xlate, finish}
use chironfs.Mirror.Laws.{xlate_frame}
use chironfs.Scan.{Attempt, passed}
use chironfs.Scan.Total.{get_elem?-lt}
use chironfs.Scan.Survivor.{Did-same, Works, scan_all-Survives}
use chironfs.Scan.Finish.{Able, Keeps, Keeps-started, Kept-scanned}
use chironfs.FileIo.{served_cnt}
use chironfs.Lookup.{kept, ask, lookup_attempt, lookup_body, lookup}
use chironfs.Lookup.Laws.{ask_config}

module _ {W : Type 0} (sys : Kernel W) (is_failure : ℤ → Bool) (c : Bytes → Call) where
  lookup_attempt-Works : (path : Bytes) (n : ℕ) → Works (lookup_attempt sys is_failure c path) n
  unfolding lookup_attempt
  lookup_attempt-Works path n r s m e h =
      let (x, g) = get_elem?-lt s.config.replicas r (omega (arith, m.count)) in
      let u : State W = (xlate sys path x.path s).1 in
      let f = (xlate_frame sys path x.path s).0 in
      elim (Bool-cases x.disabled) [
        | inl off ↦ (passed, s, simp (g, off), refl)
        | inr on ↦ elim (Option-cases (xlate sys path x.path s).0) [
          | inl z ↦ (passed, u, simp (g, on, z), f)
          | inr (y, z) ↦
              let v : Attempt × State W = ask sys is_failure (c y) u in
              (
                v.0,
                v.1,
                simp (g, on, z),
                Did-same v.0 r x s.config v.1.config m g on (ask_config sys is_failure (c y) u ∙ f),
              )
        ]
      ]

  lookup_body-Keeps :
      (op : String) (keep : Reply → Bytes) (path : Bytes) (s : State W)
      → Able s.config
      → Keeps s.config (lookup_body sys op is_failure c keep path s)
  unfolding lookup_body
  lookup_body-Keeps op keep path s a =
      let n = s.config.max_replica in
      let (got, u, e, x) =
        scan_all-Survives (lookup_attempt sys is_failure c path) n (lookup_attempt-Works path n) s
          a.mounted a.spread refl in
      let out = finish sys op (pos 0) (served_cnt got.reply) got.fail_cnt got.err_list u in
      (
        record { ret = out.0; buf = kept keep got.reply },
        out.1,
        simp e,
        Kept-scanned sys op (pos 0) n s.config got u a.mounted x a.alive,
      )

  -- What chiron_getattr, chiron_access and chiron_readlink share, `lookup`, returns on every configuration
  -- as it is mounted whose tables hold no replica twice and that has a replica which is not disabled. It
  -- changes only the counters of choose_replica and the replicas, and leaves some replica enabled.
  pub lookup-Keeps :
      (op : String) (keep : Reply → Bytes) (context : Cred) (path : Bytes) (s : State W)
      → Able s.config
      → Keeps s.config (lookup sys op is_failure c keep context path s)
  unfolding lookup
  lookup-Keeps op keep context path s a =
      Keeps-started sys context s (record { ret = enomem; buf = [] })
        (lookup_body sys op is_failure c keep path) (λ u e b. lookup_body-Keeps op keep path u b) a
