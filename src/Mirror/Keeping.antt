-- ===== src/Mirror/Keeping.antt =====
-- What the handlers that change every replica leave of the configuration.
use mathlib.Core.Path.{subst}
use chironfs.Base.{ℤ, pos, true, String, ◌≡◌, sym, ap, ◌∙◌, inl, inr, Bool-cases}
use chironfs.Model.{Config, Replica, Cred, Kernel, State}
use chironfs.Priv.{reacquire_priv}
use chironfs.Priv.Laws.{reacquire_priv_frame}
use chironfs.Mirror.{
  Visit, visit_all, with_err_list, mirror_body, mirror, succ_cnt, fail_cnt, err_list, finish,
}
use chironfs.Mirror.Laws.{
  IsIteration, visit_all_lem, started, started_frame, has_err_list, with_err_list_some,
  with_err_list_none,
}
use chironfs.Mirror.Outcome.{Outcome-any_enabled, finish-Outcome_at}
use chironfs.Mirror.Survivor.{any_enabled}
use chironfs.Scan.Total.{Mounted}
use chironfs.Scan.Finish.{Able, Kept, Kept-same, Evolve-finish}

module _ {W : Type 0} (sys : Kernel W) where
  -- A handler keeps the configuration if its body does, and also where it gets no memory.
  pub with_err_list-Kept :
      (context : Cred) (body : State W → ℤ × State W) (s : State W)
      → Able s.config
      → ((u : State W) → u.config ≡ s.config → Kept s.config (body u).1.config)
      → Kept s.config (with_err_list sys context body s).1.config
  with_err_list-Kept context body s a h =
      let u = started sys context s in
      let f = (started_frame sys context s).0 in
      let t : State W = (reacquire_priv sys u).1 in
      elim (Bool-cases (has_err_list sys context s)) [
        | inl y ↦ rw (with_err_list_some sys context body s y) (h u f)
        | inr z ↦
            rw (with_err_list_none sys context body s z)
              (Kept-same s.config t.config a ((reacquire_priv_frame sys u).0 ∙ f))
      ]

  mirror_body-Kept :
      (op : String) (one : Replica → State W → Visit × State W)
      → IsIteration one
      → (c : Config) (s : State W) → Able c
      → s.config ≡ c
      → Kept c (mirror_body sys op one s).1.config
  unfolding mirror_body
  mirror_body-Kept op one it c s a e =
      let run = visit_all one s.config.replicas s in
      let v = visit_all_lem one it s.config.replicas s in
      let f = v.1.0 ∙ e in
      let out = finish sys op (pos 0) (succ_cnt run.0) (fail_cnt run.0) (err_list run.0) run.1 in
      subst (λ d. Kept d out.1.config) f
        (
          Evolve-finish sys op (pos 0) (succ_cnt run.0) (fail_cnt run.0) (err_list run.0) run.1
              (subst Mounted (sym f) a.mounted),
          Outcome-any_enabled
              (finish-Outcome_at sys op (pos 0) run.0 run.1 s.config.replicas
                (ap (λ (x : Config). x.replicas) v.1.0) v.0)
              v.0 (subst (λ d. any_enabled d.replicas ≡ true) (sym e) a.alive),
        )

  pub mirror-Kept :
      (op : String) (context : Cred) (one : Replica → State W → Visit × State W)
      → IsIteration one
      → (s : State W) → Able s.config
      → Kept s.config (mirror sys op context one s).1.config
  unfolding mirror
  mirror-Kept op context one it s a =
      with_err_list-Kept context (mirror_body sys op one) s a
        (λ u e. mirror_body-Kept op one it s.config u a e)
