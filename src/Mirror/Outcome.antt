-- ===== src/Mirror/Outcome.antt =====
-- What a handler returns and which replicas it leaves, from how its visits ended.
use chironfs.Base.{
  ℕ, ◌<◌, ℤ, pos, true, String, List, ◌≡◌, sym, ◌⊎◌, inl, inr, arith, Bool-cases, ◌∙◌, ap,
}
use mathlib.Core.Path.{subst}
use chironfs.Model.{Replica, Cred, Kernel, State}
use chironfs.Policy.{disable_faulty_replicas, get_first_error}
use chironfs.Policy.Laws.{
  marked, disable_faulty_replicas_lem, FirstError, get_first_error-FirstError,
}
use chironfs.Priv.{reacquire_priv}
use chironfs.Priv.Laws.{reacquire_priv_frame}
use chironfs.Mirror.{Visit, err_list, succ_cnt, fail_cnt, visit_all, finish, mirror_body, mirror}
use chironfs.Mirror.Laws.{
  Agrees, IsIteration, visit_all_lem, marked_clean, started, started_frame, has_err_list,
  with_err_list_some, with_err_list_none,
}
use chironfs.Mirror.Survivor.{any_enabled, any_enabled-marked}

-- Some visit succeeded: the handler returns `value`, and the replicas whose visit failed are
-- disabled. Or none did: it returns the first error, and no replica changes.
pub data Outcome (value : ℤ) (rs : List Replica) (vs : List Visit) (ret : ℤ) (after : List Replica)
    : Type 0 where
  done :
      0 < succ_cnt vs
      → ret ≡ value
      → after ≡ marked rs (err_list vs)
      → Outcome value rs vs ret after
  refused :
      succ_cnt vs ≡ 0 → FirstError rs (err_list vs) ret → after ≡ rs → Outcome value rs vs ret after

pub Outcome-any_enabled :
    {value : ℤ} {rs : List Replica} {vs : List Visit} {ret : ℤ} {after : List Replica}
    → Outcome value rs vs ret after
    → Agrees rs vs
    → any_enabled rs ≡ true
    → any_enabled after ≡ true
Outcome-any_enabled {rs = rs} {vs = vs} (done h r e) a g = rw e (any_enabled-marked rs vs a h)
Outcome-any_enabled (refused h r e) a g = rw e g

module _ {W : Type 0} (sys : Kernel W) where
  pub finish_lem :
      (op : String) (value : ℤ) (sc fc : ℕ) (es : List ℤ) (s : State W)
      → let t = disable_faulty_replicas op sc fc es s in
        let out = finish sys op value sc fc es s in
        ((0 < sc) × (out.0 ≡ value) × (out.1.config ≡ t.config))
        ⊎ ((sc ≡ 0) × (out.0 ≡ get_first_error t.config.replicas es) × (out.1.config ≡ t.config))
  unfolding finish
  finish_lem op value sc fc es s =
      ground (arith, reacquire_priv_frame sys (disable_faulty_replicas op sc fc es s))

  -- The replicas after the end of a handler.
  pub replicas_after :
      (op : String) (vs : List Visit) (s : State W)
      → Agrees s.config.replicas vs
      → let t = disable_faulty_replicas op (succ_cnt vs) (fail_cnt vs) (err_list vs) s in
        ((0 < succ_cnt vs) → t.config.replicas ≡ marked s.config.replicas (err_list vs))
        × (succ_cnt vs ≡ 0 → t.config.replicas ≡ s.config.replicas)
  replicas_after op vs s a =
      let d = disable_faulty_replicas_lem op (succ_cnt vs) (fail_cnt vs) (err_list vs) s in
      (λ h. ground (arith, d, marked_clean s.config.replicas vs a), λ h. ground (arith, d))

  pub finish-Outcome :
      (op : String) (value : ℤ) (vs : List Visit) (s : State W)
      → Agrees s.config.replicas vs
      → let out = finish sys op value (succ_cnt vs) (fail_cnt vs) (err_list vs) s in
        Outcome value s.config.replicas vs out.0 out.1.config.replicas
  finish-Outcome op value vs s a =
      let rep = replicas_after op vs s a in
      let first = get_first_error-FirstError s.config.replicas (err_list vs) in
      elim (finish_lem op value (succ_cnt vs) (fail_cnt vs) (err_list vs) s) [
        | inl (h, r, c) ↦ done h r (ap (λ x. x.replicas) c ∙ rep.0 h)
        | inr (h, r, c) ↦
            refused h
              (subst (FirstError s.config.replicas (err_list vs))
                (sym (r ∙ ap (λ rs. get_first_error rs (err_list vs)) (rep.1 h))) first)
              (ap (λ x. x.replicas) c ∙ rep.1 h)
      ]

  -- The same where the replicas are known by another name.
  pub finish-Outcome_at :
      (op : String) (value : ℤ) (vs : List Visit) (s : State W) (rs : List Replica)
      → s.config.replicas ≡ rs
      → Agrees rs vs
      → let out = finish sys op value (succ_cnt vs) (fail_cnt vs) (err_list vs) s in
        Outcome value rs vs out.0 out.1.config.replicas
  finish-Outcome_at op value vs s rs e =
      let out = finish sys op value (succ_cnt vs) (fail_cnt vs) (err_list vs) s in
      subst (λ q. Agrees q vs → Outcome value q vs out.0 out.1.config.replicas) e
        (finish-Outcome op value vs s)

  mirror_body-Outcome :
      (op : String) (one : Replica → State W → Visit × State W)
      → IsIteration one
      → (s : State W) (rs : List Replica) → s.config.replicas ≡ rs
      → let out = mirror_body sys op one s in
        Outcome (pos 0) rs (visit_all one rs s).0 out.0 out.1.config.replicas
  unfolding mirror_body
  mirror_body-Outcome op one it s rs e =
      let v = visit_all_lem one it s.config.replicas s in
      let run = visit_all one s.config.replicas s in
      rw (← e) (
        finish-Outcome_at op (pos 0) run.0 run.1 s.config.replicas (ap (λ x. x.replicas) v.1.0) v.0)

  -- A handler that makes a change on every replica, once it has `err_list`: the outcome of its visits.
  pub mirror-Outcome :
      (op : String) (context : Cred) (one : Replica → State W → Visit × State W)
      → IsIteration one
      → (s : State W) → has_err_list sys context s ≡ true
      → let out = mirror sys op context one s in
        Outcome
          (pos 0)
          s.config.replicas
          (visit_all one s.config.replicas (started sys context s)).0
          out.0
          out.1.config.replicas
  unfolding mirror
  mirror-Outcome op context one it s h =
      rw (with_err_list_some sys context (mirror_body sys op one) s h) (
        mirror_body-Outcome op one it (started sys context s) s.config.replicas
          (ap (λ x. x.replicas) (started_frame sys context s).0))

  untouched :
      (context : Cred) (s : State W)
      → any_enabled s.config.replicas ≡ true
      → any_enabled (reacquire_priv sys (started sys context s)).1.config.replicas ≡ true
  untouched context s h =
      rw ((reacquire_priv_frame sys (started sys context s)).0, (started_frame sys context s).0) h

  -- A handler leaves a working replica working, whether or not it gets memory.
  pub mirror-any_enabled :
      (op : String) (context : Cred) (one : Replica → State W → Visit × State W)
      → IsIteration one
      → (s : State W) → any_enabled s.config.replicas ≡ true
      → any_enabled (mirror sys op context one s).1.config.replicas ≡ true
  unfolding mirror
  mirror-any_enabled op context one it s h = elim (Bool-cases (has_err_list sys context s)) [
    | inl p ↦
        Outcome-any_enabled (mirror-Outcome op context one it s p)
          (visit_all_lem one it s.config.replicas (started sys context s)).0 h
    | inr p ↦
        rw (with_err_list_none sys context (mirror_body sys op one) s p) (untouched context s h)
  ]
