-- ===== src/OneCopy/Request.antt =====
-- A handler that makes a change on every replica: it is made on all that are left, or on none.
use mathlib.Core.Path.{subst}
use chironfs.Base.{
  ℤ, pos, is_nonzero, true, String, some, List, [], ◌∷◌, ◌≡◌, refl, sym, ap, ◌∙◌, inl, inr,
  Bool-cases,
}
use chironfs.Model.{Bytes, Replica, Cred, Config, calloc, seteuid, setegid, Kernel, State}
use chironfs.Priv.{reacquire_priv}
use chironfs.Priv.Laws.{Privileged, reacquire_priv_frame}
use chironfs.Mirror.{Visit, err_list, succ_cnt, fail_cnt, visit_all, mirror_body, mirror}
use chironfs.Mirror.Laws.{
  IsIteration, started, started_frame, has_err_list, with_err_list_some, with_err_list_none,
}
use chironfs.Mirror.Outcome.{Outcome, done, refused, mirror-Outcome}
use chironfs.Mirror.Survivor.{any_enabled}
use chironfs.Mirror.Calls.{run_calls, restored, started_calls, reacquire_calls, finish_calls}
use chironfs.OneCopy.{Edit, Disks, Rooted, Same}
use chironfs.OneCopy.Loop.{AllMade, Visits, visit_all-AllMade}
use chironfs.OneCopy.Ends.{marked-Same, succ_cnt-act, none-Same, none-nonzero}

module _ {W : Type 0} {sys : Kernel W} {D : Type 0} (ds : Disks sys D) where
  -- All or nothing: the request is made, and every replica that is left holds its result; or an error is
  -- reported, and every replica that is left holds the tree from before.
  pub data Atomic (k : Cred) (e : Edit) (d : D) (ret : ℤ) (rs : List Replica) (w : W) : Type 0 where
    made : (d' : D) → ret ≡ pos 0 → ds.act k e d ≡ some d' → Same ds d' rs w → Atomic k e d ret rs w
    unmade : is_nonzero ret ≡ true → Same ds d rs w → Atomic k e d ret rs w

  pub Same-world :
      (d : D) (rs : List Replica) (w w' : W)
      → ((q : Bytes) → ds.disk q w' ≡ ds.disk q w)
      → Same ds d rs w
      → Same ds d rs w'
  Same-world d [] w w' h s = tt
  Same-world d (r ∷ rs) w w' h s = (λ on p f. h p ∙ s.0 on p f, Same-world d rs w w' h s.1)

  Atomic-world :
      (k : Cred) (e : Edit) (d : D) (ret : ℤ) (rs : List Replica) (w w' : W)
      → ((q : Bytes) → ds.disk q w' ≡ ds.disk q w)
      → Atomic k e d ret rs w
      → Atomic k e d ret rs w'
  Atomic-world k e d ret rs w w' h (made d' r a s) = made d' r a (Same-world d' rs w w' h s)
  Atomic-world k e d ret rs w w' h (unmade r s) = unmade r (Same-world d rs w w' h s)

  -- The calls that change the effective user and group leave the trees alone.
  pub restored-disk :
      (k : Cred) (c : Config) (q : Bytes) (w : W)
      → ds.disk q (run_calls sys (restored k c) w) ≡ ds.disk q w
  restored-disk k c q w =
      ds.silent (record { uid = c.uid; gid = k.gid }) (setegid c.gid) q _ refl
      ∙ ds.silent k (seteuid c.uid) q w refl

  module _ (priv : Privileged sys) where
    -- So does the start of a handler.
    pub started-disk :
        (context : Cred) (s : State W) (q : Bytes)
        → ds.disk q (started sys context s).world ≡ ds.disk q s.world
    started-disk context s q =
        ap (ds.disk q) (started_calls sys priv context s).0
        ∙ ds.silent context (calloc s.config.max_replica 4) q _ refl
        ∙ ds.silent (record { uid = s.cred.uid; gid = context.gid }) (seteuid context.uid) q _ refl
        ∙ ds.silent s.cred (setegid context.gid) q s.world refl

    pub reacquired-disk :
        (s : State W) (q : Bytes) → ds.disk q (reacquire_priv sys s).1.world ≡ ds.disk q s.world
    reacquired-disk s q =
        ap (ds.disk q) (reacquire_calls sys priv s) ∙ restored-disk s.cred s.config q s.world

    mirror_body-disk :
        (op : String) (one : Replica → State W → Visit × State W) (s : State W) (q : Bytes)
        → ds.disk q (mirror_body sys op one s).1.world
          ≡ ds.disk q (visit_all one s.config.replicas s).1.world
    unfolding mirror_body
    mirror_body-disk op one s q =
        let run = visit_all one s.config.replicas s in
        ap (ds.disk q)
          (finish_calls sys priv op (pos 0) (succ_cnt run.0) (fail_cnt run.0) (err_list run.0)
            run.1).0
        ∙ restored-disk run.1.cred run.1.config q run.1.world

    Outcome-Atomic :
        (k : Cred) (e : Edit) (d : D) (rs after : List Replica) (vs : List Visit) (ret : ℤ) (w : W)
        → Rooted ds rs
        → any_enabled rs ≡ true
        → AllMade ds k e d rs vs w
        → Outcome (pos 0) rs vs ret after
        → Atomic k e d ret after w
    Outcome-Atomic k e d rs after vs ret w t h m (done n r a) =
        let (d', x) = succ_cnt-act ds k e d rs vs w t m n in
        made d' r x (subst (λ q. Same ds d' q w) (sym a) (marked-Same ds k e d d' rs vs w x m))
    Outcome-Atomic k e d rs after vs ret w t h m (refused z f a) =
        unmade (none-nonzero ds k e d rs vs w ret t m z h f)
          (subst (λ q. Same ds d q w) (sym a) (none-Same ds k e d rs vs w m z))

    -- A handler with such iterations is atomic.
    pub mirror-Atomic :
        (op : String) (context : Cred) (one : Replica → State W → Visit × State W) (e : Edit)
        (d : D) (s : State W)
        → IsIteration one
        → Visits ds context e one
        → Rooted ds s.config.replicas
        → any_enabled s.config.replicas ≡ true
        → Same ds d s.config.replicas s.world
        → let out = mirror sys op context one s in
          Atomic context e d out.0 out.1.config.replicas out.1.world
    unfolding mirror
    mirror-Atomic op context one e d s it vis t h same =
        let u = started sys context s in
        let f = (started_frame sys context s).0 in
        let here = Same-world d s.config.replicas s.world u.world (started-disk context s) same in
        elim (Bool-cases (has_err_list sys context s)) [
          | inl y ↦
              let out = mirror sys op context one s in
              let run = visit_all one s.config.replicas u in
              let m =
                (visit_all-AllMade ds context e one vis d s.config.replicas u t here
                  (started_calls sys priv context s).1).0 in
              let w : (q : Bytes) → ds.disk q out.1.world ≡ ds.disk q run.1.world = λ q.
                ap (λ (x : ℤ × State W). ds.disk q x.1.world)
                  (with_err_list_some sys context (mirror_body sys op one) s y)
                ∙ mirror_body-disk op one u q
                ∙ ap (λ (c : Config). ds.disk q (visit_all one c.replicas u).1.world) f in
              Atomic-world context e d out.0 out.1.config.replicas run.1.world out.1.world w (
                Outcome-Atomic context e d s.config.replicas out.1.config.replicas run.0 out.0
                  run.1.world t h m (mirror-Outcome sys op context one it s y))
          | inr z ↦ rw (with_err_list_none sys context (mirror_body sys op one) s z) (
              unmade refl (
                subst (λ (c : Config). Same ds d c.replicas (reacquire_priv sys u).1.world)
                  (sym ((reacquire_priv_frame sys u).0 ∙ f))
                  (Same-world d s.config.replicas u.world (reacquire_priv sys u).1.world
                    (reacquired-disk u) here)))
        ]
