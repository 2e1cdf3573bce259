-- ===== src/Changes/Nodes.antt =====
-- What chiron_mknod leaves of the configuration.
use mathlib.Core.Path.{subst}
use mathlib.Core.Option
use chironfs.Base.{
  ℕ, pos, is_nonzero, Option, none, some, List, [], ◌∷◌, refl, sym, ap, ◌∙◌, inl, inr, arith,
  Bool-cases, Option-cases,
}
use chironfs.Model.{Bytes, Config, Replica, Cred, Kernel, Posix, State, call, open_new, mkfifo}
use chironfs.Priv.{reacquire_priv}
use chironfs.Priv.Laws.{reacquire_priv_frame}
use chironfs.Mirror.{Visit, err_list, succ_cnt, fail_cnt, finish, try_call, xlate}
use chironfs.Mirror.Laws.{
  VisitOf, VisitOf-enabled, Agrees, IsBody, SameButWorld, SameButWorld-trans, try_call_nonzero,
  is_nonzero-neg, xlate_frame,
}
use chironfs.Mirror.Outcome.{Outcome-any_enabled, finish-Outcome_at}
use chironfs.Mirror.Keeping.{with_err_list-Kept}
use chironfs.Namespace.{is_reg, is_fifo, make_reg, mknod_visit, mknod_loop, chiron_mknod}
use chironfs.Scan.Total.{Mounted}
use chironfs.Scan.Finish.{Able, Kept, Kept-same, Evolve-finish}

abbrev Maybe : (Visit → Type 0) → Option Visit → Type 0
Maybe P none = Unit {0}
Maybe P (some v) = P v

abbrev MaybeAll : List Replica → Option (List Visit) → Type 0
MaybeAll rs none = Unit {0}
MaybeAll rs (some vs) = Agrees rs vs

MaybeAll-cons :
    (r : Replica) (rs : List Replica) (v : Visit) (vs : Option (List Visit))
    → VisitOf r v
    → MaybeAll rs vs
    → MaybeAll (r ∷ rs) (Option.map (λ us. v ∷ us) vs)
MaybeAll-cons r rs v none a b = tt
MaybeAll-cons r rs v (some vs) a b = (a, b)

module _ {W : Type 0} (sys : Kernel W) (context : Cred) (posix : Posix sys) where
  pub make_reg-IsBody : (mode : ℕ) (f : Bytes) → IsBody (make_reg sys context mode f)
  unfolding make_reg call
  make_reg-IsBody mode f s = ground (
    arith,
    posix.sets_errno s.cred (open_new f mode) s.world,
    is_nonzero-neg (sys s.cred (open_new f mode) s.world).0.errno,
  )

  mknod_visit_lem :
      (path : Bytes) (mode : ℕ) (r : Replica) (s : State W)
      → let (v, t) = mknod_visit sys context path mode r s in Maybe (VisitOf r) v × SameButWorld s t
  unfolding mknod_visit
  mknod_visit_lem path mode r s =
      let t : State W = (xlate sys path r.path s).1 in
      let f = xlate_frame sys path r.path s in
      elim (Bool-cases r.disabled) [
        | inl off ↦ simp off (tt, (refl, refl, refl))
        | inr on ↦ elim (Option-cases (xlate sys path r.path s).0) [
          | inl e ↦ simp (on, e) (tt, f)
          | inr (g, e) ↦ elim (Bool-cases (is_reg mode)) [
            | inl reg ↦
                let b = make_reg-IsBody mode g t in
                let u : Visit × State W = make_reg sys context mode g t in
                simp (on, e, reg) (VisitOf-enabled r u.0 on b.0, SameButWorld-trans s t u.1 f b.1)
            | inr reg ↦ elim (Bool-cases (is_fifo mode)) [
              | inl fifo ↦
                  let b = try_call_nonzero sys posix (mkfifo g mode) refl t in
                  let u : Visit × State W = try_call sys is_nonzero (mkfifo g mode) t in
                  simp (on, e, reg, fifo)
                    (VisitOf-enabled r u.0 on b.0, SameButWorld-trans s t u.1 f b.1)
              | inr fifo ↦ simp (on, e, reg, fifo) (tt, f)
            ]
          ]
        ]
      ]

  pub mknod_loop_lem :
      (path : Bytes) (mode : ℕ) (rs : List Replica) (s : State W)
      → let (vs, t) = mknod_loop sys context path mode rs s in MaybeAll rs vs × SameButWorld s t
  unfolding mknod_loop
  mknod_loop_lem path mode [] s = (tt, (refl, refl, refl))
  mknod_loop_lem path mode (r ∷ rs) s =
      let one = mknod_visit sys context path mode r s in
      let h = mknod_visit_lem path mode r s in
      let all = mknod_loop sys context path mode rs one.1 in
      let ih = mknod_loop_lem path mode rs one.1 in
      elim (Option-cases one.0) [
        | inl e ↦ simp (mknod_loop, e) (tt, h.1)
        | inr (v, e) ↦
            simp (mknod_loop, e)
              (
                MaybeAll-cons r rs v all.0 (subst (Maybe (VisitOf r)) e h.0) ih.0,
                SameButWorld-trans s one.1 all.1 h.1 ih.1,
              )
      ]

  pub chiron_mknod-Kept :
      (path : Bytes) (mode : ℕ) (s : State W)
      → Able s.config
      → Kept s.config (chiron_mknod sys context path mode s).1.config
  unfolding chiron_mknod
  chiron_mknod-Kept path mode s a = with_err_list-Kept sys context _ s a λ u e.
      let c = s.config in
      let b : Able u.config = subst Able (sym e) a in
      let run = mknod_loop sys context path mode u.config.replicas u in
      let h = mknod_loop_lem path mode u.config.replicas u in
      let w = h.1.0 ∙ e in
      elim (Option-cases run.0) [
        | inl z ↦
            let t : State W = (reacquire_priv sys run.1).1 in
            simp z (Kept-same c t.config a ((reacquire_priv_frame sys run.1).0 ∙ w))
        | inr (vs, z) ↦
            let out = finish sys "mknod" (pos 0) (succ_cnt vs) (fail_cnt vs) (err_list vs) run.1 in
            simp z (
              subst (λ d. Kept d out.1.config) w
                (
                  Evolve-finish sys "mknod" (pos 0) (succ_cnt vs) (fail_cnt vs) (err_list vs) run.1
                      (subst Mounted (sym w) a.mounted),
                  let ag = subst (MaybeAll u.config.replicas) z h.0 in
                      Outcome-any_enabled
                        (finish-Outcome_at sys "mknod" (pos 0) vs run.1 u.config.replicas
                          (ap (λ (x : Config). x.replicas) h.1.0) ag)
                        ag b.alive,
                ))
      ]
