-- ===== src/Mirror/Calls.antt =====
-- Which calls a handler makes, in which order, and for whom.
use chironfs.Base.{
  ℕ, ◌+◌, ℤ, pos, is_nonzero, Bool, true, false, String, none, some, List, [], ◌∷◌, ◌++◌, ◌≡◌, refl,
  sym, ap, ap₂, ◌∙◌, inl, inr, if◌then◌else◌, length, arith, Bool-cases, Option-cases,
}
use chironfs.Model.{
  Bytes, Replica, Config, Cred, Call, calloc, malloc, seteuid, setegid, Kernel, State, call,
}
use chironfs.Policy.{disable_faulty_replicas}
use chironfs.Policy.Laws.{disable_faulty_replicas_lem}
use chironfs.Priv.{set_euid, set_egid, drop_priv, reacquire_priv}
use chironfs.Priv.Laws.{Privileged, reacquire_priv-cred}
use chironfs.Mirror.{
  err_list, succ_cnt, fail_cnt, xlate, try_call, visit, visit_all, finish, mirror_body, mirror,
}
use chironfs.Mirror.Laws.{SameButWorld, started, started_frame, with_err_list_some}

-- malloc and calloc find memory.
abbrev pub Allocates : {W : Type 0} → Kernel W → Type 0
Allocates {W} sys =
    (k : Cred) (n m : ℕ) (w : W)
    → (is_nonzero (sys k (malloc n) w).0.ret ≡ true)
      × (is_nonzero (sys k (calloc n m) w).0.ret ≡ true)

-- The calls that the iterations make: one for each replica that is not disabled, on its own copy of
-- the path, whatever the others return.
abbrev pub issued : Cred → (Bytes → Call) → Bytes → List Replica → List (Cred × Call)
issued k c path [] = []
issued k c path (r ∷ rs) =
    let rest = issued k c path rs in
    if r.disabled then rest else elim r.path [
      | none ↦ rest
      | some p ↦ (k, malloc (1 + length p + length path)) ∷ (k, c (p ++ path)) ∷ rest
    ]

-- The calls that give the program its own user and group back.
abbrev pub restored : Cred → Config → List (Cred × Call)
restored k config =
    (k, seteuid config.uid) ∷ (record { uid = config.uid; gid = k.gid }, setegid config.gid) ∷ []

-- The calls of a whole handler with the caller `context`, started under `k`.
abbrev pub handler_calls : Cred → Cred → (Bytes → Call) → Bytes → Config → List (Cred × Call)
handler_calls k context c path config =
    (k, setegid context.gid)
    ∷ (record { uid = k.uid; gid = context.gid }, seteuid context.uid)
    ∷ (context, calloc config.max_replica 4)
    ∷ (issued context c path config.replicas ++ restored context config)

module _ {W : Type 0} (sys : Kernel W) where
  -- The world after a list of calls.
  abbrev pub run_calls : List (Cred × Call) → W → W
  run_calls [] w = w
  run_calls ((k, c) ∷ cs) w = run_calls cs (sys k c w).1

  run_calls-append :
      (cs ds : List (Cred × Call)) (w : W) → run_calls (cs ++ ds) w ≡ run_calls ds (run_calls cs w)
  run_calls-append [] ds w = refl
  run_calls-append ((k, c) ∷ cs) ds w = run_calls-append cs ds (sys k c w).1

  try_call_world :
      (t : ℤ → Bool) (c : Call) (s : State W)
      → ((try_call sys t c s).1.world ≡ (sys s.cred c s.world).1)
        × SameButWorld s (try_call sys t c s).1
  unfolding try_call call
  try_call_world t c s = ground arith

  module _ (al : Allocates sys) (t : ℤ → Bool) (c : Bytes → Call) (path : Bytes) where
    visit_on :
        (r : Replica) (p : Bytes) (s : State W)
        → r.disabled ≡ false
        → r.path ≡ some p
        → let w = (sys s.cred (malloc (1 + length p + length path)) s.world).1 in
          let s' : State W = record s { world = w } in
          visit sys (λ f. try_call sys t (c f)) path r s ≡ try_call sys t (c (p ++ path)) s'
    unfolding visit xlate call
    visit_on r p s d e = simp (d, e, (al s.cred (1 + length p + length path) 0 s.world).0)

    visit_off :
        (r : Replica) (s : State W)
        → r.disabled ≡ true
        → (visit sys (λ f. try_call sys t (c f)) path r s).1 ≡ s
    unfolding visit
    visit_off r s d = simp d

    visit_null :
        (r : Replica) (s : State W)
        → r.path ≡ none
        → (visit sys (λ f. try_call sys t (c f)) path r s).1 ≡ s
    unfolding visit xlate
    visit_null r s e = elim (Bool-cases r.disabled) [ inl d ↦ simp d | inr d ↦ simp (d, e) ]

    -- One iteration makes the calls that are issued for its replica.
    visit-issued :
        (r : Replica) (s : State W)
        → let u = (visit sys (λ f. try_call sys t (c f)) path r s).1 in
          (u.world ≡ run_calls (issued s.cred c path (r ∷ [])) s.world) × SameButWorld s u
    visit-issued r s = elim (Bool-cases r.disabled) [
      | inl d ↦ simp (visit_off r s d, d) (refl, (refl, refl, refl))
      | inr d ↦ elim (Option-cases r.path) [
        | inl e ↦ simp (visit_null r s e, d, e) (refl, (refl, refl, refl))
        | inr (p, e) ↦
            let w = (sys s.cred (malloc (1 + length p + length path)) s.world).1 in
            let s' : State W = record s { world = w } in
            simp (visit_on r p s d e, d, e) (try_call_world t (c (p ++ path)) s')
      ]
    ]

    issued-cons :
        (k : Cred) (r : Replica) (rs : List Replica)
        → issued k c path (r ∷ rs) ≡ issued k c path (r ∷ []) ++ issued k c path rs
    issued-cons k r rs = elim (Bool-cases r.disabled) [
      | inl d ↦ simp d
      | inr d ↦ elim (Option-cases r.path) [ inl e ↦ simp (d, e) | inr (p, e) ↦ simp (d, e) ]
    ]

    pub visit_all-issued :
        (rs : List Replica) (s : State W)
        → let u = (visit_all (visit sys (λ f. try_call sys t (c f)) path) rs s).1 in
          (u.world ≡ run_calls (issued s.cred c path rs) s.world) × SameButWorld s u
    unfolding visit_all
    visit_all-issued [] s = (refl, (refl, refl, refl))
    visit_all-issued (r ∷ rs) s =
        let one = visit-issued r s in
        let u : State W = (visit sys (λ f. try_call sys t (c f)) path r s).1 in
        let ih = visit_all-issued rs u in
        (
          ih.0
              ∙ ap₂ (λ k w. run_calls (issued k c path rs) w) one.1.1 one.0
              ∙ sym (
                  run_calls-append (issued s.cred c path (r ∷ [])) (issued s.cred c path rs)
                    s.world)
              ∙ sym (ap (λ l. run_calls l s.world) (issued-cons s.cred r rs)),
          (ih.1.0 ∙ one.1.0, ih.1.1 ∙ one.1.1, ih.1.2 ∙ one.1.2),
        )

  pub reacquire_calls :
      Privileged sys
      → (s : State W)
      → (reacquire_priv sys s).1.world ≡ run_calls (restored s.cred s.config) s.world
  unfolding reacquire_priv set_euid set_egid call
  reacquire_calls p s = grind (arith, p)

  pub started_calls :
      Privileged sys
      → (context : Cred) (s : State W)
      → ((started sys context s).world
          ≡ run_calls
              ((s.cred, setegid context.gid)
                ∷ (record { uid = s.cred.uid; gid = context.gid }, seteuid context.uid)
                ∷ (context, calloc s.config.max_replica 4)
                ∷ [])
              s.world)
        × ((started sys context s).cred ≡ context)
  unfolding drop_priv set_euid set_egid call
  started_calls p context s = grind (arith, p)

  -- The end of a handler gives the program its own user and group back, by two calls.
  pub finish_calls :
      Privileged sys
      → (op : String) (value : ℤ) (sc fc : ℕ) (es : List ℤ) (s : State W)
      → let u = (finish sys op value sc fc es s).1 in
        (u.world ≡ run_calls (restored s.cred s.config) s.world)
        × (u.cred ≡ record { uid = s.config.uid; gid = s.config.gid })
  unfolding finish
  finish_calls p op value sc fc es s =
      let t = disable_faulty_replicas op sc fc es s in
      ground (
        arith,
        disable_faulty_replicas_lem op sc fc es s,
        reacquire_calls p t,
        reacquire_priv-cred sys p t,
      )

  mirror_body_calls :
      Privileged sys
      → Allocates sys
      → (op : String) (t : ℤ → Bool) (c : Bytes → Call) (path : Bytes) (s : State W)
      → let u = (mirror_body sys op (visit sys (λ f. try_call sys t (c f)) path) s).1 in
        (u.world
          ≡ run_calls (issued s.cred c path s.config.replicas ++ restored s.cred s.config) s.world)
        × (u.cred ≡ record { uid = s.config.uid; gid = s.config.gid })
  unfolding mirror_body
  mirror_body_calls p al op t c path s =
      let run = visit_all (visit sys (λ f. try_call sys t (c f)) path) s.config.replicas s in
      let v = visit_all-issued al t c path s.config.replicas s in
      let f = finish_calls p op (pos 0) (succ_cnt run.0) (fail_cnt run.0) (err_list run.0) run.1 in
      let middle = run_calls (issued s.cred c path s.config.replicas) s.world in
      (
        f.0
            ∙ ap₂ (λ k w. run_calls (restored k run.1.config) w) v.1.1 v.0
            ∙ ap (λ g. run_calls (restored s.cred g) middle) v.1.0
            ∙ sym (run_calls-append (issued s.cred c path s.config.replicas) _ s.world),
        f.1 ∙ ap (λ (g : Config). record { uid = g.uid; gid = g.gid }) v.1.0,
      )

  -- A handler that makes one call on each replica makes exactly the calls of `handler_calls`, and
  -- ends under the user and group of the program, if memory is found and the program may change its
  -- effective user and group.
  pub mirror_calls :
      Privileged sys
      → Allocates sys
      → (op : String) (context : Cred) (t : ℤ → Bool) (c : Bytes → Call) (path : Bytes)
        (s : State W)
      → let u = (mirror sys op context (visit sys (λ f. try_call sys t (c f)) path) s).1 in
        (u.world ≡ run_calls (handler_calls s.cred context c path s.config) s.world)
        × (u.cred ≡ record { uid = s.config.uid; gid = s.config.gid })
  unfolding mirror call
  mirror_calls p al op context t c path s =
      let one = visit sys (λ f. try_call sys t (c f)) path in
      let d = (drop_priv sys context s).1 in
      let st = started_calls p context s in
      let fr = (started_frame sys context s).0 in
      let b = mirror_body_calls p al op t c path (started sys context s) in
      rw
        (with_err_list_some sys context (mirror_body sys op one) s
          ((al d.cred d.config.max_replica 4 d.world).1))
        (
          b.0
              ∙ ap₂
                  (λ k (g : Config).
                    run_calls (issued k c path g.replicas ++ restored k g)
                      (started sys context s).world)
                  st.1 fr
              ∙ ap
                  (run_calls (issued context c path s.config.replicas ++ restored context s.config))
                  st.0,
          b.1 ∙ ap (λ (g : Config). record { uid = g.uid; gid = g.gid }) fr,
        )
