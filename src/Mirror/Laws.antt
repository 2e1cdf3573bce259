-- ===== src/Mirror/Laws.antt =====
-- How the visits of a handler fit the replicas, and what the end of a handler makes of them.
use chironfs.Base.{
  ℕ, zero, suc, ◌<◌, ℤ, neg, is_nonzero, is_negative, Bool, true, false, Option, some, none, List,
  [], ◌∷◌, ◌≡◌, refl, inl, inr, arith, Bool-cases, Option-cases,
}
use chironfs.Model.{Bytes, Replica, Cred, Call, calloc, Kernel, Posix, returns_zero, State, call}
use chironfs.Policy.Laws.{marked}
use chironfs.Priv.{drop_priv, reacquire_priv}
use chironfs.Priv.Laws.{drop_priv_frame}
use chironfs.Mirror.{
  Visit, skipped, failed, succeeded, err_list, fail_cnt, xlate, try_call, visit, visit_all,
  with_err_list, enomem,
}

-- Only a replica that is not disabled is counted, and an error is not 0.
abbrev pub VisitOf : Replica → Visit → Type 0
VisitOf r skipped = Unit {0}
VisitOf r (failed e) = (r.disabled ≡ false) × (is_nonzero e ≡ true)
VisitOf r succeeded = r.disabled ≡ false

-- There is one visit for each replica, and it fits the replica.
abbrev pub Agrees : List Replica → List Visit → Type 0
Agrees [] [] = Unit {0}
Agrees [] (v ∷ vs) = ⊥
Agrees (r ∷ rs) [] = ⊥
Agrees (r ∷ rs) (v ∷ vs) = VisitOf r v × Agrees rs vs

pub marked_clean :
    (rs : List Replica) (vs : List Visit)
    → Agrees rs vs
    → fail_cnt vs ≡ 0
    → marked rs (err_list vs) ≡ rs
unfolding fail_cnt err_list
marked_clean [] [] a h = refl
marked_clean [] (v ∷ vs) a h = absurd a
marked_clean (r ∷ rs) [] a h = absurd a
marked_clean (r ∷ rs) (skipped ∷ vs) a h = ground (arith, marked_clean rs vs a.1 h)
marked_clean (r ∷ rs) (failed e ∷ vs) a h = absurd (omega arith)
marked_clean (r ∷ rs) (succeeded ∷ vs) a h = ground (arith, marked_clean rs vs a.1 h)

-- What a body may report: an error that is not 0.
abbrev pub ErrorOf : Visit → Type 0
ErrorOf skipped = Unit {0}
ErrorOf (failed e) = is_nonzero e ≡ true
ErrorOf succeeded = Unit {0}

pub VisitOf-enabled : (r : Replica) (v : Visit) → r.disabled ≡ false → ErrorOf v → VisitOf r v
VisitOf-enabled r skipped d h = tt
VisitOf-enabled r (failed e) d h = (d, h)
VisitOf-enabled r succeeded d h = d

pub is_nonzero-neg : (n : ℕ) → 0 < n → is_nonzero (neg n) ≡ true
is_nonzero-neg zero h = absurd (omega arith)
is_nonzero-neg (suc n) h = refl

module _ {W : Type 0} where
  -- The iterations change neither the configuration nor the log nor the effective user.
  abbrev pub SameButWorld : State W → State W → Type 0
  SameButWorld s t = (t.config ≡ s.config) × (t.cred ≡ s.cred) × (t.logfd ≡ s.logfd)

  pub SameButWorld-trans :
      (s t u : State W) → SameButWorld s t → SameButWorld t u → SameButWorld s u
  SameButWorld-trans s t u a b = ground arith

  abbrev pub IsBody : (State W → Visit × State W) → Type 0
  IsBody body = (s : State W) → ErrorOf (body s).0 × SameButWorld s (body s).1

  abbrev pub IsIteration : (Replica → State W → Visit × State W) → Type 0
  IsIteration one = (r : Replica) (s : State W) → VisitOf r (one r s).0 × SameButWorld s (one r s).1

  pub visit_all_lem :
      (one : Replica → State W → Visit × State W)
      → IsIteration one
      → (rs : List Replica) (s : State W)
      → Agrees rs (visit_all one rs s).0 × SameButWorld s (visit_all one rs s).1
  unfolding visit_all
  visit_all_lem one h [] s = (tt, (refl, refl, refl))
  visit_all_lem one h (r ∷ rs) s =
      let t : State W = (one r s).1 in
      let ih = visit_all_lem one h rs t in
      (((h r s).0, ih.0), SameButWorld-trans s t (visit_all one rs t).1 (h r s).1 ih.1)

module _ {W : Type 0} (sys : Kernel W) where
  pub call_frame : (c : Call) (s : State W) → SameButWorld s (call sys c s).1
  unfolding call
  call_frame c s = (refl, refl, refl)

  -- The state in which the body of a handler starts, and whether it starts.
  abbrev pub started : Cred → State W → State W
  started context s =
      let t = (drop_priv sys context s).1 in (call sys (calloc t.config.max_replica 4) t).1

  abbrev pub has_err_list : Cred → State W → Bool
  has_err_list context s =
      let t = (drop_priv sys context s).1 in
      is_nonzero (call sys (calloc t.config.max_replica 4) t).0.ret

  pub started_frame :
      (context : Cred) (s : State W)
      → ((started context s).config ≡ s.config) × ((started context s).logfd ≡ s.logfd)
  unfolding call
  started_frame context s = drop_priv_frame sys context s

  pub with_err_list_some :
      (context : Cred) (body : State W → ℤ × State W) (s : State W)
      → has_err_list context s ≡ true
      → with_err_list sys context body s ≡ body (started context s)
  unfolding with_err_list
  with_err_list_some context body s h = rw h

  pub with_err_list_none :
      (context : Cred) (body : State W → ℤ × State W) (s : State W)
      → has_err_list context s ≡ false
      → with_err_list sys context body s ≡ (enomem, (reacquire_priv sys (started context s)).1)
  unfolding with_err_list
  with_err_list_none context body s h = rw h

  pub xlate_frame :
      (fname : Bytes) (rpath : Option Bytes) (s : State W)
      → SameButWorld s (xlate sys fname rpath s).1
  unfolding xlate call
  xlate_frame fname none s = (refl, refl, refl)
  xlate_frame fname (some rpath) s = ground arith

  -- An iteration is sound if what follows `xlate` is.
  pub visit-IsIteration :
      (body : Replica → Bytes → State W → Visit × State W) (path : Bytes)
      → ((r : Replica) (f : Bytes) → IsBody (body r f))
      → IsIteration (λ r. visit sys (body r) path r)
  unfolding visit
  visit-IsIteration body path h r s = elim (Bool-cases r.disabled) [
    | inl off ↦ simp off (tt, (refl, refl, refl))
    | inr on ↦ elim (Option-cases (xlate sys path r.path s).0) [
      | inl e ↦ simp (on, e) (tt, xlate_frame path r.path s)
      | inr (f, e) ↦
          let t : State W = (xlate sys path r.path s).1 in
          simp (on, e)
            (
              VisitOf-enabled r (body r f t).0 on (h r f t).0,
              SameButWorld-trans s t (body r f t).1 (xlate_frame path r.path s) (h r f t).1,
            )
    ]
  ]

  module _ (posix : Posix sys) where
    pub try_call_negative : (c : Call) → IsBody (try_call sys is_negative c)
    unfolding try_call call
    try_call_negative c s =
        ground
          (arith, posix.sets_errno s.cred c s.world, is_nonzero-neg (sys s.cred c s.world).0.errno)

    pub try_call_nonzero : (c : Call) → returns_zero c ≡ true → IsBody (try_call sys is_nonzero c)
    unfolding try_call call
    try_call_nonzero c z s = ground (
      arith,
      posix.sets_errno s.cred c s.world,
      posix.zero_or_negative s.cred c s.world,
      is_nonzero-neg (sys s.cred c s.world).0.errno,
    )
