-- ===== src/OpenFiles/Usable.antt =====
-- How the descriptors of an open file fit the replicas.
use chironfs.Base.{
  ℤ, pos, negsuc, is_negative, is_nonzero, true, false, none, List, [], ◌∷◌, ◌≡◌, ◌≢◌, refl, inl,
  inr, arith, Bool-cases, Option-cases,
}
use chironfs.Model.{Bytes, Replica, Call, Kernel, Posix, State, call}
use chironfs.Policy.{get_first_error}
use chironfs.Policy.Laws.{marked}
use chironfs.FdTable.{first_fd}
use chironfs.Mirror.{Visit, skipped, failed, succeeded, err_list, succ_cnt, xlate}
use chironfs.Mirror.Laws.{
  VisitOf, Agrees, SameButWorld, SameButWorld-trans, is_nonzero-neg, xlate_frame,
}
use chironfs.Mirror.Survivor.{any_enabled}
use chironfs.OpenFiles.{open_fname, open_visit, open_all}

abbrev pub Usable : List Replica → List ℤ → Type 0
Usable [] [] = Unit {0}
Usable [] (f ∷ fd) = ⊥
Usable (r ∷ rs) [] = ⊥
Usable (r ∷ rs) (f ∷ fd) = (r.disabled ≡ false → is_negative f ≡ false) × Usable rs fd

-- Disabling replicas keeps a file usable.
pub Usable-marked : (rs : List Replica) (es fd : List ℤ) → Usable rs fd → Usable (marked rs es) fd
Usable-marked [] es fd u = u
Usable-marked (r ∷ rs) [] fd u = u
Usable-marked (r ∷ rs) (e ∷ es) [] u = absurd u
Usable-marked (r ∷ rs) (e ∷ es) (f ∷ fd) u = (λ h. u.0 (ground arith), Usable-marked rs es fd u.1)

-- What one iteration of chiron_open leaves.
abbrev pub OpenOf : Replica → Visit → ℤ → Type 0
OpenOf r skipped f = r.disabled ≡ true
OpenOf r (failed e) f = (r.disabled ≡ false) × (is_nonzero e ≡ true)
OpenOf r succeeded f = (r.disabled ≡ false) × (is_negative f ≡ false)

abbrev pub AgreesOpen : List Replica → List Visit → List ℤ → Type 0
AgreesOpen [] [] [] = Unit {0}
AgreesOpen (r ∷ rs) (v ∷ vs) (f ∷ fd) = OpenOf r v f × AgreesOpen rs vs fd
AgreesOpen _ _ _ = ⊥

VisitOf-OpenOf : (r : Replica) (v : Visit) (f : ℤ) → OpenOf r v f → VisitOf r v
VisitOf-OpenOf r skipped f h = tt
VisitOf-OpenOf r (failed e) f h = h
VisitOf-OpenOf r succeeded f h = h.0

pub Agrees-AgreesOpen :
    (rs : List Replica) (vs : List Visit) (fd : List ℤ) → AgreesOpen rs vs fd → Agrees rs vs
Agrees-AgreesOpen [] [] [] a = tt
Agrees-AgreesOpen (r ∷ rs) (v ∷ vs) (f ∷ fd) a =
    (VisitOf-OpenOf r v f a.0, Agrees-AgreesOpen rs vs fd a.1)
Agrees-AgreesOpen [] [] (f ∷ fd) a = absurd a
Agrees-AgreesOpen [] (v ∷ vs) fd a = absurd a
Agrees-AgreesOpen (r ∷ rs) [] fd a = absurd a
Agrees-AgreesOpen (r ∷ rs) (v ∷ vs) [] a = absurd a

Usable-after :
    (r : Replica) (v : Visit) (vs : List Visit) (rs : List Replica) (f : ℤ) (fd : List ℤ)
    → OpenOf r v f
    → Usable (marked rs (err_list vs)) fd
    → Usable (marked (r ∷ rs) (err_list (v ∷ vs))) (f ∷ fd)
unfolding err_list
Usable-after r skipped vs rs f fd h u = (λ k. cc, u)
Usable-after r (failed e) vs rs f fd h u = (λ k. ground arith, u)
Usable-after r succeeded vs rs f fd h u = (λ k. h.1, u)

-- Once the replicas that failed are disabled, the opened file is usable.
pub marked-Usable :
    (rs : List Replica) (vs : List Visit) (fd : List ℤ)
    → AgreesOpen rs vs fd
    → Usable (marked rs (err_list vs)) fd
unfolding err_list
marked-Usable [] [] [] a = tt
marked-Usable (r ∷ rs) (v ∷ vs) (f ∷ fd) a =
    Usable-after r v vs rs f fd a.0 (marked-Usable rs vs fd a.1)
marked-Usable [] [] (f ∷ fd) a = absurd a
marked-Usable [] (v ∷ vs) fd a = absurd a
marked-Usable (r ∷ rs) [] fd a = absurd a
marked-Usable (r ∷ rs) (v ∷ vs) [] a = absurd a

-- A usable file has a descriptor to hash while some replica is enabled.
pub first_fd-ne-none :
    (rs : List Replica) (fd : List ℤ) → Usable rs fd → any_enabled rs ≡ true → first_fd rs fd ≢ none
unfolding first_fd
first_fd-ne-none [] fd u h = cc
first_fd-ne-none (r ∷ rs) [] u h = absurd u
first_fd-ne-none (r ∷ rs) (negsuc n ∷ fd) u h = ground (arith, u.0, first_fd-ne-none rs fd u.1)
first_fd-ne-none (r ∷ rs) (pos n ∷ fd) u h = ground (arith, first_fd-ne-none rs fd u.1)

-- If every replica that is not disabled has failed, and there is one, the first error is one.
pub get_first_error-open :
    (rs : List Replica) (vs : List Visit) (fd : List ℤ)
    → AgreesOpen rs vs fd
    → any_enabled rs ≡ true
    → succ_cnt vs ≡ 0
    → is_nonzero (get_first_error rs (err_list vs)) ≡ true
unfolding get_first_error err_list succ_cnt
get_first_error-open [] vs fd a h z = cc
get_first_error-open (r ∷ rs) [] fd a h z = absurd a
get_first_error-open (r ∷ rs) (v ∷ vs) [] a h z = absurd a
get_first_error-open (r ∷ rs) (skipped ∷ vs) (f ∷ fd) a h z =
    ground (arith, get_first_error-open rs vs fd a.1)
get_first_error-open (r ∷ rs) (failed e ∷ vs) (f ∷ fd) a h z = ground arith
get_first_error-open (r ∷ rs) (succeeded ∷ vs) (f ∷ fd) a h z = absurd (omega arith)

module _ {W : Type 0} (sys : Kernel W) (posix : Posix sys) where
  open_fname_lem :
      (c : Call) (r : Replica) (s : State W)
      → r.disabled ≡ false
      → let (p, t) = open_fname sys c s in OpenOf r p.0 p.1 × SameButWorld s t
  unfolding open_fname call
  open_fname_lem c r s h =
      ground
        (arith, posix.sets_errno s.cred c s.world, is_nonzero-neg (sys s.cred c s.world).0.errno)

  open_visit_lem :
      (c : Bytes → Call) (path : Bytes) (r : Replica) (s : State W)
      → let (p, t) = open_visit sys c path r s in OpenOf r p.0 p.1 × SameButWorld s t
  unfolding open_visit
  open_visit_lem c path r s = elim (Bool-cases r.disabled) [
    | inl off ↦ simp off (refl, (refl, refl, refl))
    | inr on ↦ elim (Option-cases (xlate sys path r.path s).0) [
      | inl e ↦ simp (on, e) ((refl, refl), xlate_frame sys path r.path s)
      | inr (f, e) ↦
          let t : State W = (xlate sys path r.path s).1 in
          let o = open_fname_lem (c f) r t on in
          simp (on, e)
            (
              o.0,
              SameButWorld-trans s t (open_fname sys (c f) t).1 (xlate_frame sys path r.path s) o.1,
            )
    ]
  ]

  pub open_all_lem :
      (c : Bytes → Call) (path : Bytes) (rs : List Replica) (s : State W)
      → let (p, t) = open_all sys c path rs s in AgreesOpen rs p.0 p.1 × SameButWorld s t
  unfolding open_all
  open_all_lem c path [] s = (tt, (refl, refl, refl))
  open_all_lem c path (r ∷ rs) s =
      let o = open_visit_lem c path r s in
      let t : State W = (open_visit sys c path r s).1 in
      let ih = open_all_lem c path rs t in
      ((o.0, ih.0), SameButWorld-trans s t (open_all sys c path rs t).1 o.1 ih.1)
