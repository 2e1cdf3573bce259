-- ===== src/FileIo/Largest.antt =====
-- The largest number of bytes that an iteration of chiron_write wrote.
use chironfs.Base.{
  ◌<◌, ◌≤◌, ℤ, pos, negsuc, is_negative, false, List, [], ◌∷◌, ◌≡◌, refl, ap, ◌∙◌, inl, inr, ◌⊎◌,
  arith, max_ℤ,
}
use chironfs.Mirror.{Visit, skipped, failed, succeeded, succ_cnt}

-- x ≤ y for numbers of bytes, which are not negative.
abbrev pub AtMost : ℤ → ℤ → Type 0
AtMost (pos a) (pos b) = a ≤ b
AtMost (pos a) (negsuc b) = ⊥
AtMost (negsuc a) y = ⊥

pub AtMost-refl : (x : ℤ) → is_negative x ≡ false → AtMost x x
AtMost-refl (pos n) h = omega arith
AtMost-refl (negsuc n) h = cc

AtMost-trans : (x y z : ℤ) → AtMost x y → AtMost y z → AtMost x z
AtMost-trans (pos a) (pos b) (pos c) h k = omega arith
AtMost-trans (pos a) (pos b) (negsuc c) h k = absurd k
AtMost-trans (pos a) (negsuc b) z h k = absurd h
AtMost-trans (negsuc a) y z h k = absurd h

max_lem :
    (x y : ℤ)
    → is_negative x ≡ false
    → is_negative y ≡ false
    → AtMost x (max_ℤ x y) × AtMost y (max_ℤ x y) × ((max_ℤ x y ≡ x) ⊎ (max_ℤ x y ≡ y))
max_lem (pos a) (pos b) h k = ground arith
max_lem (pos a) (negsuc b) h k = cc
max_lem (negsuc a) y h k = cc

-- What the iterations of the loop gave: how each ended, and its `w`.
abbrev pub Results : Type 0
Results = List (Visit × ℤ)

abbrev pub ends : Results → List Visit
ends [] = []
ends (x ∷ xs) = x.0 ∷ ends xs

-- No replica wrote more than `m` bytes.
abbrev pub AllAtMost : Results → ℤ → Type 0
AllAtMost [] m = Unit {0}
AllAtMost ((succeeded, w) ∷ xs) m = AtMost w m × AllAtMost xs m
AllAtMost ((v, w) ∷ xs) m = AllAtMost xs m

-- Some replica wrote `m` bytes.
abbrev pub Reached : Results → ℤ → Type 0
Reached [] m = ⊥
Reached ((succeeded, w) ∷ xs) m = (m ≡ w) ⊎ Reached xs m
Reached ((v, w) ∷ xs) m = Reached xs m

pub Reached-zero :
    (xs : Results) → AllAtMost xs (pos 0) → 0 < succ_cnt (ends xs) → Reached xs (pos 0)
unfolding succ_cnt
Reached-zero [] a h = absurd (omega arith)
Reached-zero ((skipped, w) ∷ xs) a h = Reached-zero xs a h
Reached-zero ((failed e, w) ∷ xs) a h = Reached-zero xs a h
Reached-zero ((succeeded, pos n) ∷ xs) a h = inl (ap pos (omega (arith, a.0)))
Reached-zero ((succeeded, negsuc n) ∷ xs) a h = absurd a.0

-- The next w_max.
abbrev pub grown : Visit → ℤ → ℤ → ℤ
grown v x w = elim v [ succeeded ↦ max_ℤ x w | _ ↦ w ]

pub grown-nonnegative :
    (v : Visit) (x w : ℤ)
    → (v ≡ succeeded → is_negative x ≡ false)
    → is_negative w ≡ false
    → is_negative (grown v x w) ≡ false
grown-nonnegative skipped x w h k = k
grown-nonnegative (failed e) x w h k = k
grown-nonnegative succeeded x w h k = elim (max_lem x w (h refl) k).2 [
  | inl e ↦ ap is_negative e ∙ h refl
  | inr e ↦ ap is_negative e ∙ k
]

-- `m` is the largest of `w` and what the replicas wrote.
abbrev pub Peak : Results → ℤ → ℤ → Type 0
Peak xs w m = AtMost w m × AllAtMost xs m × ((m ≡ w) ⊎ Reached xs m)

pub Peak-grown :
    (v : Visit) (x w m : ℤ) (xs : Results)
    → (v ≡ succeeded → is_negative x ≡ false)
    → is_negative w ≡ false
    → Peak xs (grown v x w) m
    → Peak ((v, x) ∷ xs) w m
Peak-grown skipped x w m xs h k p = p
Peak-grown (failed e) x w m xs h k p = p
Peak-grown succeeded x w m xs h k p =
    let l = max_lem x w (h refl) k in
    (
      AtMost-trans w (max_ℤ x w) m l.1 p.0,
      (AtMost-trans x (max_ℤ x w) m l.0 p.0, p.1),
      elim p.2 [
        | inl e ↦ elim l.2 [ inl a ↦ inr (inl (e ∙ a)) | inr b ↦ inl (e ∙ b) ]
        | inr r ↦ inr (inr r)
      ],
    )
