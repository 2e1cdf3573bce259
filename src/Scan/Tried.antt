-- ===== src/Scan/Tried.antt =====
-- A run of tries in which no replica serves the request leaves an error for each one that was tried.
use mathlib.Core.Path.{subst}
use chironfs.Base.{
  ℕ, zero, suc, ◌<◌, ℤ, pos, is_nonzero, true, none, List, [], ◌∷◌, ◌≡◌, ◌≢◌, ◌⊎◌, inl, inr, arith,
  length, get_or, set, length-set,
}
use chironfs.Choose.Cover.{Occurs}
use chironfs.Scan.{Attempt, passed, missed, served, Scanned}
use chironfs.Scan.Reference.{walk, after, walk-cons}

abbrev pub IsError : List ℤ → ℕ → Type 0
IsError es j = is_nonzero (get_or es j (pos 0)) ≡ true

IsError-set :
    (es : List ℤ) (i j : ℕ) (e : ℤ)
    → is_nonzero e ≡ true
    → j < length es
    → IsError es j ⊎ (i ≡ j)
    → IsError (set es i e) j
IsError-set [] i j e n h o = absurd (omega arith)
IsError-set (x ∷ es) zero zero e n h o = n
IsError-set (x ∷ es) zero (suc j) e n h (inl o) = o
IsError-set (x ∷ es) zero (suc j) e n h (inr o) = absurd (omega arith)
IsError-set (x ∷ es) (suc i) zero e n h (inl o) = o
IsError-set (x ∷ es) (suc i) zero e n h (inr o) = absurd (omega arith)
IsError-set (x ∷ es) (suc i) (suc j) e n h (inl o) = IsError-set es i j e n (omega arith) (inl o)
IsError-set (x ∷ es) (suc i) (suc j) e n h (inr o) =
    IsError-set es i j e n (omega arith) (inr (omega arith))

module _ {W : Type 0} (step : ℕ → W → Attempt × W) (j : ℕ) where
  -- The replica `j` is not passed over, and a failure leaves an error.
  abbrev pub Tries : ℕ → Attempt → Type 0
  Tries i passed = i ≢ j
  Tries i (missed e) = is_nonzero e ≡ true
  Tries i (served x) = Unit {0}

  abbrev IsTried : Scanned × W → Type 0
  IsTried out = out.0.reply ≡ none → IsError out.0.err_list j

  after-IsError :
      (i : ℕ) (order : List ℕ) (acc : Scanned) (v : W) (a : Attempt)
      → Tries i a
      → ((acc' : Scanned)
          → j < length acc'.err_list
          → IsError acc'.err_list j ⊎ Occurs j order
          → IsTried (walk step order acc' v))
      → j < length acc.err_list
      → IsError acc.err_list j ⊎ Occurs j (i ∷ order)
      → IsTried (after step i order acc a v)
  after-IsError i order acc v passed t ih h (inl e) = ih acc h (inl e)
  after-IsError i order acc v passed t ih h (inr (inl e)) = absurd (t e)
  after-IsError i order acc v passed t ih h (inr (inr o)) = ih acc h (inr o)
  after-IsError i order acc v (missed e) t ih h o =
      let acc' : Scanned = record acc {
        err_list = set acc.err_list i e;
        fail_cnt = suc acc.fail_cnt;
      } in
      ih acc' (omega (arith, length-set acc.err_list i e)) (still o)
    where
      still :
          IsError acc.err_list j ⊎ Occurs j (i ∷ order)
          → IsError (set acc.err_list i e) j ⊎ Occurs j order
      still (inl x) = inl (IsError-set acc.err_list i j e t h (inl x))
      still (inr (inl x)) = inl (IsError-set acc.err_list i j e t h (inr x))
      still (inr (inr x)) = inr x
  after-IsError i order acc v (served x) t ih h o = λ z. cc

  pub walk-IsError :
      ((i : ℕ) (w : W) → Tries i (step i w).0)
      → (order : List ℕ) (acc : Scanned) (w : W) → j < length acc.err_list
      → IsError acc.err_list j ⊎ Occurs j order
      → IsTried (walk step order acc w)
  walk-IsError t [] acc w h (inl e) = λ z. e
  walk-IsError t [] acc w h (inr o) = absurd o
  walk-IsError t (i ∷ order) acc w h o = subst IsTried (walk-cons step i order acc w) (
      after-IsError i order acc (step i w).1 (step i w).0 (t i w)
        (λ acc' h' o'. walk-IsError t order acc' (step i w).1 h' o') h o)
