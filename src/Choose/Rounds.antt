-- ===== src/Choose/Rounds.antt =====
-- Entries of a table read round its end.
use native.Mathlib.Nat.{mod-eq_of_lt, mod-eq-sub-mod, mod-lt}
use mathlib.Core.List.{Perm, perm_append_comm}
use mathlib.Core.List.Perm
use mathlib.Core.Path.{subst}
use Prim.Native.Nat.add
use chironfs.Base.{
  ℕ, zero, suc, ◌+◌, ◌-◌, ◌%◌, ◌≤◌, List, [], ◌∷◌, ◌++◌, ◌≡◌, refl, sym, ap, ap₂, ◌∙◌, arith,
  get_or,
}

split_sum : (n k : ℕ) → k ≤ n → n ≡ n - k + k
split_sum n k h = omega arith

perm_of_eq : {xs ys : List ℕ} → xs ≡ ys → Perm xs ys
perm_of_eq {xs} e = subst (Perm xs) e (Perm.refl xs)

module _ (xs : List ℕ) where
  -- `count` entries from index `i` on.
  abbrev pub slice : ℕ → ℕ → List ℕ
  slice i zero = []
  slice i (suc count) = get_or xs i 0 ∷ slice (i + 1) count

  -- `count` entries of the first `n`, going round at `n`, from index `k + t` on.
  abbrev pub around : ℕ → ℕ → ℕ → ℕ → List ℕ
  around n k t zero = []
  around n k t (suc count) = get_or xs ((k + t) % n) 0 ∷ around n k (t + 1) count

  slice_split : (i a b : ℕ) → slice i (a + b) ≡ slice i a ++ slice (i + a) b
  slice_split i zero b = ap₂ slice (omega arith) (omega arith)
  slice_split i (suc a) b = rw (add.suc a b) (
      ap (λ l. get_or xs i 0 ∷ l)
        (slice_split (i + 1) a b ∙ ap (λ j. slice (i + 1) a ++ slice j b) (omega arith)))

  around_split : (n k t a b : ℕ) → around n k t (a + b) ≡ around n k t a ++ around n k (t + a) b
  around_split n k t zero b = ap₂ (around n k) (omega arith) (omega arith)
  around_split n k t (suc a) b = rw (add.suc a b) (
      ap (λ l. get_or xs ((k + t) % n) 0 ∷ l)
        (around_split n k (t + 1) a b
          ∙ ap (λ j. around n k (t + 1) a ++ around n k j b) (omega arith)))

  around_before : (n k t a : ℕ) → k + t + a ≤ n → around n k t a ≡ slice (k + t) a
  around_before n k t zero h = refl
  around_before n k t (suc a) h =
      ap₂ (λ i l. get_or xs i 0 ∷ l) (mod-eq_of_lt (omega arith))
        (around_before n k (t + 1) a (omega arith) ∙ ap (λ j. slice j a) (omega arith))

  around_after :
      (n k t a : ℕ) → n ≤ k + t → k + t + a ≤ n + n → around n k t a ≡ slice (k + t - n) a
  around_after n k t zero h g = refl
  around_after n k t (suc a) h g =
      ap₂ (λ i l. get_or xs i 0 ∷ l)
        (mod-eq-sub-mod {n = k + t} {m = n} h ∙ mod-eq_of_lt (omega arith))
        (around_after n k (t + 1) a (omega arith) (omega arith) ∙ ap (λ j. slice j a) (omega arith))

  -- One round is a rotation of the first `n` entries.
  pub around_rotates : (n k : ℕ) → k ≤ n → around n k 0 n ≡ slice k (n - k) ++ slice 0 k
  around_rotates n k h =
      ap (around n k 0) (split_sum n k h)
      ∙ around_split n k 0 (n - k) k
      ∙ ap₂ ◌++◌
          (around_before n k 0 (n - k) (omega arith) ∙ ap (λ j. slice j (n - k)) (omega arith))
          (around_after n k (0 + (n - k)) k (omega arith) (omega arith)
            ∙ ap (λ j. slice j k) (omega arith))

  pub around-perm : (n k : ℕ) → k ≤ n → Perm (around n k 0 n) (slice 0 n)
  around-perm n k h = rw (around_rotates n k h) (
      Perm.trans (perm_append_comm (slice k (n - k)) (slice 0 k)) (
        perm_of_eq (
          ap (λ j. slice 0 k ++ slice j (n - k)) (omega arith)
          ∙ sym (slice_split 0 k (n - k))
          ∙ ap (slice 0) (omega arith))))

-- A whole round visits every entry once, wherever it starts.
pub round-perm : (xs : List ℕ) (n curr : ℕ) → Perm (around xs n ((curr + 1) % n) 0 n) (slice xs 0 n)
round-perm xs zero curr = Perm.refl []
round-perm xs (suc n) curr =
    around-perm xs (suc n) ((curr + 1) % suc n)
      (omega (arith, mod-lt (curr + 1) {m = suc n} (omega arith)))
