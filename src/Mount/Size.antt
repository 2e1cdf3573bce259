-- ===== src/Mount/Size.antt =====
-- The loop of do_mount that finds the size of the table of open files.
use chironfs.Base.{
  ℕ, zero, suc, ◌*◌, ◌/◌, ◌%◌, ◌^◌, ◌≤◌, ◌<◌, Option, none, some, ◌≡◌, refl, sym, ap, ◌∙◌, arith,
  ◌>>=◌, ◌⊎◌, inl, inr,
}
use native.Mathlib.Decide.{dec_le}
use chironfs.Mount.{grow, table_size}

-- What is left of `s` after `n` shifts by one bit, none of which overflows.
abbrev doubled : ℕ → ℕ → ℕ
doubled zero s = s
doubled (suc n) s = doubled n (s * 2)

grow_stop : (n s tmpfd : ℕ) → tmpfd < s → grow (suc n) s tmpfd ≡ some s
unfolding grow
grow_stop n s tmpfd h = ground arith

grow_step : (n s tmpfd : ℕ) → s ≤ tmpfd → grow (suc n) s tmpfd ≡ grow n (s * 2 % 2 ^ 64) tmpfd
unfolding grow
grow_step n s tmpfd h = ground arith

no_wrap : (s : ℕ) → s < 2 ^ 63 → s * 2 % 2 ^ 64 ≡ s * 2
no_wrap s h = omega arith

-- The loop ends at a power of two above `tmpfd`, where it began or not above its double.
abbrev Above : ℕ → ℕ → Option ℕ → Type 0
Above s tmpfd o =
    (j : ℕ) × (o ≡ some (2 ^ j)) × (tmpfd < 2 ^ j) × ((2 ^ j ≡ s) ⊎ (2 ^ j ≤ 2 * tmpfd))

Above-twice : (s tmpfd : ℕ) (o : Option ℕ) → s ≤ tmpfd → Above (s * 2) tmpfd o → Above s tmpfd o
Above-twice s tmpfd o h a = (a.0, a.1, a.2, inr (elim a.3 [ inl e ↦ omega arith | inr l ↦ l ]))

Above-stop : (n k s tmpfd : ℕ) → s ≡ 2 ^ k → tmpfd < s → Above s tmpfd (grow (suc n) s tmpfd)
Above-stop n k s tmpfd e h = (k, grow_stop n s tmpfd h ∙ ap some e, omega arith, inl (sym e))

grow-Above :
    (n k s tmpfd : ℕ)
    → s ≡ 2 ^ k
    → tmpfd < 2 ^ 63
    → tmpfd < doubled n s
    → Above s tmpfd (grow (suc n) s tmpfd)
grow-Above zero k s tmpfd e b d = Above-stop zero k s tmpfd e d
grow-Above (suc n) k s tmpfd e b d = elim (dec_le s tmpfd) [
  | no h ↦ Above-stop (suc n) k s tmpfd e (omega arith)
  | yes h ↦
      rw (grow_step (suc n) s tmpfd h, no_wrap s (omega arith))
        (Above-twice s tmpfd _ h (grow-Above n (suc k) (s * 2) tmpfd (omega arith) b d))
]

-- For 0 < tmpfd < 2^63 the loop of do_mount ends, and with the shift after it the size of the table
-- is the largest power of two that is not above tmpfd.
pub table_size-Greatest :
    (tmpfd : ℕ)
    → 0 < tmpfd
    → tmpfd < 2 ^ 63
    → (k : ℕ) × (table_size 1 tmpfd ≡ some (2 ^ k)) × (2 ^ k ≤ tmpfd) × (tmpfd < 2 * 2 ^ k)
unfolding table_size
table_size-Greatest tmpfd p b = halve (grow-Above 64 0 1 tmpfd refl b (omega arith))
  where
    halve :
        Above 1 tmpfd (grow 65 1 tmpfd)
        → (k : ℕ) × ((grow 65 1 tmpfd >>= λ s. some (s / 2)) ≡ some (2 ^ k))
          × (2 ^ k ≤ tmpfd)
          × (tmpfd < 2 * 2 ^ k)
    halve (zero, e, l, u) = absurd (omega arith)
    halve (suc j, e, l, u) = (
      j,
      rw e (ap some (omega arith)),
      elim u [ inl q ↦ omega arith | inr q ↦ omega arith ],
      omega arith,
    )

-- 2^63 after `j` more shifts, or nothing since the last bit was lost.
abbrev OneBit : ℕ → Type 0
OneBit s = ((j : ℕ) × (doubled j s ≡ 2 ^ 63)) ⊎ (s ≡ 0)

doubled-le : (j s : ℕ) → s ≤ doubled j s
doubled-le zero s = omega arith
doubled-le (suc j) s = omega (arith, doubled-le j (s * 2))

OneBit-le : (s : ℕ) → OneBit s → s ≤ 2 ^ 63
OneBit-le s (inl (j, e)) = omega (arith, doubled-le j s)
OneBit-le s (inr e) = omega arith

OneBit-shift : (s : ℕ) → OneBit s → OneBit (s * 2 % 2 ^ 64)
OneBit-shift s (inl (zero, e)) = inr (omega arith)
OneBit-shift s (inl (suc j, e)) = inl (j, rw (no_wrap s (omega (arith, doubled-le j (s * 2)))) e)
OneBit-shift s (inr e) = inr (omega arith)

grow_from : (n s tmpfd : ℕ) → 2 ^ 63 ≤ tmpfd → OneBit s → grow n s tmpfd ≡ none
unfolding grow
grow_from zero s tmpfd h o = refl
grow_from (suc n) s tmpfd h o =
    grow_step n s tmpfd (omega (arith, OneBit-le s o))
    ∙ grow_from n (s * 2 % 2 ^ 64) tmpfd h (OneBit-shift s o)

-- For 2^63 ≤ tmpfd the loop of do_mount does not end, whatever number of tests it is given.
pub grow_endless : (n tmpfd : ℕ) → 2 ^ 63 ≤ tmpfd → grow n 1 tmpfd ≡ none
grow_endless n tmpfd h = grow_from n 1 tmpfd h (inl (63, omega arith))
