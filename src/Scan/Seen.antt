-- ===== src/Scan/Seen.antt =====
-- Which replicas have failed so far in a run of tries.
use chironfs.Base.{
  ℕ, zero, suc, ◌+◌, ◌<◌, ℤ, pos, is_nonzero, Bool, true, false, List, [], ◌∷◌, ◌≡◌, refl, sym, ap,
  ◌∙◌, ◌⊎◌, inl, inr, arith, Bool-cases, get_or, set,
}
use chironfs.Model.{Config}
use chironfs.Choose.Valid.{turned, chosen, turned-ChoiceFits}
use chironfs.Choose.Spread.{Spread, chosen_distinct, chosen-turned}
use chironfs.Scan.Total.{Mounted}

-- Where `es` has an error some try before `t` has been.
abbrev pub Seen : ℕ → Config → List ℤ → Type 0
Seen t c es =
    (j : ℕ) → is_nonzero (get_or es j (pos 0)) ≡ true → (u : ℕ) × (u < t) × (chosen u c ≡ j)

get_or-set_ℤ :
    (es : List ℤ) (m j : ℕ) (v : ℤ)
    → (m ≡ j) ⊎ (get_or (set es m v) j (pos 0) ≡ get_or es j (pos 0))
get_or-set_ℤ [] m j v = inr refl
get_or-set_ℤ (x ∷ es) zero zero v = inl refl
get_or-set_ℤ (x ∷ es) zero (suc j) v = inr refl
get_or-set_ℤ (x ∷ es) (suc m) zero v = inr refl
get_or-set_ℤ (x ∷ es) (suc m) (suc j) v = elim (get_or-set_ℤ es m j v) [
  | inl e ↦ inl (ap suc e)
  | inr e ↦ inr e
]

pub Seen-turned : (t : ℕ) (c : Config) (es : List ℤ) → Seen t c es → Seen (t + 1) (turned t c) es
Seen-turned t c es h j e = let (u, l, k) = h j e in (u, omega arith, chosen-turned c t u l ∙ k)

pub Seen-missed :
    (t : ℕ) (c : Config) (es : List ℤ) (e : ℤ)
    → Seen t c es
    → Seen (t + 1) (turned t c) (set es (chosen t (turned t c)) e)
Seen-missed t c es e h j ne = elim (get_or-set_ℤ es (chosen t (turned t c)) j e) [
  | inl same ↦ (t, omega arith, same)
  | inr old ↦ Seen-turned t c es h j (sym (ap is_nonzero old) ∙ ne)
]

pub turned-Spread : (t : ℕ) (c : Config) → Spread c → Spread (turned t c)
turned-Spread t c sp = record {
  high_distinct = sp.high_distinct;
  low_distinct = sp.low_distinct;
  apart = sp.apart;
}

-- The replica of a try that has not been made has no error.
pub unseen :
    (t : ℕ) (c : Config) (es : List ℤ)
    → Mounted c
    → Spread c
    → t < c.max_replica
    → Seen t c es
    → is_nonzero (get_or es (chosen t (turned t c)) (pos 0)) ≡ false
unseen t c es m sp l h =
    let r = chosen t (turned t c) in
    elim (Bool-cases (is_nonzero (get_or es r (pos 0)))) [
      | inr off ↦ off
      | inl on ↦
          let (u, before, e) = h r on in
          let same : u ≡ t =
            chosen_distinct (turned t c) u t (turned-ChoiceFits t c m.choice l)
              (turned-Spread t c sp) (omega arith) l (chosen-turned c t u before ∙ e) in
          absurd (omega arith)
    ]

pub clash : (b : Bool) → b ≡ true → b ≡ false → ⊥
clash b p q = cc
