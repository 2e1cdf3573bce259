-- ===== src/Choose/Spread.antt =====
-- Tables in which no replica stands twice: two tries of a run never name the same one.
use native.Mathlib.Nat.{div-add-mod, mod-lt}
use native.Mathlib.Decide.{dec_lt}
use chironfs.Base.{ℕ, ◌+◌, ◌-◌, ◌*◌, ◌/◌, ◌%◌, ◌≤◌, ◌<◌, ◌≡◌, ◌≢◌, sym, ap, ◌∙◌, arith, get_or}
use chironfs.Model.{Config}
use chironfs.Choose.Valid.{ChoiceFits, turned, chosen}

pub record Spread (c : Config) : Type 0 where
  pub high_distinct :
      (i j : ℕ)
      → i < c.max_replica_high
      → j < c.max_replica_high
      → get_or c.round_robin_high i 0 ≡ get_or c.round_robin_high j 0
      → i ≡ j
  pub low_distinct :
      (i j : ℕ)
      → i < c.max_replica_low
      → j < c.max_replica_low
      → get_or c.round_robin_low i 0 ≡ get_or c.round_robin_low j 0
      → i ≡ j
  pub apart :
      (i j : ℕ)
      → i < c.max_replica_high
      → j < c.max_replica_low
      → get_or c.round_robin_high i 0 ≢ get_or c.round_robin_low j 0

next_multiple : (n a b : ℕ) → a < b → n * a + n ≤ n * b
next_multiple n a b h = grind arith

same_quotient : (n q p r t u k : ℕ) → n * q + r ≡ k + t → n * p + r ≡ k + u → t < n → u < n → t ≡ u
same_quotient n q p r t u k x y ht hu = elim (dec_lt q p) [
  | yes l ↦ absurd (omega (arith, next_multiple n q p l))
  | no l ↦ elim (dec_lt p q) [
    | yes m ↦ absurd (omega (arith, next_multiple n p q m))
    | no m ↦ let same : q ≡ p = omega arith in omega (arith, ap (λ z. n * z) same)
  ]
]

-- Two places in one round are different.
mod_distinct : (n k t u : ℕ) → t < n → u < n → (k + t) % n ≡ (k + u) % n → t ≡ u
mod_distinct n k t u ht hu e =
    same_quotient n ((k + t) / n) ((k + u) / n) ((k + t) % n) t u k (div-add-mod (k + t) n)
      (ap (λ r. n * ((k + u) / n) + r) e ∙ div-add-mod (k + u) n) ht hu

-- Where a try looks.
pub chosen_high :
    (t : ℕ) (c : Config)
    → t < c.max_replica_high
    → chosen t c ≡ get_or c.round_robin_high ((c.curr_replica_high + t) % c.max_replica_high) 0
chosen_high t c h = ground arith

pub chosen_low :
    (t : ℕ) (c : Config)
    → c.max_replica_high ≤ t
    → chosen t c
      ≡ get_or c.round_robin_low
          ((c.curr_replica_low + (t - c.max_replica_high)) % c.max_replica_low)
          0
chosen_low t c h = ground arith

-- Two tries of one run that name the same replica are the same try.
pub chosen_distinct :
    (c : Config) (t u : ℕ)
    → ChoiceFits c
    → Spread c
    → t < c.max_replica
    → u < c.max_replica
    → chosen t c ≡ chosen u c
    → t ≡ u
chosen_distinct c t u f sp ht hu e =
    let hi = c.max_replica_high in
    let lo = c.max_replica_low in
    elim (dec_lt t hi) [
      | yes a ↦ elim (dec_lt u hi) [
        | yes b ↦ mod_distinct hi c.curr_replica_high t u a b (
            sp.high_distinct _ _ (mod-lt (c.curr_replica_high + t) {m = hi} f.some_high)
              (mod-lt (c.curr_replica_high + u) {m = hi} f.some_high)
              (sym (chosen_high t c a) ∙ e ∙ chosen_high u c b))
        | no b ↦
            let p : 0 < lo = omega (arith, f.split) in
            absurd (
              sp.apart _ _ (mod-lt (c.curr_replica_high + t) {m = hi} f.some_high)
                (mod-lt (c.curr_replica_low + (u - hi)) {m = lo} p)
                (sym (chosen_high t c a) ∙ e ∙ chosen_low u c (omega arith)))
      ]
      | no a ↦
          let p : 0 < lo = omega (arith, f.split) in
          elim (dec_lt u hi) [
            | yes b ↦ absurd (
                sp.apart _ _ (mod-lt (c.curr_replica_high + u) {m = hi} f.some_high)
                  (mod-lt (c.curr_replica_low + (t - hi)) {m = lo} p)
                  (sym (chosen_high u c b) ∙ sym e ∙ chosen_low t c (omega arith)))
            | no b ↦
                let same : t - hi ≡ u - hi =
                  mod_distinct lo c.curr_replica_low (t - hi) (u - hi) (omega (arith, f.split))
                    (omega (arith, f.split))
                    (sp.low_distinct _ _ (mod-lt (c.curr_replica_low + (t - hi)) {m = lo} p)
                      (mod-lt (c.curr_replica_low + (u - hi)) {m = lo} p)
                      (sym (chosen_low t c (omega arith)) ∙ e ∙ chosen_low u c (omega arith))) in
                omega arith
          ]
    ]

-- Starting a try does not move the tries before it.
pub chosen-turned : (c : Config) (t u : ℕ) → u < t → chosen u (turned t c) ≡ chosen u c
chosen-turned c t u h = ground arith
