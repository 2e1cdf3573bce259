-- ===== src/Choose/Cover.antt =====
-- No replica is left out of a run of tries.
use chironfs.Scan.Total.{Mounted, chosen-lt}
use chironfs.Choose.Spread.{Spread, chosen_distinct, chosen_high, chosen_low}
use chironfs.Choose.Order.{high_order, low_order}
use chironfs.Choose.Rounds.{around}
use mathlib.Core.Path.{subst}
use native.Mathlib.Decide.{dec_lt}
use native.Mathlib.Nat.{mod-lt}
use chironfs.Base.{
  ℕ, zero, suc, ◌+◌, ◌-◌, ◌%◌, ◌<◌, ◌==◌, List, [], ◌∷◌, ◌++◌, ◌≡◌, ◌≢◌, sym, ap, ◌∙◌, ◌⊎◌, inl,
  inr, arith, Bool-cases, get_or, if◌then◌else◌, ◌^◌,
}
use chironfs.Model.{Config}
use chironfs.Choose.Valid.{ChoiceFits, chosen}

-- If `n` numbers below `n` are all different, then each number below `n` is one of them.
abbrev Below : ℕ → (ℕ → ℕ) → Type 0
Below n f = (t : ℕ) → t < n → f t < n

abbrev Distinct : ℕ → (ℕ → ℕ) → Type 0
Distinct n f = (t u : ℕ) → t < n → u < n → f t ≡ f u → t ≡ u

-- The value `n` is replaced by the last one.
abbrev without : ℕ → (ℕ → ℕ) → ℕ → ℕ
without n f t = if f t == n then f n else f t

last_other : (n t : ℕ) (f : ℕ → ℕ) → Distinct (suc n) f → t < n → f t ≢ f n
last_other n t f d h e = let same = d t n (omega arith) (omega arith) e in omega arith

without-Below : (n : ℕ) (f : ℕ → ℕ) → Below (suc n) f → Distinct (suc n) f → Below n (without n f)
without-Below n f b d t h =
    let x = b t (omega arith) in
    let y = b n (omega arith) in let z = last_other n t f d h in ground arith

without-Distinct : (n : ℕ) (f : ℕ → ℕ) → Distinct (suc n) f → Distinct n (without n f)
without-Distinct n f d t u h k e =
    let y = last_other n t f d h in
    let z = last_other n u f d k in
    let same : f t ≡ f u = ground arith in d t u (omega arith) (omega arith) same

-- So all of them are there.
pub reaches :
    (n : ℕ) (f : ℕ → ℕ) → Below n f → Distinct n f → (j : ℕ) → j < n → (t : ℕ) × (t < n) × (f t ≡ j)
reaches zero f b d j h = absurd (omega arith)
reaches (suc n) f b d j h =
    let rest = reaches n (without n f) (without-Below n f b d) (without-Distinct n f d) in
    let y = b n (omega arith) in
    elim (Bool-cases (f n == j)) [
      | inl e ↦ (n, omega arith, ground arith)
      | inr e ↦ elim (Bool-cases (j == n)) [
        | inl last ↦
            let (t, l, g) = rest (f n) (ground arith) in
            let z = last_other n t f d l in (t, omega arith, ground arith)
        | inr low ↦ let (t, l, g) = rest j (ground arith) in (t, omega arith, ground arith)
      ]
    ]

abbrev pub Occurs : ℕ → List ℕ → Type 0
Occurs j [] = ⊥
Occurs j (x ∷ xs) = (x ≡ j) ⊎ Occurs j xs

Occurs-append_left : (j : ℕ) (xs ys : List ℕ) → Occurs j xs → Occurs j (xs ++ ys)
Occurs-append_left j [] ys o = absurd o
Occurs-append_left j (x ∷ xs) ys (inl e) = inl e
Occurs-append_left j (x ∷ xs) ys (inr o) = inr (Occurs-append_left j xs ys o)

Occurs-append_right : (j : ℕ) (xs ys : List ℕ) → Occurs j ys → Occurs j (xs ++ ys)
Occurs-append_right j [] ys o = o
Occurs-append_right j (x ∷ xs) ys o = inr (Occurs-append_right j xs ys o)

Occurs-around :
    (xs : List ℕ) (n k s count t : ℕ)
    → t < count
    → Occurs (get_or xs ((k + (s + t)) % n) 0) (around xs n k s count)
Occurs-around xs n k s zero t h = absurd (omega arith)
Occurs-around xs n k s (suc count) zero h = inl (ap (λ i. get_or xs (i % n) 0) (omega arith))
Occurs-around xs n k s (suc count) (suc t) h = inr (
    subst (λ i. Occurs (get_or xs (i % n) 0) (around xs n k (s + 1) count)) (omega arith)
      (Occurs-around xs n k (s + 1) count t (omega arith)))

Occurs-round :
    (xs : List ℕ) (n k t : ℕ) → t < n → Occurs (get_or xs ((k + t) % n) 0) (around xs n k 0 n)
Occurs-round xs n k t h =
    subst (λ i. Occurs (get_or xs (i % n) 0) (around xs n k 0 n)) (omega arith)
      (Occurs-around xs n k 0 n t h)

-- The counter of low priority as a run of tries advances it.
abbrev next_low : Config → ℕ
next_low c = if c.max_replica_low == 0 then 0 else (c.curr_replica_low + 1) % c.max_replica_low

abbrev advanced : Config → Config
advanced c = record c {
  curr_replica_high = (c.curr_replica_high + 1) % c.max_replica_high;
  curr_replica_low = next_low c;
}

next_low-lt : (c : Config) → ChoiceFits c → next_low c < 2 ^ 31
next_low-lt c v = elim (Bool-cases (c.max_replica_low == 0)) [
  | inl e ↦ ground arith
  | inr e ↦
      let l = mod-lt (c.curr_replica_low + 1) {m = c.max_replica_low} (ground arith) in
      let big : c.max_replica_low < 2 ^ 31 = omega (arith, v.split, v.small) in ground arith
]

advanced-Mounted : (c : Config) → Mounted c → Mounted (advanced c)
advanced-Mounted c m = record {
  choice = record {
    split = m.choice.split;
    some_high = m.choice.some_high;
    small = m.choice.small;
    high_table = m.choice.high_table;
    low_table = m.choice.low_table;
    high_curr =
        let l = mod-lt (c.curr_replica_high + 1) {m = c.max_replica_high} m.choice.some_high in
        omega (arith, m.choice.split, m.choice.small);
    low_curr = next_low-lt c m.choice;
  };
  count = m.count;
  high_in = m.high_in;
  low_in = m.low_in;
}

advanced-Spread : (c : Config) → Spread c → Spread (advanced c)
advanced-Spread c sp = record {
  high_distinct = sp.high_distinct;
  low_distinct = sp.low_distinct;
  apart = sp.apart;
}

-- Every replica is tried in each run of tries.
pub order_of-Occurs :
    (c : Config) (j : ℕ)
    → Mounted c
    → Spread c
    → j < c.max_replica
    → Occurs j (high_order c ++ low_order c)
order_of-Occurs c j m sp h =
    let d = advanced c in
    let m' = advanced-Mounted c m in
    let (t, l, e) =
      reaches c.max_replica (λ t. chosen t d) (λ t k. chosen-lt t d m' k)
        (λ t u k k'. chosen_distinct d t u m'.choice (advanced-Spread c sp) k k') j h in
    elim (dec_lt t c.max_replica_high) [
      | yes p ↦ Occurs-append_left j (high_order c) (low_order c) (
          subst (λ x. Occurs x (high_order c)) (sym (chosen_high t d p) ∙ e)
            (Occurs-round c.round_robin_high c.max_replica_high
              ((c.curr_replica_high + 1) % c.max_replica_high) t p))
      | no p ↦
          let u = t - c.max_replica_high in
          let lo = c.max_replica_low in
          let k : u < lo = omega (arith, m.choice.split) in
          let at : get_or c.round_robin_low ((next_low c + u) % lo) 0 ≡ j =
            sym (chosen_low t d (omega arith)) ∙ e in
          let same : next_low c ≡ (c.curr_replica_low + 1) % lo = ground arith in
          Occurs-append_right j (high_order c) (low_order c) (
            subst (λ x. Occurs x (low_order c)) at
              (subst (λ b. Occurs (get_or c.round_robin_low ((b + u) % lo) 0) (low_order c))
                (sym same) (Occurs-round c.round_robin_low lo ((c.curr_replica_low + 1) % lo) u k)))
    ]
