-- ===== src/Choose/Order.antt =====
-- In which order a run of tries goes through the replicas.
use mathlib.Core.List.{Perm}
use Prim.Native.Nat.add
use chironfs.Base.{
  ℕ, zero, suc, ◌+◌, ◌-◌, ◌%◌, ◌<◌, some, List, ◌∷◌, ◌++◌, ◌≡◌, ◌≢◌, refl, ap, ap₂, ◌∙◌, arith,
}
use chironfs.Model.{Config}
use chironfs.Choose.Rounds.{slice, around, round-perm}
use chironfs.Choose.{choose_replica, choices}
use chironfs.Choose.Valid.{ChoiceFits, turned, chosen, choose_replica_lem}

module _ (c : Config) where
  -- The replicas of one priority in the order of their tries, after the counter has moved on.
  abbrev pub high_order : List ℕ
  high_order =
      around c.round_robin_high c.max_replica_high ((c.curr_replica_high + 1) % c.max_replica_high)
        0 c.max_replica_high

  abbrev pub low_order : List ℕ
  low_order =
      around c.round_robin_low c.max_replica_low ((c.curr_replica_low + 1) % c.max_replica_low) 0
        c.max_replica_low

choices_step :
    (n try x : ℕ) (c c1 c2 : Config) (l : List ℕ)
    → choose_replica try c ≡ some (x, c1)
    → choices n (try + 1) c1 ≡ some (l, c2)
    → choices (suc n) try c ≡ some (x ∷ l, c2)
unfolding choices
choices_step n try x c c1 c2 l p q = rw (p, q)

-- A try that is neither the first nor the first of low priority leaves the counters alone.
turned_same : (try : ℕ) (c : Config) → try ≢ 0 → try ≢ c.max_replica_high → turned try c ≡ c
turned_same try c a b = ground arith

choose_same :
    (try : ℕ) (c : Config)
    → ChoiceFits c
    → try < c.max_replica
    → try ≢ 0
    → try ≢ c.max_replica_high
    → choose_replica try c ≡ some (chosen try c, c)
choose_same try c v h a b =
    choose_replica_lem try c v h
    ∙ ap (λ (d : Config). some (chosen try d, d)) (turned_same try c a b)

low_choices :
    (n try : ℕ) (c : Config)
    → ChoiceFits c
    → c.max_replica_high < try
    → try + n ≡ c.max_replica
    → choices n try c
      ≡ some (
        around c.round_robin_low c.max_replica_low c.curr_replica_low (try - c.max_replica_high) n,
        c,
      )
unfolding choices
low_choices zero try c v h e = refl
low_choices (suc n) try c v h e =
    choices_step n try _ c c c _
      (choose_same try c v (omega arith) (omega arith) (omega arith)
        ∙ ap (λ x. some (x, c)) (ground arith))
      (low_choices n (try + 1) c v (omega arith) (omega arith)
        ∙ ap (λ j. some (around c.round_robin_low c.max_replica_low c.curr_replica_low j n, c))
            (omega arith))

-- The configuration after the first try of each priority.
abbrev low_turned : Config → Config
low_turned c = record c { curr_replica_low = (c.curr_replica_low + 1) % c.max_replica_low }

abbrev high_turned : Config → Config
high_turned c = record c { curr_replica_high = (c.curr_replica_high + 1) % c.max_replica_high }

low_turned-ChoiceFits :
    (c : Config) → ChoiceFits c → 0 < c.max_replica_low → ChoiceFits (low_turned c)
low_turned-ChoiceFits c v h = ground arith

high_turned-ChoiceFits : (c : Config) → ChoiceFits c → ChoiceFits (high_turned c)
high_turned-ChoiceFits c v = ground arith

turned_low : (c : Config) → ChoiceFits c → turned c.max_replica_high c ≡ low_turned c
turned_low c v = ground arith

turned_high : (c : Config) → ChoiceFits c → turned 0 c ≡ high_turned c
turned_high c v = ground arith

-- The tries of low priority, from the first of them on.
from_low :
    (n : ℕ) (c : Config)
    → ChoiceFits c
    → n ≡ c.max_replica_low
    → (c' : Config) × (choices n c.max_replica_high c ≡ some (low_order c, c'))
unfolding choices
from_low zero c v e = (c, rw (← e) refl)
from_low (suc n) c v e =
    let d : Config = low_turned c in
    let first =
      choose_replica_lem c.max_replica_high c v (omega (arith, v.split))
      ∙ ap (λ (g : Config). some (chosen c.max_replica_high g, g)) (turned_low c v) in
    (
      d,
      choices_step n c.max_replica_high _ c d d _ (first ∙ ap (λ x. some (x, d)) (ground arith)) (
            low_choices n (c.max_replica_high + 1) d (low_turned-ChoiceFits c v (omega arith))
              (omega arith) (omega (arith, v.split))
            ∙ ap (λ j. some (around c.round_robin_low c.max_replica_low d.curr_replica_low j n, d))
                (omega arith))
          ∙ ap (λ m. some (around c.round_robin_low c.max_replica_low d.curr_replica_low 0 m, d)) e,
    )

high_choices :
    (m try : ℕ) (c : Config)
    → ChoiceFits c
    → 0 < try
    → try + m ≡ c.max_replica_high
    → (c' : Config) × (choices (m + c.max_replica_low) try c
        ≡ some (
          around c.round_robin_high c.max_replica_high c.curr_replica_high try m ++ low_order c,
          c',
        ))
high_choices zero try c v h e =
    let low = from_low c.max_replica_low c v refl in
    (low.0, ap₂ (λ n t. choices n t c) (omega arith) (omega arith) ∙ low.1)
high_choices (suc m) try c v h e =
    let ih = high_choices m (try + 1) c v (omega arith) (omega arith) in
    (
      ih.0,
      rw (add.suc m c.max_replica_low) (
          choices_step (m + c.max_replica_low) try _ c c ih.0 _
            (choose_same try c v (omega arith) (omega arith) (omega arith)
              ∙ ap (λ x. some (x, c)) (ground arith))
            ih.1),
    )

all_choices :
    (m : ℕ) (c : Config)
    → ChoiceFits c
    → suc m ≡ c.max_replica_high
    → (c' : Config) × (choices (suc (m + c.max_replica_low)) 0 c
        ≡ some (high_order c ++ low_order c, c'))
all_choices m c v e =
    let d : Config = high_turned c in
    let first =
      choose_replica_lem 0 c v (omega (arith, v.split))
      ∙ ap (λ (g : Config). some (chosen 0 g, g)) (turned_high c v) in
    let rest = high_choices m 1 d (high_turned-ChoiceFits c v) (omega arith) (omega arith) in
    (
      rest.0,
      choices_step (m + c.max_replica_low) 0 _ c d rest.0 _
            (first ∙ ap (λ x. some (x, d)) (ground arith)) rest.1
          ∙ ap
              (λ n. some (
                around c.round_robin_high c.max_replica_high d.curr_replica_high 0 n ++ low_order c,
                rest.0,
              ))
              e,
    )

-- A run of `max_replica` tries goes once round the replicas of high priority, starting behind the one
-- with which the last run started, and then once round those of low priority. So it visits every
-- replica of the tables exactly once, and none of low priority before all of high priority.
pub choices-order :
    (c : Config)
    → ChoiceFits c
    → ((c' : Config) × (choices c.max_replica 0 c ≡ some (high_order c ++ low_order c, c')))
      × Perm (high_order c) (slice c.round_robin_high 0 c.max_replica_high)
      × Perm (low_order c) (slice c.round_robin_low 0 c.max_replica_low)
choices-order c v =
    let all = all_choices (c.max_replica_high - 1) c v (omega arith) in
    (
      (all.0, ap (λ n. choices n 0 c) (omega (arith, v.split)) ∙ all.1),
      round-perm c.round_robin_high c.max_replica_high c.curr_replica_high,
      round-perm c.round_robin_low c.max_replica_low c.curr_replica_low,
    )
