-- ===== src/Choose/Valid.antt =====
-- Where `choose_replica` is safe.
use chironfs.Base.{
  ℕ, zero, suc, ◌+◌, ◌-◌, ◌%◌, ◌^◌, ◌≤◌, ◌<◌, ◌==◌, none, some, ◌≡◌, refl, arith, length,
  if◌then◌else◌, ltb, get_or, get_elem?-get_or,
}
use native.Mathlib.Decide.{dec_lt}
use chironfs.Model.{Config}
use chironfs.Hash.{u32}
use chironfs.Choose.{rem, advance_high, advance_low, pick, choose_replica}

-- The tables hold the replicas of their priority, there is one of high priority, and the numbers are
-- small enough for `int`.
pub record ChoiceFits (c : Config) : Type 0 where
  pub split : c.max_replica ≡ c.max_replica_high + c.max_replica_low
  pub some_high : 0 < c.max_replica_high
  pub small : c.max_replica < 2 ^ 31
  pub high_table : c.max_replica_high ≤ length c.round_robin_high
  pub low_table : c.max_replica_low ≤ length c.round_robin_low
  pub high_curr : c.curr_replica_high < 2 ^ 31
  pub low_curr : c.curr_replica_low < 2 ^ 31

pub rem-some : (a n : ℕ) → 0 < n → rem a n ≡ some (a % n)
rem-some a zero h = absurd (omega arith)
rem-some a (suc n) h = refl

-- With no replica of high priority every first try divides by zero.
pub choose_replica_all_low : (c : Config) → c.max_replica_high ≡ 0 → choose_replica 0 c ≡ none
unfolding choose_replica advance_high
choose_replica_all_low c h = ground arith

-- The counters after the start of a try.
abbrev pub turned : ℕ → Config → Config
turned try c = record c {
  curr_replica_high =
      if try == 0 then (c.curr_replica_high + 1) % c.max_replica_high else c.curr_replica_high;
  curr_replica_low =
      if try == c.max_replica_high
      then (c.curr_replica_low + 1) % c.max_replica_low
      else c.curr_replica_low;
}

-- The replica of a try, by the counters.
abbrev pub chosen : ℕ → Config → ℕ
chosen try c =
    if ltb try c.max_replica_high
    then get_or c.round_robin_high ((c.curr_replica_high + try) % c.max_replica_high) 0
    else get_or c.round_robin_low
        ((c.curr_replica_low + (try - c.max_replica_high)) % c.max_replica_low) 0

abbrev high_turned : ℕ → Config → Config
high_turned try c = record c {
  curr_replica_high =
      if try == 0 then (c.curr_replica_high + 1) % c.max_replica_high else c.curr_replica_high;
}

advance_high_lem :
    (try : ℕ) (c : Config)
    → ChoiceFits c
    → advance_high try c
      ≡ some (record c {
        curr_replica_high =
            if try == 0
            then (c.curr_replica_high + 1) % c.max_replica_high
            else c.curr_replica_high;
      })
unfolding advance_high
advance_high_lem try c v =
    ground (arith, rem-some (u32 (c.curr_replica_high + 1)) c.max_replica_high)

advance_low_lem :
    (try : ℕ) (c : Config)
    → try < c.max_replica_high + c.max_replica_low
    → c.curr_replica_low < 2 ^ 31
    → advance_low try c
      ≡ some (record c {
        curr_replica_low =
            if try == c.max_replica_high
            then (c.curr_replica_low + 1) % c.max_replica_low
            else c.curr_replica_low;
      })
unfolding advance_low
advance_low_lem try c h b =
    ground (arith, rem-some (u32 (c.curr_replica_low + 1)) c.max_replica_low)

high_pick :
    (try : ℕ) (c : Config)
    → ChoiceFits c
    → try < c.max_replica_high
    → pick try c ≡ some (chosen try c)
unfolding pick
high_pick try c v h = ground (
  arith,
  rem-some (u32 (c.curr_replica_high + try)) c.max_replica_high,
  get_elem?-get_or c.round_robin_high ((c.curr_replica_high + try) % c.max_replica_high) 0,
)

low_index :
    (curr try high : ℕ)
    → curr < 2 ^ 31
    → high ≤ try
    → try < 2 ^ 31
    → u32 (curr + try + 2 ^ 32 - high) ≡ curr + (try - high)
low_index curr try high a b d = omega arith

low_pick :
    (try : ℕ) (c : Config)
    → ChoiceFits c
    → c.max_replica_high ≤ try
    → try < c.max_replica
    → pick try c ≡ some (chosen try c)
unfolding pick
low_pick try c v h k = ground (
  arith,
  low_index c.curr_replica_low try c.max_replica_high,
  rem-some (c.curr_replica_low + (try - c.max_replica_high)) c.max_replica_low,
  get_elem?-get_or c.round_robin_low
      ((c.curr_replica_low + (try - c.max_replica_high)) % c.max_replica_low) 0,
)

pick_lem :
    (try : ℕ) (c : Config) → ChoiceFits c → try < c.max_replica → pick try c ≡ some (chosen try c)
pick_lem try c v h = elim (dec_lt try c.max_replica_high) [
  | yes p ↦ high_pick try c v p
  | no p ↦ low_pick try c v (omega arith) h
]

pub turned-ChoiceFits :
    (try : ℕ) (c : Config) → ChoiceFits c → try < c.max_replica → ChoiceFits (turned try c)
turned-ChoiceFits try c v h = ground arith

-- With a replica of high priority a try below their number never faults: it moves the counters on,
-- reads the replica at the counter of its priority, and leaves the configuration fit for the next.
pub choose_replica_lem :
    (try : ℕ) (c : Config)
    → ChoiceFits c
    → try < c.max_replica
    → choose_replica try c ≡ some (chosen try (turned try c), turned try c)
unfolding choose_replica
choose_replica_lem try c v h = rw (advance_high_lem try c v) (
    rw (advance_low_lem try (high_turned try c) (omega (arith, v.split)) v.low_curr)
      (rw (pick_lem try (turned try c) (turned-ChoiceFits try c v h) h)))
