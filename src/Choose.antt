-- ===== src/Choose.antt =====
-- src/fs.c: `choose_replica`, which spreads the reads over the replicas.
pub mod Valid
pub mod Rounds
pub mod Order
pub mod Spread
pub mod Cover
use Prim.Native.Nat.{zero, suc}
use chironfs.Base.{
  ℕ, ◌+◌, ◌-◌, ◌%◌, ◌^◌, Bool, ◌==◌, Option, none, some, List, [], ◌∷◌, ◌>>=◌, if◌then◌else◌, ltb,
  get_elem?,
}
use chironfs.Model.{Config}
use chironfs.Hash.{u32}

-- a % n, which faults at n = 0.
abbrev pub rem : ℕ → ℕ → Option ℕ
rem a zero = none
rem a (suc n) = some (a % suc n)

-- if (!try) config.curr_replica_high = …
unfoldable pub advance_high : ℕ → Config → Option Config
advance_high try c =
    if try == 0
    then (rem (u32 (c.curr_replica_high + 1)) c.max_replica_high >>= λ curr.
        some (record c { curr_replica_high = curr }))
    else some c

-- if (try == config.max_replica_high) config.curr_replica_low = …
unfoldable pub advance_low : ℕ → Config → Option Config
advance_low try c =
    if try == c.max_replica_high
    then (rem (u32 (c.curr_replica_low + 1)) c.max_replica_low >>= λ curr.
        some (record c { curr_replica_low = curr }))
    else some c

-- The replica that is read from the table of its priority.
unfoldable pub pick : ℕ → Config → Option ℕ
pick try c =
    if ltb try c.max_replica_high
    then (rem (u32 (c.curr_replica_high + try)) c.max_replica_high >>= λ i.
        get_elem? c.round_robin_high i)
    else (rem (u32 (c.curr_replica_low + try + 2 ^ 32 - c.max_replica_high)) c.max_replica_low
        >>= λ i. get_elem? c.round_robin_low i)

-- `choose_replica`: the replica, and the configuration with the counters moved on.
unfoldable pub choose_replica : ℕ → Config → Option (ℕ × Config)
choose_replica try c = do
  c1 ← advance_high try c
  c2 ← advance_low try c1
  replica ← pick try c2
  some (replica, c2)

-- The replicas of `n` tries in a row, from `try` on.
unfoldable pub choices : ℕ → ℕ → Config → Option (List ℕ × Config)
choices zero try c = some ([], c)
choices (suc n) try c = do
  (replica, c1) ← choose_replica try c
  (rest, c2) ← choices n (try + 1) c1
  some (replica ∷ rest, c2)
