-- ===== src/Scan/Total.antt =====
-- How the loop over the tries of a handler ends.
use native.Mathlib.Nat.{mod-lt}
use native.Mathlib.Decide.{dec_lt}
use chironfs.Base.{
  ℕ, zero, suc, ◌+◌, ◌-◌, ◌%◌, ◌<◌, Option, some, List, [], ◌∷◌, ◌≡◌, refl, ◌∙◌, arith, length,
  get_elem?, get_or, set,
}
use chironfs.Model.{Config, State}
use chironfs.Choose.{choose_replica}
use chironfs.Choose.Valid.{ChoiceFits, turned, chosen, turned-ChoiceFits, choose_replica_lem}
use chironfs.Scan.{Attempt, passed, missed, served, Scanned, scan, scan_all}

-- A configuration as do_mount leaves it: there is a replica of high priority, and the round robin
-- tables hold indices of replicas.
pub record Mounted (c : Config) : Type 0 where
  pub choice : ChoiceFits c
  pub count : length c.replicas ≡ c.max_replica
  pub high_in : (i : ℕ) → i < c.max_replica_high → get_or c.round_robin_high i 0 < c.max_replica
  pub low_in : (i : ℕ) → i < c.max_replica_low → get_or c.round_robin_low i 0 < c.max_replica

pub turned-Mounted :
    (try : ℕ) (c : Config) → Mounted c → try < c.max_replica → Mounted (turned try c)
turned-Mounted try c m h = record {
  choice = turned-ChoiceFits try c m.choice h;
  count = m.count;
  high_in = m.high_in;
  low_in = m.low_in;
}

pub chosen-lt :
    (try : ℕ) (c : Config) → Mounted c → try < c.max_replica → chosen try c < c.max_replica
chosen-lt try c m h = elim (dec_lt try c.max_replica_high) [
  | yes p ↦
      let i = (c.curr_replica_high + try) % c.max_replica_high in
      ground (
        arith,
        m.high_in i (mod-lt (c.curr_replica_high + try) {m = c.max_replica_high} (omega arith)),
      )
  | no p ↦
      let q : 0 < c.max_replica_low = omega (arith, m.choice.split) in
      let i = (c.curr_replica_low + (try - c.max_replica_high)) % c.max_replica_low in
      ground (
        arith,
        m.low_in i
            (mod-lt (c.curr_replica_low + (try - c.max_replica_high)) {m = c.max_replica_low} q),
      )
]

-- A try names a replica, and leaves the configuration mounted.
pub choose_replica-lt :
    (try : ℕ) (c : Config)
    → Mounted c
    → try < c.max_replica
    → (r : ℕ) × (c' : Config) × (choose_replica try c ≡ some (r, c'))
      × (r < c.max_replica)
      × (c'.max_replica ≡ c.max_replica)
      × Mounted c'
choose_replica-lt try c m h =
    let t = turned-Mounted try c m h in
    (
      chosen try (turned try c),
      turned try c,
      choose_replica_lem try c m.choice h,
      chosen-lt try (turned try c) t h,
      refl,
      t,
    )

pub get_elem?-lt {ℓ} :
    {A : Type ℓ} (xs : List A) (i : ℕ) → i < length xs → (x : A) × (get_elem? xs i ≡ some x)
get_elem?-lt [] i h = absurd (omega arith)
get_elem?-lt (x ∷ xs) zero h = (x, refl)
get_elem?-lt (x ∷ xs) (suc i) h = get_elem?-lt xs i (omega arith)

module _ {W : Type 0} (attempt : ℕ → State W → Option (Attempt × State W)) (n : ℕ) where
  -- An attempt at one of `n` replicas ends, and leaves the configuration mounted.
  abbrev pub Ends : Type 0
  Ends =
      (r : ℕ) (s : State W)
      → Mounted s.config
      → s.config.max_replica ≡ n
      → r < n
      → (a : Attempt) × (s' : State W) × (attempt r s ≡ some (a, s'))
        × Mounted s'.config
        × (s'.config.max_replica ≡ n)

  -- What a run of the loop from here on comes to.
  abbrev pub Done : Option (Scanned × State W) → Type 0
  Done o =
      (out : Scanned) × (s' : State W) × (o ≡ some (out, s'))
      × Mounted s'.config
      × (s'.config.max_replica ≡ n)

  -- The loop behind an attempt at replica `r`.
  abbrev pub onward : ℕ → ℕ → Scanned → ℕ → State W → Attempt → Option (Scanned × State W)
  onward k try acc r s passed = scan attempt k (try + 1) acc s
  onward k try acc r s (missed e) =
      scan attempt k (try + 1)
        (record acc { err_list = set acc.err_list r e; fail_cnt = suc acc.fail_cnt }) s
  onward k try acc r s (served x) = some (record acc { reply = some x }, s)

  pub scan-onward :
      (k try : ℕ) (acc : Scanned) (s : State W) (r : ℕ) (c : Config) (a : Attempt) (s' : State W)
      → choose_replica try s.config ≡ some (r, c)
      → attempt r (record s { config = c }) ≡ some (a, s')
      → scan attempt (suc k) try acc s ≡ onward k try acc r s' a
  unfolding scan
  scan-onward k try acc s r c passed s' p q = rw (p, q)
  scan-onward k try acc s r c (missed e) s' p q = rw (p, q)
  scan-onward k try acc s r c (served x) s' p q = rw (p, q)

  Done-onward :
      (k try : ℕ)
      → ((acc : Scanned) (s : State W)
          → Mounted s.config
          → s.config.max_replica ≡ n
          → Done (scan attempt k (try + 1) acc s))
      → (acc : Scanned) (r : ℕ) (s : State W) (a : Attempt) → Mounted s.config
      → s.config.max_replica ≡ n
      → Done (onward k try acc r s a)
  Done-onward k try ih acc r s passed m e = ih acc s m e
  Done-onward k try ih acc r s (missed x) m e = ih _ s m e
  Done-onward k try ih acc r s (served x) m e = (_, s, refl, m, e)

  -- The loop ends without a fault.
  pub scan_total :
      Ends
      → (k try : ℕ) (acc : Scanned) (s : State W) → Mounted s.config
      → s.config.max_replica ≡ n
      → try + k ≡ n
      → Done (scan attempt k try acc s)
  unfolding scan
  scan_total ends zero try acc s m e q = (acc, s, refl, m, e)
  scan_total ends (suc k) try acc s m e q =
      let ch = choose_replica-lt try s.config m (omega arith) in
      let t : State W = record s { config = ch.1 } in
      let at = ends ch.0 t ch.5 (ch.4 ∙ e) (omega (arith, ch.3)) in
      rw (scan-onward k try acc s ch.0 ch.1 at.0 at.1 ch.2 at.2) (
        Done-onward k try (λ acc' s' m' e'. scan_total ends k (try + 1) acc' s' m' e' (omega arith))
          acc ch.0 at.1 at.0 at.3 at.4)

  pub scan_all_total :
      Ends → (s : State W) → Mounted s.config → s.config.max_replica ≡ n → Done (scan_all attempt s)
  unfolding scan_all
  scan_all_total ends s m e = scan_total ends s.config.max_replica 0 _ s m e (omega arith)
