-- ===== src/Mount/Entering.antt =====
-- One token of the replica argument after the other, as do_mount enters them.
use chironfs.Base.{
  sym, ℕ, suc, ◌+◌, ◌<◌, ◌^◌, true, false, some, ◌≡◌, ◌∙◌, ◌⊎◌, inl, inr, arith, Bool-cases, length,
  set, length-set, lt→ltb,
}
use chironfs.Model.{Bytes, Replica, Config}
use chironfs.Hash.{u32}
use chironfs.Scan.Total.{get_elem?-lt}
use chironfs.Mount.{set_priority, is_low}
use chironfs.Mount.Joined.{u32-small}
use chironfs.Mount.Tables.{
  Filling, set_in, all_enabled-get, all_enabled-set, distinct-set, apart-set,
}

-- The configuration after the table of a priority has got a token's index.
abbrev entered_low : ℕ → Replica → Config → Config
entered_low k r c = record c {
  replicas = set c.replicas k (record r { priority = true });
  round_robin_low = set c.round_robin_low c.max_replica_low k;
  max_replica_low = u32 (c.max_replica_low + 1);
}

abbrev entered_high : ℕ → Config → Config
entered_high k c = record c {
  round_robin_high = set c.round_robin_high c.max_replica_high k;
  max_replica_high = u32 (c.max_replica_high + 1);
}

Filling-low :
    (n k : ℕ) (r : Replica) (c : Config)
    → Filling n k c
    → k < n
    → n < 2 ^ 31
    → r.disabled ≡ false
    → Filling n (suc k) (entered_low k r c)
Filling-low n k r c f h b on =
    let small = u32-small (c.max_replica_low + 1) (omega (arith, f.entered)) in
    record {
      count = f.count;
      replicas = length-set c.replicas k _ ∙ f.replicas;
      high_size = f.high_size;
      low_size = length-set c.round_robin_low c.max_replica_low k ∙ f.low_size;
      entered = omega (arith, f.entered, small);
      high_in = λ i l. omega (arith, f.high_in i l);
      low_in = λ i l.
          set_in c.round_robin_low (suc k) c.max_replica_low k (λ j l. omega (arith, f.low_in j l))
            (omega arith) (omega (arith, f.entered, f.low_size)) i (omega (arith, small));
      high_curr = f.high_curr;
      low_curr = f.low_curr;
      table = record {
        slots = f.table.slots;
        some_slot = f.table.some_slot;
        numbered = f.table.numbered;
      };
      spread = record {
        high_distinct = f.spread.high_distinct;
        low_distinct = λ i j p q.
            distinct-set c.round_robin_low c.max_replica_low k f.low_in f.spread.low_distinct
              (omega (arith, f.entered, f.low_size)) i j (omega (arith, small))
              (omega (arith, small));
        apart = λ i j p q e.
            apart-set c.round_robin_low c.round_robin_high c.max_replica_low c.max_replica_high k
              f.high_in (λ x y l m d. f.spread.apart y x m l (sym d))
              (omega (arith, f.entered, f.low_size)) j i (omega (arith, small)) p (sym e);
      };
      enabled = all_enabled-set c.replicas k (record r { priority = true }) f.enabled on;
      closed = f.closed;
    }

Filling-high :
    (n k : ℕ) (c : Config)
    → Filling n k c
    → k < n
    → n < 2 ^ 31
    → Filling n (suc k) (entered_high k c)
Filling-high n k c f h b =
    let small = u32-small (c.max_replica_high + 1) (omega (arith, f.entered)) in
    record {
      count = f.count;
      replicas = f.replicas;
      high_size = length-set c.round_robin_high c.max_replica_high k ∙ f.high_size;
      low_size = f.low_size;
      entered = omega (arith, f.entered, small);
      high_in = λ i l.
          set_in c.round_robin_high (suc k) c.max_replica_high k
            (λ j l. omega (arith, f.high_in j l)) (omega arith)
            (omega (arith, f.entered, f.high_size)) i (omega (arith, small));
      low_in = λ i l. omega (arith, f.low_in i l);
      high_curr = f.high_curr;
      low_curr = f.low_curr;
      table = record {
        slots = f.table.slots;
        some_slot = f.table.some_slot;
        numbered = f.table.numbered;
      };
      spread = record {
        high_distinct = λ i j p q.
            distinct-set c.round_robin_high c.max_replica_high k f.high_in f.spread.high_distinct
              (omega (arith, f.entered, f.high_size)) i j (omega (arith, small))
              (omega (arith, small));
        low_distinct = f.spread.low_distinct;
        apart = λ i j p q.
            apart-set c.round_robin_high c.round_robin_low c.max_replica_high c.max_replica_low k
              f.low_in f.spread.apart (omega (arith, f.entered, f.high_size)) i j
              (omega (arith, small)) q;
      };
      enabled = f.enabled;
      closed = f.closed;
    }

-- Entering a token does not fault, and after one of high priority there is one.
pub set_priority-Filling :
    (n k : ℕ) (token : Bytes) (c : Config)
    → Filling n k c
    → k < n
    → n < 2 ^ 31
    → (c' : Config) × (set_priority k token c ≡ some c')
      × Filling n (suc k) c'
      × ((0 < c.max_replica_high) ⊎ (is_low token ≡ false) → 0 < c'.max_replica_high)
unfolding set_priority
set_priority-Filling n k token c f h b =
    let (r, g) = get_elem?-lt c.replicas k (omega (arith, f.replicas)) in
    elim (Bool-cases (is_low token)) [
      | inl y ↦ (
        entered_low k r c,
        simp (
          g,
          y,
          lt→ltb c.max_replica_low (length c.round_robin_low)
              (omega (arith, f.entered, f.low_size)),
        ),
        Filling-low n k r c f h b (all_enabled-get c.replicas k r f.enabled g),
        λ q. elim q [ inl p ↦ p | inr z ↦ cc ],
      )
      | inr z ↦ (
        entered_high k c,
        simp (
          g,
          z,
          lt→ltb c.max_replica_high (length c.round_robin_high)
              (omega (arith, f.entered, f.high_size)),
        ),
        Filling-high n k c f h b,
        λ q.
            omega (arith, f.entered, u32-small (c.max_replica_high + 1) (omega (arith, f.entered))),
      )
    ]
