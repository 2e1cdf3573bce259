-- ===== src/Mount/Ending.antt =====
-- How the loop of do_mount over the replicas ends.
use mathlib.Core.Path.{subst}
use chironfs.Base.{
  ℕ, suc, ◌+◌, ◌<◌, ◌^◌, pos, is_nonzero, not, ◌||◌, Bool, true, false, Option, some, List, [], ◌∷◌,
  ◌≡◌, refl, sym, ap, ◌∙◌, ◌⊎◌, inl, inr, arith, Bool-cases, length, set, length-set, if◌then◌else◌,
}
use chironfs.Model.{Bytes, Replica, Config, Kernel, State, call, realpath}
use chironfs.Log.{log}
use chironfs.Policy.Laws.{log_frame}
use chironfs.Scan.Total.{get_elem?-lt}
use chironfs.Mount.{Mounting, exited, ready, is_low, path_of, set_path, split_replicas, put_config}
use chironfs.Mount.Tables.{Filling, Filling-Sane, all_enabled-get, all_enabled-set}
use chironfs.Invariant.{Sane}
use chironfs.Mount.Entering.{set_priority-Filling}

-- Some token is of high priority.
abbrev pub any_high : List Bytes → Bool
any_high [] = false
any_high (t ∷ ts) = not (is_low t) || any_high ts

Filling-path :
    (n k i : ℕ) (r : Replica) (c : Config)
    → Filling n k c
    → r.disabled ≡ false
    → Filling n k (record c { replicas = set c.replicas i r })
Filling-path n k i r c f on = record {
  count = f.count;
  replicas = length-set c.replicas i r ∙ f.replicas;
  high_size = f.high_size;
  low_size = f.low_size;
  entered = f.entered;
  high_in = f.high_in;
  low_in = f.low_in;
  high_curr = f.high_curr;
  low_curr = f.low_curr;
  table = record {
    slots = f.table.slots;
    some_slot = f.table.some_slot;
    numbered = f.table.numbered;
  };
  spread = record {
    high_distinct = f.spread.high_distinct;
    low_distinct = f.spread.low_distinct;
    apart = f.spread.apart;
  };
  enabled = all_enabled-set c.replicas i r f.enabled on;
  closed = f.closed;
}

module _ {W : Type 0} where
  -- A mount that is ready has `n` replicas, and a configuration as the requests need it.
  abbrev pub Fits : ℕ → Mounting W → Type 0
  Fits n (exited e t) = Unit {0}
  Fits n (ready t) = (t.config.max_replica ≡ n) × Sane t.config

  abbrev pub Ended : ℕ → Option (Mounting W) → Type 0
  Ended n o = (m : Mounting W) × (o ≡ some m) × Fits n m

module _ {W : Type 0} (sys : Kernel W) where
  set_path-Filling :
      (n k i : ℕ) (p : Bytes) (s : State W)
      → Filling n k s.config
      → i < n
      → (t : State W) × (set_path sys i p s ≡ some t)
        × Filling n k t.config
        × (t.config.max_replica_high ≡ s.config.max_replica_high)
  unfolding set_path
  set_path-Filling n k i p s f h =
      let (r, g) = get_elem?-lt s.config.replicas i (omega (arith, f.replicas)) in
      let c : Config = record (s.config) {
        replicas = set s.config.replicas i (record r { path = some p; pathlen = length p });
      } in
      let text = if r.priority then "Replica priority low" else "Replica priority high" in
      let l = (log_frame text (some p) (pos 0) (put_config sys c s)).0 in
      (
        log text (some p) (pos 0) (put_config sys c s),
        rw g refl,
        subst (Filling n k) (sym l)
            (Filling-path n k i _ s.config f (all_enabled-get s.config.replicas i r f.enabled g)),
        ap (λ q. q.max_replica_high) l,
      )

  pub split_total :
      (n : ℕ)
      → n < 2 ^ 31
      → (ts : List Bytes) (k : ℕ) (s : State W) → Filling n k s.config
      → k + length ts ≡ n
      → (0 < s.config.max_replica_high) ⊎ (any_high ts ≡ true)
      → Ended n (split_replicas sys ts k s)
  unfolding split_replicas call
  split_total n b [] k s f e h =
      let high : 0 < s.config.max_replica_high = elim h [ inl p ↦ p | inr z ↦ cc ] in
      let g = subst (λ j. Filling n j s.config) (omega arith) f in
      (ready s, refl, (f.count, Filling-Sane n s.config g high b))
  split_total n b (t ∷ ts) k s f e h =
      let (c, q, g, up) = set_priority-Filling n k t s.config f (omega arith) b in
      let (p, u) = call sys (realpath (path_of t)) (put_config sys c s) in
      elim (Bool-cases (is_nonzero p.ret)) [
        | inl y ↦
            let (v, w, x, z) = set_path-Filling n (suc k) k p.stored u g (omega arith) in
            let ih = split_total n b ts (suc k) v x (omega arith) (elim h [
              | inl a ↦ inl (omega (arith, z, up (inl a)))
              | inr a ↦ elim (Bool-cases (is_low t)) [
                | inl lo ↦ inr (ground arith)
                | inr hi ↦ inl (omega (arith, z, up (inr hi)))
              ]
            ]) in
            (ih.0, simp (q, y, w) ih.1, ih.2)
        | inr o ↦ (exited (pos p.errno) u, simp (q, o), tt)
      ]
