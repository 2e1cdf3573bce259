-- ===== src/Mount/Tables.antt =====
-- What the tokens of the replica argument make of the configuration.
use chironfs.Base.{
  ℕ, zero, suc, ◌+◌, ◌≤◌, ◌<◌, ◌^◌, not, ◌&&◌, Bool, true, List, [], ◌∷◌, ◌≡◌, ◌≢◌, refl, sym, ap,
  ◌∙◌, ◌⊎◌, inl, inr, arith, length, get_or, set,
}
use chironfs.Model.{Config}
use chironfs.Scan.Total.{Mounted}
use chironfs.FdTable.Slots.{TableFits}
use chironfs.Mirror.Survivor.{any_enabled}
use chironfs.Choose.Spread.{Spread}
use chironfs.Invariant.{Sane}
use mathlib.Core.Option.{some-injective}
use chironfs.Base.{false, none, some, get_elem?, replicate, ℤ}
use chironfs.Model.{Replica, FdTable}

abbrev pub all_enabled : List Replica → Bool
all_enabled [] = true
all_enabled (r ∷ rs) = not r.disabled && all_enabled rs

pub all_enabled-get :
    (rs : List Replica) (i : ℕ) (r : Replica)
    → all_enabled rs ≡ true
    → get_elem? rs i ≡ some r
    → r.disabled ≡ false
all_enabled-get [] i r h g = cc
all_enabled-get (x ∷ rs) zero r h g =
    ap (λ (y : Replica). y.disabled) (sym (some-injective x r g)) ∙ ground arith
all_enabled-get (x ∷ rs) (suc i) r h g = all_enabled-get rs i r (ground arith) g

pub all_enabled-set :
    (rs : List Replica) (i : ℕ) (r : Replica)
    → all_enabled rs ≡ true
    → r.disabled ≡ false
    → all_enabled (set rs i r) ≡ true
all_enabled-set [] i r h d = refl
all_enabled-set (x ∷ rs) zero r h d = ground arith
all_enabled-set (x ∷ rs) (suc i) r h d = ground (arith, all_enabled-set rs i r)

any_enabled-all :
    (rs : List Replica) → all_enabled rs ≡ true → 0 < length rs → any_enabled rs ≡ true
any_enabled-all [] h l = absurd (omega arith)
any_enabled-all (r ∷ rs) h l = ground arith

none_open : (size i : ℕ) (fds : List ℤ) → get_elem? (replicate size none) i ≡ some (some fds) → ⊥
none_open zero i fds g = cc
none_open (suc size) zero fds g = cc
none_open (suc size) (suc i) fds g = none_open size i fds g

-- The configuration with `k` of its `n` replicas entered.
pub record Filling (n k : ℕ) (c : Config) : Type 0 where
  pub count : c.max_replica ≡ n
  pub replicas : length c.replicas ≡ n
  pub high_size : length c.round_robin_high ≡ n
  pub low_size : length c.round_robin_low ≡ n
  pub entered : c.max_replica_high + c.max_replica_low ≡ k
  pub high_in : (i : ℕ) → i < c.max_replica_high → get_or c.round_robin_high i 0 < k
  pub low_in : (i : ℕ) → i < c.max_replica_low → get_or c.round_robin_low i 0 < k
  pub high_curr : c.curr_replica_high < 2 ^ 31
  pub low_curr : c.curr_replica_low < 2 ^ 31
  pub table : TableFits c
  pub spread : Spread c
  pub enabled : all_enabled c.replicas ≡ true
  pub closed : c.tab_fd ≡ replicate c.fd_buf_size none

-- With all replicas entered and one of them of high priority it is as the handlers need it.
pub Filling-Mounted :
    (n : ℕ) (c : Config) → Filling n n c → 0 < c.max_replica_high → n < 2 ^ 31 → Mounted c
Filling-Mounted n c f h b = record {
  choice = record {
    split = f.count ∙ sym f.entered;
    some_high = h;
    small = omega (arith, f.count);
    high_table = omega (arith, f.high_size, f.entered);
    low_table = omega (arith, f.low_size, f.entered);
    high_curr = f.high_curr;
    low_curr = f.low_curr;
  };
  count = f.replicas ∙ sym f.count;
  high_in = λ i l. omega (arith, f.high_in i l, f.count);
  low_in = λ i l. omega (arith, f.low_in i l, f.count);
}

get_or-set :
    (xs : List ℕ) (m j v : ℕ)
    → (get_or (set xs m v) j 0 ≡ v)
      ⊎ ((get_or (set xs m v) j 0 ≡ get_or xs j 0) × ((j ≢ m) ⊎ (length xs ≤ m)))
get_or-set [] m j v = inr (refl, inr (omega arith))
get_or-set (x ∷ xs) zero zero v = inl refl
get_or-set (x ∷ xs) zero (suc j) v = inr (refl, inl (omega arith))
get_or-set (x ∷ xs) (suc m) zero v = inr (refl, inl (omega arith))
get_or-set (x ∷ xs) (suc m) (suc j) v = elim (get_or-set xs m j v) [
  | inl e ↦ inl e
  | inr (e, inl d) ↦ inr (e, inl (omega arith))
  | inr (e, inr d) ↦ inr (e, inr (omega arith))
]

-- A table that held indices below `n` still does with one more.
pub set_in :
    (xs : List ℕ) (n m v : ℕ)
    → ((i : ℕ) → i < m → get_or xs i 0 < n)
    → v < n
    → m < length xs
    → (i : ℕ) → i < suc m
    → get_or (set xs m v) i 0 < n
set_in xs n m v old h l i b = elim (get_or-set xs m i v) [
  | inl e ↦ omega arith
  | inr (e, inl d) ↦ omega (arith, old i (omega arith))
  | inr (e, inr d) ↦ absurd (omega arith)
]

-- An entry of a table after the next one has been set.
set_at :
    (xs : List ℕ) (m j v : ℕ)
    → m < length xs
    → j < suc m
    → ((j ≡ m) × (get_or (set xs m v) j 0 ≡ v))
      ⊎ ((j < m) × (get_or (set xs m v) j 0 ≡ get_or xs j 0))
set_at [] m j v h l = absurd (omega arith)
set_at (x ∷ xs) zero zero v h l = inl (refl, refl)
set_at (x ∷ xs) zero (suc j) v h l = absurd (omega arith)
set_at (x ∷ xs) (suc m) zero v h l = inr (omega arith, refl)
set_at (x ∷ xs) (suc m) (suc j) v h l = elim (set_at xs m j v (omega arith) (omega arith)) [
  | inl (e, f) ↦ inl (ap suc e, f)
  | inr (e, f) ↦ inr (omega arith, f)
]

-- A table without repetition stays one with an index that is new.
pub distinct-set :
    (xs : List ℕ) (m v : ℕ)
    → ((i : ℕ) → i < m → get_or xs i 0 < v)
    → ((i j : ℕ) → i < m → j < m → get_or xs i 0 ≡ get_or xs j 0 → i ≡ j)
    → m < length xs
    → (i j : ℕ) → i < suc m
    → j < suc m
    → get_or (set xs m v) i 0 ≡ get_or (set xs m v) j 0
    → i ≡ j
distinct-set xs m v small old h i j a b e = elim (set_at xs m i v h a) [
  | inl (p, p') ↦ elim (set_at xs m j v h b) [
    | inl (q, q') ↦ omega arith
    | inr (q, q') ↦ absurd (omega (arith, small j q))
  ]
  | inr (p, p') ↦ elim (set_at xs m j v h b) [
    | inl (q, q') ↦ absurd (omega (arith, small i p))
    | inr (q, q') ↦ old i j p q (omega arith)
  ]
]

-- Nor is the new index in another table of smaller ones.
pub apart-set :
    (xs ys : List ℕ) (m n v : ℕ)
    → ((j : ℕ) → j < n → get_or ys j 0 < v)
    → ((i j : ℕ) → i < m → j < n → get_or xs i 0 ≢ get_or ys j 0)
    → m < length xs
    → (i j : ℕ) → i < suc m
    → j < n
    → get_or (set xs m v) i 0 ≢ get_or ys j 0
apart-set xs ys m n v small old h i j a b e = elim (set_at xs m i v h a) [
  | inl (p, q) ↦ omega (arith, small j b)
  | inr (p, q) ↦ old i j p b (omega arith)
]

-- And no file is open.
pub Filling-Sane :
    (n : ℕ) (c : Config) → Filling n n c → 0 < c.max_replica_high → n < 2 ^ 31 → Sane c
Filling-Sane n c f h b = record {
  able = record {
    mounted = Filling-Mounted n c f h b;
    spread = f.spread;
    alive = any_enabled-all c.replicas f.enabled (omega (arith, f.replicas, f.entered));
  };
  table = f.table;
  files = λ i fds g.
      absurd
        (none_open c.fd_buf_size i fds (ap (λ (t : FdTable). get_elem? t i) (sym f.closed) ∙ g));
}
