-- ===== src/Mount/Startup.antt =====
-- What do_mount does before its loop over the replicas.
use mathlib.Core.Path.{subst}
use chironfs.Base.{
  zero, suc, ℕ, ◌+◌, ◌≤◌, ◌<◌, ◌^◌, ℤ, is_nonzero, true, Option, none, List, ◌≡◌, refl, sym, ap,
  ◌∙◌, ◌⊎◌, inl, inr, arith, Bool-cases, length, replicate, length-replicate, ltb, ltb→lt,
}
use chironfs.Model.{Bytes, Config, Cred, Kernel, Reply, State, call, calloc, getrlimit, setrlimit}
use chironfs.Mount.{
  Mounting, exited, allocated, mount_tables, read_limit, raise_limit, rlim_cur, rlim_max,
  put_config, no_replica,
}
use chironfs.Mount.Tables.{Filling, all_enabled}
use chironfs.Mount.Ending.{any_high, Ended, split_total}

-- The configuration with which main starts.
pub record Fresh (c : Config) : Type 0 where
  pub no_high : c.max_replica_high ≡ 0
  pub no_low : c.max_replica_low ≡ 0
  pub high_start : c.curr_replica_high ≡ 0
  pub low_start : c.curr_replica_low ≡ 0
  pub one : c.fd_buf_size ≡ 1

-- The configuration with its tables, before the loop over the replicas.
abbrev emptied : ℕ → ℕ → Config → Config
emptied size n c = record c {
  fd_buf_size = size;
  tab_fd = replicate size none;
  replicas = replicate n no_replica;
  round_robin_high = replicate n 0;
  round_robin_low = replicate n 0;
}

all_enabled-replicate : (n : ℕ) → all_enabled (replicate n no_replica) ≡ true
all_enabled-replicate zero = refl
all_enabled-replicate (suc n) = all_enabled-replicate n

Filling-emptied :
    (size n : ℕ) (c : Config)
    → Fresh c
    → c.max_replica ≡ n
    → 0 < size
    → size ≤ 2 ^ 31
    → Filling n 0 (emptied size n c)
Filling-emptied size n c f m p b = record {
  count = m;
  replicas = length-replicate n no_replica;
  high_size = length-replicate n 0;
  low_size = length-replicate n 0;
  entered = omega (arith, f.no_high, f.no_low);
  high_in = λ i h. absurd (omega (arith, f.no_high));
  low_in = λ i h. absurd (omega (arith, f.no_low));
  high_curr = omega (arith, f.high_start);
  low_curr = omega (arith, f.low_start);
  table = record { slots = length-replicate size none; some_slot = p; numbered = b };
  spread = record {
    high_distinct = λ i j p q e. absurd (omega (arith, f.no_high));
    low_distinct = λ i j p q e. absurd (omega (arith, f.no_low));
    apart = λ i j p q e. absurd (omega (arith, f.no_high));
  };
  enabled = all_enabled-replicate n;
  closed = refl;
}

-- getrlimit reports room for six files and one for each of `n` replicas, and less than 2^31 files.
pub record Roomy {W : Type 0} (sys : Kernel W) (n : ℕ) : Type 0 where
  pub room : (k : Cred) (w : W) → 6 + n ≤ rlim_cur (sys k getrlimit w).0
  pub soft : (k : Cred) (w : W) → rlim_cur (sys k getrlimit w).0 < 2 ^ 31
  pub hard : (k : Cred) (w : W) → rlim_max (sys k getrlimit w).0 < 2 ^ 31

module _ {W : Type 0} (sys : Kernel W) where
  allocated_total :
      (n i size : ℕ) (code : ℕ → ℤ) (next : State W → Option (Mounting W)) (s : State W)
      → ((u : State W) → u.config ≡ s.config → Ended n (next u))
      → Ended n (allocated sys i size code next s)
  unfolding allocated call
  allocated_total n i size code next s h =
      let (p, u) = call sys (calloc i size) s in
      elim (Bool-cases (is_nonzero p.ret)) [
        | inl y ↦ rw y (h u refl)
        | inr z ↦ (exited (code p.errno) u, rw z refl, tt)
      ]

  pub mount_tables_total :
      (ts : List Bytes) (size : ℕ) (s : State W)
      → Fresh s.config
      → 0 < size
      → size ≤ 2 ^ 31
      → s.config.max_replica < 2 ^ 31
      → length ts ≡ s.config.max_replica
      → any_high ts ≡ true
      → Ended s.config.max_replica (mount_tables sys ts size s)
  unfolding mount_tables
  mount_tables_total ts size s f p b l e h =
      let n = s.config.max_replica in
      allocated_total n size 8 _ _ s (λ u1 e1. allocated_total n n 40 _ _ u1 (λ u2 e2.
        allocated_total n n 4 _ _ u2 (λ u3 e3. allocated_total n n 4 _ _ u3 (λ u4 e4.
          let eq = e4 ∙ e3 ∙ e2 ∙ e1 in
          split_total sys n l ts 0 (put_config sys (emptied size n u4.config) u4)
            (Filling-emptied size n u4.config (subst Fresh (sym eq) f)
              (ap (λ (c : Config). c.max_replica) eq) p b)
            (omega (arith, e)) (inr h)))))

  -- What is known of the limit that do_mount works with.
  abbrev pub LimitOf : ℕ → ℕ ⊎ ℕ → Type 0
  LimitOf n (inl e) = Unit {0}
  LimitOf n (inr cur) = (6 + n ≤ cur) × (cur < 2 ^ 31)

  raise_limit_lem :
      (n : ℕ) (r : Reply) (s : State W)
      → Roomy sys n
      → 6 + n ≤ rlim_cur r
      → rlim_cur r < 2 ^ 31
      → rlim_max r < 2 ^ 31
      → let out = raise_limit sys r s in (out.1.config ≡ s.config) × LimitOf n out.0
  unfolding raise_limit call
  raise_limit_lem n r s room a b c =
      let (q, s1) = call sys (setrlimit (rlim_max r) (rlim_max r)) s in
      let (g, s2) = call sys getrlimit s1 in
      elim (Bool-cases (ltb (rlim_cur r) (rlim_max r))) [
        | inl raised ↦ elim (Bool-cases (is_nonzero q.ret)) [
          | inl y ↦
              rw (raised, y) (refl, (omega (arith, ltb→lt (rlim_cur r) (rlim_max r) raised), c))
          | inr z ↦ elim (Bool-cases (is_nonzero g.ret)) [
            | inl y ↦ rw (raised, z, y) (refl, tt)
            | inr x ↦
                rw (raised, z, x) (refl, (room.room s1.cred s1.world, room.soft s1.cred s1.world))
          ]
        ]
        | inr same ↦ rw same (refl, (a, b))
      ]

  pub read_limit_lem :
      (n : ℕ) (s : State W)
      → Roomy sys n
      → let out = read_limit sys s in (out.1.config ≡ s.config) × LimitOf n out.0
  unfolding read_limit call
  read_limit_lem n s room =
      let (r, u) = call sys getrlimit s in
      elim (Bool-cases (is_nonzero r.ret)) [
        | inl y ↦ rw y (refl, tt)
        | inr z ↦ rw z (
            raise_limit_lem n r u room (room.room s.cred s.world) (room.soft s.cred s.world)
              (room.hard s.cred s.world))
      ]
