-- ===== src/Mount/Established.antt =====
-- How do_mount ends.
use mathlib.Core.Path.{subst}
use native.Mathlib.Nat.{le-div_iff_mul-le, div-le_self}
use chironfs.Base.{
  ℕ, zero, suc, ◌+◌, ◌-◌, ◌/◌, ◌%◌, ◌≤◌, ◌<◌, ◌^◌, true, some, List, ◌∷◌, ◌≡◌, refl, sym, ap, ◌∙◌,
  ◌⊎◌, inl, inr, arith, length, pos,
}
use chironfs.Model.{Bytes, Config, Kernel, State}
use chironfs.Hash.{u32}
use chironfs.Mount.{
  exited, max_descriptors, table_size, mount_tables, mount_limited, read_limit, do_mount,
  put_config, count_separators,
}
use chironfs.Mount.Size.{table_size-Greatest}
use chironfs.Mount.Joined.{joined, plain, all_plain, count-joined, u32-small}
use chironfs.Mount.Ending.{any_high, Ended}
use chironfs.Mount.Startup.{Fresh, Roomy, LimitOf, mount_tables_total, read_limit_lem}

-- The descriptors that each replica may have open.
max_descriptors_lem :
    (cur n : ℕ)
    → 0 < n
    → 6 + n ≤ cur
    → cur < 2 ^ 31
    → (tmpfd : ℕ) × (max_descriptors cur n ≡ some tmpfd) × (0 < tmpfd) × (tmpfd < 2 ^ 31)
max_descriptors_lem cur zero p l b = absurd (omega arith)
max_descriptors_lem cur (suc m) p l b =
    let a = (cur + 2 ^ 64 - 6) % 2 ^ 64 in
    let e : a ≡ cur - 6 = omega arith in
    (
      a / suc m,
      refl,
      (le-div_iff_mul-le {k = suc m} {x = 1} {y = a} (omega arith)).1 (omega arith),
      omega (arith, div-le_self a (suc m)),
    )

module _ {W : Type 0} (sys : Kernel W) where
  mount_limited_at :
      (ts : List Bytes) (cur : ℕ) (s : State W) (tmpfd size : ℕ)
      → max_descriptors cur s.config.max_replica ≡ some tmpfd
      → table_size s.config.fd_buf_size tmpfd ≡ some size
      → mount_limited sys ts (inr cur, s) ≡ mount_tables sys ts size s
  unfolding mount_limited
  mount_limited_at ts cur s tmpfd size d g = simp (d, g)

  mount_limited_total :
      (n : ℕ) (ts : List Bytes) (out : (ℕ ⊎ ℕ) × State W)
      → LimitOf sys n out.0
      → Fresh out.1.config
      → out.1.config.max_replica ≡ n
      → 0 < n
      → n < 2 ^ 31
      → length ts ≡ n
      → any_high ts ≡ true
      → Ended n (mount_limited sys ts out)
  unfolding mount_limited
  mount_limited_total n ts (inl e, s) l f m p b q h = (exited (pos e) s, refl, tt)
  mount_limited_total n ts (inr cur, s) l f m p b q h =
      let (tmpfd, d, lo, hi) = max_descriptors_lem cur n p l.0 l.1 in
      let (k, g, below, above) = table_size-Greatest tmpfd lo (omega arith) in
      let r =
        mount_tables_total sys ts (2 ^ k) s f (omega arith) (omega arith) (omega (arith, m))
          (q ∙ sym m) h in
      subst (Ended n) (sym (mount_limited_at ts cur s tmpfd (2 ^ k) (rw m d) (rw f.one g)))
        (subst (λ j. Ended j (mount_tables sys ts (2 ^ k) s)) m r)

  -- If the replica argument joins by '=' a list of tokens without '=', one of them of high priority,
  -- if strtok takes it apart again, and if getrlimit reports at least six files and one for each
  -- replica, fewer than 2^31, then do_mount, from the configuration with which the program starts,
  -- ends: either it exits, or it leaves a configuration with one replica for each token, some of
  -- them not disabled and none twice in the tables, whose tables and counters keep every try of choose_replica
  -- inside the replicas, with a table of open files that has as many slots as it says and no file that is not
  -- usable.
  pub do_mount_total :
      (strtok : Bytes → List Bytes) (t : Bytes) (ts : List Bytes) (s : State W)
      → strtok (joined t ts) ≡ t ∷ ts
      → plain t ≡ true
      → all_plain ts ≡ true
      → any_high (t ∷ ts) ≡ true
      → suc (length ts) < 2 ^ 31
      → Fresh s.config
      → Roomy sys (suc (length ts))
      → Ended (suc (length ts)) (do_mount sys strtok (joined t ts) s)
  unfolding do_mount
  do_mount_total strtok t ts s e p q h b f room =
      let n = suc (length ts) in
      let count : u32 (count_separators 0 (joined t ts) + 1) ≡ n =
        ap (λ c. u32 (c + 1)) (count-joined t ts 0 p q (omega arith))
        ∙ u32-small (0 + length ts + 1) (omega arith)
        ∙ omega arith in
      let s0 : State W = put_config sys (record (s.config) { max_replica = n }) s in
      let l = read_limit_lem sys n s0 room in
      let fresh : Fresh s0.config = record {
        no_high = f.no_high;
        no_low = f.no_low;
        high_start = f.high_start;
        low_start = f.low_start;
        one = f.one;
      } in
      rw (e, count)
        (mount_limited_total n (t ∷ ts) (read_limit sys s0) l.1 (subst Fresh (sym l.0) fresh)
          (ap (λ (c : Config). c.max_replica) l.0) (omega arith) b refl h)
