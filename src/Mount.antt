-- ===== src/Mount.antt =====
-- src/conf.c: do_mount. `print_err` and `dump_config` only print, and are left out.
pub mod Size
pub mod Joined
pub mod Tables
pub mod Entering
pub mod Ending
pub mod Startup
pub mod Established
pub mod Owner
use chironfs.Base.{
  ℕ, zero, suc, ◌+◌, ◌-◌, ◌*◌, ◌/◌, ◌%◌, ◌^◌, ℤ, pos, negsuc, neg, is_nonzero, Bool, true, false,
  ◌==◌, ltb, leb, Option, none, some, List, [], ◌∷◌, ◌>>=◌, if◌then◌else◌, get_elem?, get_or, set,
  replicate, length, ◌⊎◌, inl, inr,
}
use chironfs.Model.{
  Bytes, Replica, Config, calloc, getrlimit, setrlimit, realpath, Reply, Kernel, State, call,
}
use chironfs.Hash.{u32}
use chironfs.Log.{log}

-- for (i = 0; t[i]; t[i] == '=' ? i++ : *t++), on the text from t[i] on.
unfoldable pub count_separators : ℕ → Bytes → ℕ
count_separators i [] = i
count_separators i (x ∷ t) = count_separators (if x == 61 then u32 (i + 1) else i) t

-- while (fd_buf_size <= tmpfd) fd_buf_size <<= 1, for at most `n` tests: where it ends.
unfoldable pub grow : ℕ → ℕ → ℕ → Option ℕ
grow zero fd_buf_size tmpfd = none
grow (suc n) fd_buf_size tmpfd =
    let rest = grow n (fd_buf_size * 2 % 2 ^ 64) tmpfd in
    if leb fd_buf_size tmpfd then rest else some fd_buf_size

-- The loop and the shift after it. No run of it that ends makes more than 65 tests.
unfoldable pub table_size : ℕ → ℕ → Option ℕ
table_size fd_buf_size tmpfd = do size ← grow 65 fd_buf_size tmpfd; some (size / 2)

-- tmpfd = (tmpfd - 6) / config.max_replica, in an unsigned long; none for a division by zero.
abbrev pub max_descriptors : ℕ → ℕ → Option ℕ
max_descriptors rlim_cur zero = none
max_descriptors rlim_cur (suc n) = some ((rlim_cur + 2 ^ 64 - 6) % 2 ^ 64 / suc n)

-- calloc of the replicas, and the loop that fills them.
abbrev pub no_replica : Replica
no_replica = record {
  path = none;
  totrd = 0;
  totwr = 0;
  pathlen = 0;
  disabled = false;
  priority = false;
}

-- A token is of low priority if it begins with a colon, which is not part of its path.
abbrev pub is_low : Bytes → Bool
is_low [] = false
is_low (x ∷ xs) = x == 58

abbrev pub path_of : Bytes → Bytes
path_of [] = []
path_of (x ∷ xs) = if x == 58 then xs else x ∷ xs

-- config.replicas[i] and the tables, with the priority of a token; none outside an array.
unfoldable pub set_priority : ℕ → Bytes → Config → Option Config
set_priority i token c = do
  r ← get_elem? c.replicas i
  let low : Config = record c {
    replicas = set c.replicas i (record r { priority = true });
    round_robin_low = set c.round_robin_low c.max_replica_low i;
    max_replica_low = u32 (c.max_replica_low + 1);
  }
  let high : Config = record c {
    round_robin_high = set c.round_robin_high c.max_replica_high i;
    max_replica_high = u32 (c.max_replica_high + 1);
  }
  if is_low token
      then (if ltb c.max_replica_low (length c.round_robin_low) then some low else none)
      else (if ltb c.max_replica_high (length c.round_robin_high) then some high else none)

-- How do_mount ends: by exit, or by `return 0`.
pub data Mounting (W : Type 0) : Type 0 where
  exited : ℤ → State W → Mounting W
  ready : State W → Mounting W

-- The limits that getrlimit stored.
abbrev pub rlim_cur : Reply → ℕ
rlim_cur r = get_or r.stored 0 0

abbrev pub rlim_max : Reply → ℕ
rlim_max r = get_or r.stored 1 0

module _ {W : Type 0} (sys : Kernel W) where
  abbrev pub put_config : Config → State W → State W
  put_config c s = record s { config = c }

  -- From the first limits on: the errno for exit, or rlp.rlim_cur.
  unfoldable pub raise_limit : Reply → State W → (ℕ ⊎ ℕ) × State W
  raise_limit r s =
      let (q, s1) = call sys (setrlimit (rlim_max r) (rlim_max r)) s in
      let (g, s2) = call sys getrlimit s1 in
      if ltb (rlim_cur r) (rlim_max r)
      then (if is_nonzero q.ret
          then (inr (rlim_max r), s1)
          else if is_nonzero g.ret
          then (inl g.errno, s2)
          else (inr (rlim_cur g), s2))
      else (inr (rlim_cur r), s)

  unfoldable pub read_limit : State W → (ℕ ⊎ ℕ) × State W
  read_limit s =
      let (r, s') = call sys getrlimit s in
      let out = raise_limit r s' in if is_nonzero r.ret then (inl r.errno, s') else out

  -- A calloc, and what follows it; without memory, exit with a code.
  unfoldable pub allocated :
      ℕ → ℕ → (ℕ → ℤ) → (State W → Option (Mounting W)) → State W → Option (Mounting W)
  allocated n size code next s =
      let (p, s') = call sys (calloc n size) s in
      let rest = next s' in if is_nonzero p.ret then rest else some (exited (code p.errno) s')

  -- The path of replica `i` from realpath, with its line in the log.
  unfoldable pub set_path : ℕ → Bytes → State W → Option (State W)
  set_path i path s = do
    r ← get_elem? s.config.replicas i
    let c : Config = record (s.config) {
      replicas = set s.config.replicas i (record r { path = some path; pathlen = length path });
    }
    let text = if r.priority then "Replica priority low" else "Replica priority high"
    some (log text (some path) (pos 0) (put_config c s))

  -- The loop over the tokens, from token `i` on.
  unfoldable pub split_replicas : List Bytes → ℕ → State W → Option (Mounting W)
  split_replicas [] i s = some (ready s)
  split_replicas (token ∷ ts) i s = do
    c ← set_priority i token s.config
    let (p, s1) = call sys (realpath (path_of token)) (put_config c s)
    if is_nonzero p.ret
        then (set_path i p.stored s1 >>= split_replicas ts (suc i))
        else some (exited (pos p.errno) s1)

  -- From the size of the table on.
  unfoldable pub mount_tables : List Bytes → ℕ → State W → Option (Mounting W)
  mount_tables tokens size s =
      let n = s.config.max_replica in
      let code : ℕ → ℤ = pos in
      allocated size 8 (λ e. negsuc 0)
        (λ s1.
          allocated n 40 code
            (λ s2.
              allocated n 4 code
                (λ s3.
                  allocated n 4 code
                    (λ s4. split_replicas tokens 0 (
                      put_config
                        (record (s4.config) {
                          fd_buf_size = size;
                          tab_fd = replicate size none;
                          replicas = replicate n no_replica;
                          round_robin_high = replicate n 0;
                          round_robin_low = replicate n 0;
                        })
                        s4))
                    s3)
                s2)
            s1)
        s

  -- do_mount from the limit on.
  unfoldable pub mount_limited : List Bytes → (ℕ ⊎ ℕ) × State W → Option (Mounting W)
  mount_limited tokens (inl e, s) = some (exited (pos e) s)
  mount_limited tokens (inr cur, s) = do
    tmpfd ← max_descriptors cur s.config.max_replica
    size ← table_size s.config.fd_buf_size tmpfd
    mount_tables tokens size s

  -- do_mount, with the tokens that the calls of strtok return one after the other; none for a fault
  -- and for a loop that does not end.
  unfoldable pub do_mount : (Bytes → List Bytes) → Bytes → State W → Option (Mounting W)
  do_mount strtok filesystems s =
      let n = u32 (count_separators 0 filesystems + 1) in
      mount_limited (strtok filesystems)
        (read_limit (put_config (record (s.config) { max_replica = n }) s))
