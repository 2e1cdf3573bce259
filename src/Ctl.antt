-- ===== src/Ctl.antt =====
-- src/ctl.c: chironctl, which asks the control server for its replicas. It runs as one user on a
-- world of its own. Where it prints an error and calls exit(EXIT_FAILURE) its functions are none.
pub mod Asking
pub mod Script
pub mod Exchange
use chironfs.Base.{
  ℕ, zero, suc, ◌+◌, ◌*◌, ◌-◌, ◌^◌, ℤ, pos, negsuc, is_nonzero, is_minus_one, Bool, ltb, Option,
  none, some, List, [], ◌∷◌, ◌>>=◌, if◌then◌else◌,
}
use chironfs.Model.{Bytes, Cred, Call, Reply, Kernel, malloc, read_fd, write_fd, socket, connect}
use chironfs.FdTable.{to_int}
use chironfs.Control.{sun_path}
use chironfs.Wire.{
  bytes_of, number_of, is_count, get_replica_status, get_replica_path, get_replica_total_read,
  get_replica_total_write, get_replica_priority,
}
use chironfs.Wire

-- What main has of a replica when it prints it: the bytes read of its path, whether it is disabled and of low
-- priority, and the two counters as %lld takes them. The printing itself is not modelled: %s of the path
-- goes on from these bytes to the next NUL in memory, since get_path puts none behind them.
pub record Shown : Type 0 where
  pub path : Bytes
  pub disabled : Bool
  pub low : Bool
  pub read : ℤ
  pub written : ℤ

-- %lld of an unsigned long long.
abbrev pub long_long : ℕ → ℤ
long_long n = if ltb n (2 ^ 63) then pos n else negsuc (2 ^ 64 - 1 - n)

module _ {W : Type 0} (sys : Kernel W) (me : Cred) where
  -- Writes the bytes, and exits unless all were written.
  unfoldable pub put : ℤ → Bytes → ℕ → W → Option W
  put fd b n w =
      let (res, w') = sys me (write_fd fd (some b) n) w in
      if is_count n res.ret then some w' else none

  -- Reads `n` bytes, and exits unless it gets them all.
  unfoldable pub get : ℤ → ℕ → W → Option (Bytes × W)
  get fd n w =
      let (res, w') = sys me (read_fd fd n) w in
      if is_count n res.ret then some (res.stored, w') else none

  -- What the functions below share: the action, the number of a replica, and the reply.
  unfoldable pub ask : ℕ → ℤ → ℕ → ℕ → W → Option (Bytes × W)
  ask code fd replica size w = do
    w1 ← put fd (code ∷ []) 1 w
    w2 ← put fd (bytes_of 4 replica) 4 w1
    get fd size w2

  -- The path is read into memory that is not ended by a NUL; the result is the bytes read. A failed malloc shows only in read.
  unfoldable pub get_path : ℤ → ℕ → W → Option (Bytes × W)
  get_path fd replica w = do
    (b, w1) ← ask get_replica_path fd replica 8 w
    let plen = number_of b
    let (_, w2) = sys me (malloc (plen * 2)) w1
    get fd plen w2

  unfoldable pub get_priority : ℤ → ℕ → W → Option (ℤ × W)
  get_priority fd replica w = do
    (b, w') ← ask get_replica_priority fd replica 4 w
    some (to_int (number_of b), w')

  unfoldable pub get_total_read : ℤ → ℕ → W → Option (ℕ × W)
  get_total_read fd replica w = do
    (b, w') ← ask get_replica_total_read fd replica 8 w
    some (number_of b, w')

  unfoldable pub get_total_write : ℤ → ℕ → W → Option (ℕ × W)
  get_total_write fd replica w = do
    (b, w') ← ask get_replica_total_write fd replica 8 w
    some (number_of b, w')

  unfoldable pub get_status : ℤ → ℕ → W → Option (ℤ × W)
  get_status fd replica w = do
    (b, w') ← ask get_replica_status fd replica 4 w
    some (to_int (number_of b), w')

  unfoldable pub get_max_replica : ℤ → W → Option (ℕ × W)
  get_max_replica fd w = do
    w1 ← put fd (Wire.get_max_replica ∷ []) 1 w
    (b, w2) ← get fd 4 w1
    some (number_of b, w2)

  -- The body of the loop of main.
  unfoldable pub show_replica : ℤ → ℕ → W → Option (Shown × W)
  show_replica sfd i w = do
    (path, w1) ← get_path sfd i w
    (status, w2) ← get_status sfd i w1
    (priority, w3) ← get_priority sfd i w2
    (read, w4) ← get_total_read sfd i w3
    (written, w5) ← get_total_write sfd i w4
    some (
      record {
        path = path;
        disabled = is_nonzero status;
        low = is_nonzero priority;
        read = long_long read;
        written = long_long written;
      },
      w5,
    )

  -- for(i = …; i < max_replica; i++), for the `n` that are left.
  unfoldable pub show_replicas : ℤ → ℕ → ℕ → W → Option (List Shown × W)
  show_replicas sfd i zero w = some ([], w)
  show_replicas sfd i (suc n) w = do
    (x, w1) ← show_replica sfd i w
    (xs, w2) ← show_replicas sfd (suc i) n w1
    some (x ∷ xs, w2)

  -- main from its connection on: the number of replicas, as it is handed to printf (which prints it with %x),
  -- and what it has of each of them.
  unfoldable pub report : ℤ → W → Option ((ℕ × List Shown) × W)
  report sfd w = do
    (max_replica, w1) ← get_max_replica sfd w
    (xs, w2) ← show_replicas sfd 0 max_replica w1
    some ((max_replica, xs), w2)

  -- main, with the arguments that follow the program's name.
  unfoldable pub main : List Bytes → W → Option ((ℕ × List Shown) × W)
  main [] w = none
  main (name ∷ []) w =
      let (s, w1) = sys me socket w in
      let (c, w2) = sys me (connect s.ret (sun_path name)) w1 in
      let rest = report s.ret w2 in
      if is_minus_one s.ret then none else if is_minus_one c.ret then none else rest
  main (name ∷ other ∷ more) w = none
