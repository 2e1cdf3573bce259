-- ===== src/Tests/Mounting.antt =====
-- Mounting /a, of high priority, and /c, of low priority.
use chironfs.Invariant.{Sane}
use chironfs.Control.{process_request}
use chironfs.Control.Safety
use chironfs.Session.Reach.{Reach, here, onward, handled}
use chironfs.Base.{
  ℕ, ◌*◌, ◌^◌, ◌-◌, ◌<◌, ◌≤◌, ◌==◌, some, none, if◌then◌else◌, List, [], ◌∷◌, ◌≡◌, refl, arith,
}
use chironfs.Model.{Bytes, State}
use chironfs.Mount.{grow, table_size, do_mount}
use chironfs.Mount.Size.{table_size-Greatest, grow_endless}
use chironfs.Mount.Joined.{joined}
use chironfs.Mount.Ending.{Ended}
use chironfs.Mount.Startup.{Fresh, Roomy}
use chironfs.Mount.Established.{do_mount_total}
use chironfs.Tests.Toy.{World, toy, toy-Posix, toy-Listing, config, start, alice, x_path, toy-Links}
use chironfs.Model.{call}
use chironfs.Log.{log}
use chironfs.Base.{Option, pos}
use chironfs.Mount.{
  Mounting, ready, count_separators, set_priority, raise_limit, read_limit, allocated, set_path,
  split_replicas, mount_tables, mount_limited,
}
use chironfs.Changes.{do_mkdir, run_change}
use chironfs.Session.{change, only, handle}
use chironfs.Session.Mounted.{do_mount-Reach}

table_size-Greatest_example :
    (k : ℕ) × (table_size 1 49 ≡ some (2 ^ k)) × (2 ^ k ≤ 49) × (49 < 2 * 2 ^ k)
table_size-Greatest_example = table_size-Greatest 49 (omega arith) (omega arith)

-- No limit on the number of files, and one replica.
grow_endless_example : grow 65 1 (2 ^ 64 - 7) ≡ none
grow_endless_example = grow_endless 65 (2 ^ 64 - 7) (omega arith)

-- The parts between the separators; strtok gives those that are not empty.
abbrev pub begin_with : ℕ → List Bytes → List Bytes
begin_with x [] = (x ∷ []) ∷ []
begin_with x (t ∷ ts) = (x ∷ t) ∷ ts

abbrev pub parts : Bytes → List Bytes
parts [] = [] ∷ []
parts (x ∷ xs) = if x == 61 then [] ∷ parts xs else begin_with x (parts xs)

abbrev pub not_empty : List Bytes → List Bytes
not_empty [] = []
not_empty ([] ∷ ts) = not_empty ts
not_empty ((x ∷ t) ∷ ts) = (x ∷ t) ∷ not_empty ts

abbrev pub strtok : Bytes → List Bytes
strtok filesystems = not_empty (parts filesystems)

abbrev pub unmounted : State World
unmounted = record start {
  config = record config {
    max_replica = 0;
    max_replica_high = 0;
    max_replica_low = 0;
    round_robin_high = [];
    round_robin_low = [];
    replicas = [];
    tab_fd = [];
    fd_buf_size = 1;
  };
}

unmounted-Fresh : Fresh unmounted.config
unmounted-Fresh = record {
  no_high = refl;
  no_low = refl;
  high_start = refl;
  low_start = refl;
  one = refl;
}

pub toy-Roomy : Roomy toy 2
toy-Roomy = record {
  room = λ k w. omega arith;
  soft = λ k w. omega arith;
  hard = λ k w. omega arith;
}

-- /a=:/c
do_mount_total_example :
    Ended 2 (do_mount toy strtok (joined (47 ∷ 97 ∷ []) ((58 ∷ 47 ∷ 99 ∷ []) ∷ [])) unmounted)
do_mount_total_example =
    do_mount_total toy strtok (47 ∷ 97 ∷ []) ((58 ∷ 47 ∷ 99 ∷ []) ∷ []) unmounted refl refl refl
      refl (omega arith) unmounted-Fresh toy-Roomy

abbrev pub argument : Bytes
argument = joined (47 ∷ 97 ∷ []) ((58 ∷ 47 ∷ 99 ∷ []) ∷ [])

abbrev pub ready_state : Option (Mounting World) → State World
ready_state (some (ready t)) = t
ready_state _ = unmounted

abbrev pub mounted_state : State World
mounted_state = ready_state (do_mount toy strtok argument unmounted)

do_mount_ready : do_mount toy strtok argument unmounted ≡ some (ready mounted_state)
unfolding do_mount count_separators grow table_size set_priority raise_limit read_limit allocated
    set_path split_replicas mount_tables mount_limited call log
do_mount_ready = refl

-- After the mount Alice makes a directory.
abbrev made : State World
made = (run_change toy alice (do_mkdir x_path 493) mounted_state).1

made_step : Reach toy 3 mounted_state made
unfolding handle
made_step = onward mounted_state made here (
    handled alice (change (do_mkdir x_path 493))
      (only (run_change toy alice (do_mkdir x_path 493) mounted_state).0) tt refl)

do_mount-Reach_example : Sane made.config × Safety.Answered made (process_request toy (pos 6) made)
do_mount-Reach_example =
    do_mount-Reach toy toy-Posix 2 toy-Listing toy-Links strtok (47 ∷ 97 ∷ [])
      ((58 ∷ 47 ∷ 99 ∷ []) ∷ []) unmounted mounted_state made refl refl refl refl (omega arith)
      unmounted-Fresh toy-Roomy do_mount_ready made_step (pos 6)
