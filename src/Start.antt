-- ===== src/Start.antt =====
-- src/fs.c: the options, main up to the loop of FUSE, and chiron_init; src/debug.c: open_log. `print_err`,
-- `help` and `print_version` only print, and are left out.
pub mod Arguments
pub mod Launch
pub mod Owner
use chironfs.Base.{
  ℕ, ℤ, pos, negsuc, is_nonzero, is_minus_one, Bool, true, false, not, ◌||◌, ◌&&◌, ◌==◌, Option,
  none, some, List, [], ◌∷◌, ◌>>=◌, if◌then◌else◌,
}
use chironfs.Model.{
  Bytes, Config, realpath, umask, fopen, strdup, fuse_opt_add_arg, fuse_main, pthread_create,
  Kernel, State, call,
}
use chironfs.Mount.{Mounting, exited, ready, do_mount, put_config}

-- `struct chironfs_options`, with none for NULL.
pub record Options : Type 0 where
  pub ctl_socket_name : Option Bytes
  pub replica_args : Option Bytes
  pub logname : Option Bytes
  pub mountpoint : Option Bytes
  pub quiet : Bool

-- `config` as it is initialised.
abbrev pub initial_config : Config
initial_config = record {
  max_replica = 0;
  max_replica_high = 0;
  max_replica_low = 0;
  curr_replica_high = 0;
  curr_replica_low = 0;
  round_robin_high = [];
  round_robin_low = [];
  replicas = [];
  mountpoint = none;
  ctl_socket_name = none;
  tab_fd = [];
  uid = 0;
  gid = 0;
  fd_buf_size = 1;
}

-- The keys that fuse_opt_parse hands to chironfs_opt_proc.
pub data OptKey : Type 0 where
  key_opt key_nonopt key_help key_version key_other : OptKey

-- How a call of chironfs_opt_proc ends: by exit(1), or with a result and the options.
pub data OptEnd (W : Type 0) : Type 0 where
  exits : State W → OptEnd W
  returned : ℤ → Options → State W → OptEnd W

-- strchr(arg, '=')
abbrev pub has_separator : Bytes → Bool
has_separator [] = false
has_separator (x ∷ xs) = x == 61 || has_separator xs

abbrev pub is_unset : Option Bytes → Bool
is_unset none = true
is_unset (some x) = false

-- "-ho" and "--version"
abbrev pub ho_arg : Bytes
ho_arg = 45 ∷ 104 ∷ 111 ∷ []

abbrev pub version_arg : Bytes
version_arg = 45 ∷ 45 ∷ 118 ∷ 101 ∷ 114 ∷ 115 ∷ 105 ∷ 111 ∷ 110 ∷ []

-- How main ends: by exit, or in the loop of FUSE.
pub data Running (W : Type 0) : Type 0 where
  stopped : ℤ → State W → Running W
  running : State W → Running W

module _ {W : Type 0} (sys : Kernel W) where
  -- strdup: NULL without memory.
  unfoldable pub copied : Bytes → State W → Option Bytes × State W
  copied text s =
      let (p, s') = call sys (strdup text) s in (if is_nonzero p.ret then some text else none, s')

  -- The mount point, once no other has been given.
  unfoldable pub take_mountpoint : Bytes → Options → State W → OptEnd W
  take_mountpoint arg o s =
      let (p, s1) = call sys (realpath arg) s in
      let (copy, s2) = copied p.stored s1 in
      let (added, s3) = call sys (fuse_opt_add_arg p.stored) s2 in
      if is_nonzero p.ret
      then returned added.ret (record o { mountpoint = copy }) s3
      else returned (negsuc 0) o s1

  -- help or print_version, and what follows.
  unfoldable pub hand_over : Bytes → State W → OptEnd W
  hand_over arg s = exits (call sys fuse_main (call sys (fuse_opt_add_arg arg) s).1).1

  unfoldable pub chironfs_opt_proc : OptKey → Bytes → Options → State W → OptEnd W
  chironfs_opt_proc key_opt arg o s = returned (pos 1) o s
  chironfs_opt_proc key_nonopt arg o s =
      let (copy, s1) = copied arg s in
      if is_unset o.replica_args && has_separator arg
      then returned (pos 0) (record o { replica_args = copy }) s1
      else if is_unset o.mountpoint
      then take_mountpoint arg o s
      else returned (pos 1) o s
  chironfs_opt_proc key_help arg o s = hand_over ho_arg s
  chironfs_opt_proc key_version arg o s = hand_over version_arg s
  chironfs_opt_proc key_other arg o s = returned (pos 0) o s

  -- open_log, and what follows it; exit(errno) where the log cannot be opened. 0133 is 91.
  unfoldable pub open_log : Bytes → (State W → Option (Running W)) → State W → Option (Running W)
  open_log logname next s =
      let (tmpmask, s1) = call sys (umask (pos 91)) s in
      let (logfd, s2) = call sys (fopen logname) s1 in
      let s3 = (call sys (umask tmpmask.ret) s2).1 in
      let rest = next (record s3 { logfd = some [] }) in
      if is_nonzero logfd.ret then rest else some (stopped (pos logfd.errno) s3)

  -- From geteuid on.
  unfoldable pub mount_and_run :
      (Bytes → List Bytes) → Options → Bytes → State W → Option (Running W)
  mount_and_run strtok o replica_args s = do
    let c : Config = record (s.config) { uid = s.cred.uid; gid = s.cred.gid }
    let d : Config = elim o.ctl_socket_name [
      | none ↦ c
      | some name ↦ record c { ctl_socket_name = some name }
    ]
    m ← do_mount sys strtok replica_args (put_config sys d s)
    elim m [ exited e t ↦ some (stopped e t) | ready t ↦ some (running t) ]

  -- From the tests of the options on.
  unfoldable pub checked : (Bytes → List Bytes) → Options → State W → Option (Running W)
  checked strtok o s = elim o.replica_args [
    | none ↦ some (stopped (pos 1) s)
    | some args ↦ elim o.mountpoint [
      | none ↦ some (stopped (pos 1) s)
      | some m ↦
          let s1 = put_config sys (record (s.config) { mountpoint = some m }) s in
          elim o.logname [
            | none ↦ mount_and_run strtok o args s1
            | some logname ↦ open_log logname (mount_and_run strtok o args) s1
          ]
    ]
  ]

  -- main, up to the loop of FUSE. `parse` is fuse_opt_parse on the arguments, the options and
  -- chironfs_opt_proc; none for a fault of do_mount, and for a loop of it that does not end.
  unfoldable pub main : (State W → OptEnd W) → (Bytes → List Bytes) → State W → Option (Running W)
  main parse strtok s = elim (parse (call sys (umask (pos 0)) s).1) [
    | exits t ↦ some (stopped (pos 1) t)
    | returned res o t ↦
        let rest = checked strtok o t in if is_minus_one res then some (stopped (pos 1) t) else rest
  ]

  -- chiron_init: a thread for ctl_server if there is a socket for it. It returns NULL in any case.
  unfoldable pub chiron_init : State W → State W
  chiron_init s = elim s.config.ctl_socket_name [
    | none ↦ s
    | some name ↦ (call sys pthread_create s).1
  ]
