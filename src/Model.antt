-- ===== src/Model.antt =====
-- The data of src/chiron-types.h and src/fs.h, and the boundary with the operating system.
use chironfs.Base.{ℕ, ℤ, Bool, true, false, String, Option, List, ◌≡◌, is_negative, is_nonzero, ◌<◌}

-- A path or a buffer, as its bytes.
abbrev pub Bytes : Type 0
Bytes = List ℕ

-- `replica_t`: `path` is none for NULL; `priority` is true for low.
pub record Replica : Type 0 where
  pub path : Option Bytes
  pub totrd : ℕ
  pub totwr : ℕ
  pub pathlen : ℕ
  pub disabled : Bool
  pub priority : Bool

-- `tab_fd.fd`: a slot is none for NULL, or the descriptors of an open file, one per replica.
abbrev pub FdTable : Type 0
FdTable = List (Option (List ℤ))

-- `struct chironfs_config`. Arrays are the lists of the elements that are allocated for them.
pub record Config : Type 0 where
  pub max_replica : ℕ
  pub max_replica_high : ℕ
  pub max_replica_low : ℕ
  pub curr_replica_high : ℕ
  pub curr_replica_low : ℕ
  pub round_robin_high : List ℕ
  pub round_robin_low : List ℕ
  pub replicas : List Replica
  pub mountpoint : Option Bytes
  pub ctl_socket_name : Option Bytes
  pub tab_fd : FdTable
  pub uid : ℕ
  pub gid : ℕ
  pub fd_buf_size : ℕ

-- An effective user and group.
pub record Cred : Type 0 where
  pub uid : ℕ
  pub gid : ℕ

-- The calls that the program makes of the C library and the kernel, with their arguments.
pub data Call : Type 0 where
  calloc : ℕ → ℕ → Call
  malloc : ℕ → Call
  seteuid setegid : ℕ → Call
  open_path : Bytes → ℕ → Call
  open_new : Bytes → ℕ → Call
  creat : Bytes → ℕ → Call
  close : ℤ → Call
  pread : ℤ → ℕ → ℤ → Call
  pwrite : ℤ → Bytes → ℤ → Call
  lstat : Bytes → Call
  access : Bytes → ℕ → Call
  readlink : Bytes → ℕ → Call
  mkfifo mkdir chmod : Bytes → ℕ → Call
  truncate : Bytes → ℤ → Call
  lchown : Bytes → ℕ → ℕ → Call
  utime : Bytes → Option (ℤ × ℤ) → Call
  rmdir unlink : Bytes → Call
  symlink rename link : Bytes → Bytes → Call
  getrlimit : Call
  setrlimit : ℕ → ℕ → Call
  realpath : Bytes → Call
  read_fd : ℤ → ℕ → Call
  write_fd : ℤ → Option Bytes → ℕ → Call
  socket : Call
  bind connect : ℤ → Bytes → Call
  listen : ℤ → ℕ → Call
  accept : ℤ → Call
  opendir : Bytes → Call
  seekdir : ℤ → ℤ → Call
  readdir closedir : ℤ → Call
  filler : Bytes → Call
  umask : ℤ → Call
  fopen strdup fuse_opt_add_arg : Bytes → Call
  fuse_main pthread_create : Call

-- What a call returns: its value (a pointer as a number, 0 for NULL), `errno` after it, and the
-- bytes that it stored through a pointer argument.
pub record Reply : Type 0 where
  pub ret : ℤ
  pub errno : ℕ
  pub stored : Bytes

-- The operating system, as far as the program sees it: what a call does, made under an effective
-- user and group.
abbrev pub Kernel : Type 0 → Type 0
Kernel W = Cred → Call → W → Reply × W

-- How a log line ends: with nothing, with an entry of `errtab`, with the text of `strerror`, or
-- with whatever lies at an index outside `errtab`.
pub data Reason : Type 0 where
  silent : Reason
  errtab_text : String → Reason
  strerror : ℕ → Reason
  outside_errtab : ℕ → Reason

pub record LogLine : Type 0 where
  pub fnname : String
  pub failed_accessing : Bool
  pub resource : Option Bytes
  pub reason : Reason

-- The process: its configuration, its effective user and group, the lines of its log file (none if
-- no log is open), and the world outside.
pub record State (W : Type 0) : Type 0 where
  pub config : Config
  pub cred : Cred
  pub logfd : Option (List LogLine)
  pub world : W

module _ {W : Type 0} (sys : Kernel W) where
  -- One call, made under the current effective user and group.
  unfoldable pub call : Call → State W → Reply × State W
  call c s = let (r, w) = sys s.cred c s.world in (r, record s { world = w })

-- The calls that return 0 or -1.
abbrev pub returns_zero : Call → Bool
returns_zero (lstat f) = true
returns_zero (access f m) = true
returns_zero (mkfifo f m) = true
returns_zero (mkdir f m) = true
returns_zero (symlink f g) = true
returns_zero (rename f g) = true
returns_zero (link f g) = true
returns_zero _ = false

-- POSIX: a call that fails leaves a positive `errno`, and those above return nothing positive.
pub record Posix {W : Type 0} (sys : Kernel W) : Type 0 where
  pub sets_errno :
      (k : Cred) (c : Call) (w : W) → is_negative (sys k c w).0.ret ≡ true → 0 < (sys k c w).0.errno
  pub zero_or_negative :
      (k : Cred) (c : Call) (w : W)
      → returns_zero c ≡ true
      → is_nonzero (sys k c w).0.ret ≡ is_negative (sys k c w).0.ret
