-- ===== src/Tests/Toy.antt =====
-- A kernel that keeps a list of the calls made, and fails every call on a path that begins with `b`.
use chironfs.Lookup.Links.{Links}
use chironfs.Base.{
  ℕ, suc, ◌-◌, ltb, ℤ, pos, negsuc, is_negative, is_nonzero, Bool, true, false, ◌==◌, none, some,
  List, [], ◌∷◌, ◌≡◌, refl, arith, if◌then◌else◌, length,
}
use chironfs.Model.{
  Bytes, Replica, Config, Cred, Call, calloc, malloc, open_path, open_new, creat, pread, pwrite,
  fopen, strdup, opendir, readdir, lstat, access, readlink, realpath, mkfifo, mkdir, chmod,
  truncate, unlink, symlink, rename, link, Kernel, Posix, returns_zero, State,
}
use chironfs.Priv.Laws.{Privileged}
use chironfs.Mirror.Calls.{Allocates}
use chironfs.Directory.Proofs.{Listing}

abbrev begins_b : Bytes → Bool
begins_b [] = false
begins_b (x ∷ xs) = x == 98

abbrev is_bad : Call → Bool
is_bad (open_path f m) = begins_b f
is_bad (creat f m) = begins_b f
is_bad (lstat f) = begins_b f
is_bad (access f m) = begins_b f
is_bad (readlink f n) = begins_b f
is_bad (truncate f n) = begins_b f
is_bad (chmod f m) = begins_b f
is_bad (unlink f) = begins_b f
is_bad (mkdir f m) = begins_b f
is_bad (rename f g) = begins_b f
is_bad _ = false

-- How many names have been asked for.
abbrev pub names_read : List (Cred × Call) → ℕ
names_read [] = 0
names_read ((k, readdir dp) ∷ w) = suc (names_read w)
names_read ((k, c) ∷ w) = names_read w

-- A directory has two names.
abbrev good : ℕ → Call → ℤ
good n (calloc k m) = pos 64
good n (malloc k) = pos 64
good n (open_path f m) = pos 7
good n (open_new f m) = pos 7
good n (creat f m) = pos 7
good n (pread fd k o) = pos 2
good n (pwrite fd b o) = pos (length b)
good n (readlink f k) = pos 2
good n (realpath f) = pos 64
good n (fopen f) = pos 64
good n (strdup f) = pos 64
good n (opendir f) = pos 64
good n (readdir dp) = if ltb n 2 then pos 96 else pos 0
good n _ = pos 0

abbrev pub World : Type 0
World = List (Cred × Call)

abbrev pub toy : Kernel World
toy k c w = (
  record {
    ret = if is_bad c then negsuc 0 else good (names_read w) c;
    errno = 5;
    stored = 104 ∷ 105 ∷ [];
  },
  (k, c) ∷ w,
)

toy_zero :
    (n : ℕ) (c : Call)
    → returns_zero c ≡ true
    → is_nonzero (if is_bad c then negsuc 0 else good n c)
      ≡ is_negative (if is_bad c then negsuc 0 else good n c)
toy_zero n (lstat f) h = ground arith
toy_zero n (access f m) h = ground arith
toy_zero n (mkfifo f m) h = refl
toy_zero n (mkdir f m) h = ground arith
toy_zero n (symlink f g) h = refl
toy_zero n (rename f g) h = ground arith
toy_zero n (link f g) h = refl
toy_zero n _ h = cc

pub toy-Posix : Posix toy
toy-Posix = record {
  sets_errno = λ k c w h. omega arith;
  zero_or_negative = λ k c w h. toy_zero (names_read w) c h;
}

pub toy-Listing : Listing toy 2
toy-Listing = record {
  left = λ dp w. 2 - names_read w;
  bounded = λ dp w. omega arith;
  fewer = λ k dp w h. ground arith;
  taken = λ k dp b w. refl;
}

pub toy-Links : Links toy
toy-Links k f n w = omega arith

pub toy-Privileged : Privileged toy
toy-Privileged k n w = (refl, refl)

pub toy-Allocates : Allocates toy
toy-Allocates k n m w = (refl, refl)

abbrev pub replica : Bytes → Bool → Replica
replica path priority = record {
  path = some path;
  totrd = 0;
  totwr = 0;
  pathlen = length path;
  disabled = false;
  priority = priority;
}

-- /a and /b of high priority, /c of low priority.
abbrev pub mounted : List Replica
mounted = replica (97 ∷ []) false ∷ replica (98 ∷ []) false ∷ replica (99 ∷ []) true ∷ []

abbrev pub config : Config
config = record {
  max_replica = 3;
  max_replica_high = 2;
  max_replica_low = 1;
  curr_replica_high = 0;
  curr_replica_low = 0;
  round_robin_high = 0 ∷ 1 ∷ 0 ∷ [];
  round_robin_low = 2 ∷ 0 ∷ 0 ∷ [];
  replicas = mounted;
  mountpoint = none;
  ctl_socket_name = none;
  tab_fd = none ∷ none ∷ none ∷ none ∷ [];
  uid = 0;
  gid = 0;
  fd_buf_size = 4;
}

abbrev pub root : Cred
root = record { uid = 0; gid = 0 }

abbrev pub alice : Cred
alice = record { uid = 1000; gid = 100 }

abbrev pub start : State World
start = record { config = config; cred = root; logfd = some []; world = [] }

-- The path /x below the mount point.
abbrev pub x_path : Bytes
x_path = 47 ∷ 120 ∷ []

-- A file is open in slot 1.
abbrev pub one_open : State World
one_open = record start {
  config = record config { tab_fd = none ∷ some (pos 7 ∷ pos 0 ∷ pos 9 ∷ []) ∷ none ∷ none ∷ [] };
}
