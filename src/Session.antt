-- ===== src/Session.antt =====
-- src/fs.c: chiron_oper, the handlers of all requests as FUSE calls them.
pub mod Opened
pub mod Answered
pub mod Served
pub mod Mounted
pub mod Reach
use chironfs.Base.{ℕ, ℤ, pos, Option, none, some, List, [], ◌∷◌, ◌>>=◌}
use chironfs.Model.{Bytes, Cred, Kernel, State}
use chironfs.Changes.{Change, Move, run_change, run_move}
use chironfs.Namespace.{chiron_mknod}
use chironfs.Lookup.{chiron_getattr, chiron_access, chiron_readlink}
use chironfs.Directory.{chiron_readdir}
use chironfs.OpenFiles.{chiron_open, chiron_create, chiron_release}
use chironfs.FileIo.{ReadReply, chiron_read, chiron_write}

-- A request, with the handle of the file where there is one (fi->fh).
pub data Request : Type 0 where
  change : Change → Request
  move : Move → Request
  mknod : Bytes → ℕ → Request
  getattr : Bytes → Request
  access : Bytes → ℕ → Request
  readlink : Bytes → ℕ → Request
  readdir : Bytes → ℤ → Request
  open_existing create : Bytes → ℕ → Request
  read : ℕ → ℤ → ℕ → Request
  write : Bytes → ℤ → ℕ → Request
  release : ℕ → Request

-- What FUSE gets: the result, the bytes stored for it, and `fi->fh` where it is set.
pub record Answer : Type 0 where
  pub ret : ℤ
  pub buf : Bytes
  pub fh : Option ℕ

abbrev pub only : ℤ → Answer
only e = record { ret = e; buf = []; fh = none }

abbrev pub with_buf : ReadReply → Answer
with_buf r = record { ret = r.ret; buf = r.buf; fh = none }

abbrev pub with_fh : ℤ × Option ℕ → Answer
with_fh p = record { ret = p.0; buf = []; fh = p.1 }

module _ {W : Type 0} where
  -- A result as an answer.
  abbrev pub answered :
      {A : Type 0} → (A → Answer) → Option (A × State W) → Option (Answer × State W)
  answered f none = none
  answered f (some (a, s)) = some (f a, s)

module _ {W : Type 0} (sys : Kernel W) (names : ℕ) (context : Cred) where
  -- chiron_oper, with at most `names` names from a directory stream.
  unfoldable pub handle : Request → State W → Option (Answer × State W)
  handle (change ch) s = answered only (some (run_change sys context ch s))
  handle (move mv) s = answered only (some (run_move sys context mv s))
  handle (mknod path mode) s = answered only (some (chiron_mknod sys context path mode s))
  handle (getattr path) s = answered with_buf (chiron_getattr sys context path s)
  handle (access path mask) s = answered with_buf (chiron_access sys context path mask s)
  handle (readlink path size) s = answered with_buf (chiron_readlink sys context path size s)
  handle (readdir path offset) s = answered only (chiron_readdir sys names context path offset s)
  handle (open_existing path flags) s =
      answered with_fh (some (chiron_open sys context path flags s))
  handle (create path mode) s = answered with_fh (some (chiron_create sys context path mode s))
  handle (read size offset fh) s = answered with_buf (chiron_read sys context size offset fh s)
  handle (write buf offset fh) s = answered only (chiron_write sys context buf offset fh s)
  handle (release fh) s = answered only (chiron_release sys context fh s)

module _ {W : Type 0} (sys : Kernel W) (names : ℕ) where
  -- One request after the other, each from its caller.
  unfoldable pub handle_all : List (Cred × Request) → State W → Option (List Answer × State W)
  handle_all [] s = some ([], s)
  handle_all ((k, q) ∷ qs) s = do
    (a, s1) ← handle sys names k q s
    (rest, s2) ← handle_all qs s1
    some (a ∷ rest, s2)
