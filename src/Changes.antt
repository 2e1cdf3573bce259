-- ===== src/Changes.antt =====
-- The handlers of src/fs.c that make one change on every replica, taken together, and what holds of
-- all of them.
pub mod Proofs
pub mod Keeping
pub mod Nodes
pub mod Making
use chironfs.Base.{ℕ, ℤ, is_negative, is_nonzero, Option, String, List, Bool}
use chironfs.Model.{
  Bytes, Replica, Cred, Call, truncate, chmod, lchown, utime, rmdir, unlink, mkdir, symlink, rename,
  link, Kernel, State,
}
use chironfs.Mirror.{Visit, visit, try_call, mirror}
use chironfs.Attributes.{chiron_truncate, chiron_chmod, chiron_chown, chiron_utime}
use chironfs.Namespace.{
  chiron_rmdir, chiron_unlink, chiron_mkdir, chiron_symlink, chiron_rename, chiron_link,
  with_fname_to,
}

-- The requests with one path in `chiron_oper`, and those with two.
pub data Change : Type 0 where
  do_truncate : Bytes → ℤ → Change
  do_chmod : Bytes → ℕ → Change
  do_chown : Bytes → ℕ → ℕ → Change
  do_utime : Bytes → Option (ℤ × ℤ) → Change
  do_rmdir do_unlink : Bytes → Change
  do_mkdir : Bytes → ℕ → Change
  do_symlink : Bytes → Bytes → Change

pub data Move : Type 0 where
  do_rename do_link : Bytes → Bytes → Move

module _ {W : Type 0} (sys : Kernel W) (context : Cred) where
  -- `chiron_oper`
  unfoldable pub run_change : Change → State W → ℤ × State W
  run_change (do_truncate path size) = chiron_truncate sys context path size
  run_change (do_chmod path mode) = chiron_chmod sys context path mode
  run_change (do_chown path uid gid) = chiron_chown sys context path uid gid
  run_change (do_utime path buf) = chiron_utime sys context path buf
  run_change (do_rmdir path) = chiron_rmdir sys context path
  run_change (do_unlink path) = chiron_unlink sys context path
  run_change (do_mkdir path mode) = chiron_mkdir sys context path mode
  run_change (do_symlink from to) = chiron_symlink sys context from to

  unfoldable pub run_move : Move → State W → ℤ × State W
  run_move (do_rename from to) = chiron_rename sys context from to
  run_move (do_link from to) = chiron_link sys context from to

-- What POSIX calls each request: the path that is changed, and the call on one copy of it.
abbrev pub target : Change → Bytes
target (do_truncate path size) = path
target (do_chmod path mode) = path
target (do_chown path uid gid) = path
target (do_utime path buf) = path
target (do_rmdir path) = path
target (do_unlink path) = path
target (do_mkdir path mode) = path
target (do_symlink from to) = to

abbrev pub system_call : Change → Bytes → Call
system_call (do_truncate path size) f = truncate f size
system_call (do_chmod path mode) f = chmod f mode
system_call (do_chown path uid gid) f = lchown f uid gid
system_call (do_utime path buf) f = utime f buf
system_call (do_rmdir path) f = rmdir f
system_call (do_unlink path) f = unlink f
system_call (do_mkdir path mode) f = mkdir f mode
system_call (do_symlink from to) f = symlink from f
