-- ===== src/Namespace.antt =====
-- src/fs.c: the handlers that add, remove and rename directory entries: chiron_mknod, chiron_rmdir,
-- chiron_unlink, chiron_mkdir, chiron_symlink, chiron_rename and chiron_link.
use chironfs.Base.{
  ℕ, ◌/◌, ◌%◌, ℤ, pos, neg, is_negative, is_nonzero, Bool, ◌==◌, Option, none, some, List, [], ◌∷◌,
  if◌then◌else◌,
}
use mathlib.Core.Option
use chironfs.Model.{
  Bytes, Replica, Cred, Call, open_new, close, mkfifo, mkdir, rmdir, unlink, symlink, rename, link,
  Kernel, State, call,
}
use chironfs.Priv.{reacquire_priv}
use chironfs.Mirror.{
  Visit, skipped, failed, succeeded, err_list, succ_cnt, fail_cnt, enosys, xlate, visit, try_call,
  finish, with_err_list, mirror,
}

-- S_ISREG and S_ISFIFO: the file type is in the four bits above the low twelve.
unfoldable pub is_reg : ℕ → Bool
is_reg mode = mode / 4096 % 16 == 8

unfoldable pub is_fifo : ℕ → Bool
is_fifo mode = mode / 4096 % 16 == 1

module _ {W : Type 0} (sys : Kernel W) (context : Cred) where
  unfoldable pub chiron_rmdir : Bytes → State W → ℤ × State W
  chiron_rmdir path_orig =
      mirror sys "rmdir" context
        (visit sys (λ fname. try_call sys is_negative (rmdir fname)) path_orig)

  unfoldable pub chiron_unlink : Bytes → State W → ℤ × State W
  chiron_unlink path_orig =
      mirror sys "unlink" context
        (visit sys (λ fname. try_call sys is_negative (unlink fname)) path_orig)

  unfoldable pub chiron_mkdir : Bytes → ℕ → State W → ℤ × State W
  chiron_mkdir path_orig mode =
      mirror sys "mkdir" context
        (visit sys (λ fname. try_call sys is_nonzero (mkdir fname mode)) path_orig)

  unfoldable pub chiron_symlink : Bytes → Bytes → State W → ℤ × State W
  chiron_symlink from to =
      mirror sys "symlink" context
        (visit sys (λ fname. try_call sys is_nonzero (symlink from fname)) to)

  -- The part of an iteration of chiron_rename and chiron_link that follows the first `xlate`.
  unfoldable pub with_fname_to :
      (Bytes → Bytes → Call) → Bytes → Replica → Bytes → State W → Visit × State W
  with_fname_to op to r fname_from s =
      let (fname_to, s') = xlate sys to r.path s in
      elim fname_to [ none ↦ (skipped, s') | some f ↦ try_call sys is_nonzero (op fname_from f) s' ]

  unfoldable pub chiron_rename : Bytes → Bytes → State W → ℤ × State W
  chiron_rename from to =
      mirror sys "rename" context (λ r. visit sys (with_fname_to rename to r) from r)

  unfoldable pub chiron_link : Bytes → Bytes → State W → ℤ × State W
  chiron_link from to = mirror sys "link" context (λ r. visit sys (with_fname_to link to r) from r)

  -- open with O_CREAT | O_EXCL | O_WRONLY, then close.
  unfoldable pub make_reg : ℕ → Bytes → State W → Visit × State W
  make_reg mode fname s =
      let (fd, s') = call sys (open_new fname mode) s in
      if is_negative fd.ret
      then (failed (neg fd.errno), s')
      else (succeeded, (call sys (close fd.ret) s').1)

  -- One iteration of chiron_mknod: none for the return in its body.
  unfoldable pub mknod_visit : Bytes → ℕ → Replica → State W → Option Visit × State W
  mknod_visit path_orig mode r s =
      let (fname, s') = xlate sys path_orig r.path s in
      let made = λ (p : Visit × State W). let q : Option Visit × State W = (some p.0, p.1) in q in
      if r.disabled then (some skipped, s) else elim fname [
        | none ↦ (some skipped, s')
        | some f ↦
            if is_reg mode
            then made (make_reg mode f s')
            else if is_fifo mode
            then made (try_call sys is_nonzero (mkfifo f mode) s')
            else (none, s')
      ]

  unfoldable pub mknod_loop : Bytes → ℕ → List Replica → State W → Option (List Visit) × State W
  mknod_loop path_orig mode [] s = (some [], s)
  mknod_loop path_orig mode (r ∷ rs) s =
      let (v, s') = mknod_visit path_orig mode r s in
      let (vs, s'') = mknod_loop path_orig mode rs s' in
      elim v [ none ↦ (none, s') | some v1 ↦ (Option.map (λ us. v1 ∷ us) vs, s'') ]

  unfoldable pub chiron_mknod : Bytes → ℕ → State W → ℤ × State W
  chiron_mknod path_orig mode = with_err_list sys context λ s.
      let (done, s') = mknod_loop path_orig mode s.config.replicas s in
      elim done [
        | none ↦ (enosys, (reacquire_priv sys s').1)
        | some vs ↦ finish sys "mknod" (pos 0) (succ_cnt vs) (fail_cnt vs) (err_list vs) s'
      ]
