-- ===== src/Changes/Proofs.antt =====
-- What the handlers that change every replica do: the calls that they make, what they return, and
-- which replicas they leave.
use chironfs.Base.{ℤ, pos, is_negative, is_nonzero, Bool, true, String, ◌≡◌, refl}
use chironfs.Model.{Bytes, Replica, Cred, mkdir, symlink, Kernel, Posix, State}
use chironfs.Priv.Laws.{Privileged}
use chironfs.Mirror.{Visit, visit, try_call, visit_all, mirror}
use chironfs.Mirror.Laws.{
  IsBody, IsIteration, started, has_err_list, visit-IsIteration, try_call_negative,
  try_call_nonzero,
}
use chironfs.Mirror.Outcome.{Outcome, mirror-Outcome, mirror-any_enabled}
use chironfs.Mirror.Survivor.{any_enabled}
use chironfs.Mirror.Calls.{Allocates, run_calls, handler_calls, mirror_calls}
use chironfs.Attributes.{chiron_truncate, chiron_chmod, chiron_chown, chiron_utime}
use chironfs.Namespace.{chiron_rmdir, chiron_unlink, chiron_mkdir, chiron_symlink}
use chironfs.Changes.{
  Change, do_truncate, do_chmod, do_chown, do_utime, do_rmdir, do_unlink, do_mkdir, do_symlink,
  run_change, target, system_call,
}

-- How a handler tells that its call failed: res < 0, or res.
abbrev pub failure_test : Change → ℤ → Bool
failure_test (do_mkdir path mode) = is_nonzero
failure_test (do_symlink from to) = is_nonzero
failure_test _ = is_negative

abbrev pub name : Change → String
name (do_truncate path size) = "truncate"
name (do_chmod path mode) = "chmod"
name (do_chown path uid gid) = "chown"
name (do_utime path buf) = "utime"
name (do_rmdir path) = "rmdir"
name (do_unlink path) = "unlink"
name (do_mkdir path mode) = "mkdir"
name (do_symlink from to) = "symlink"

module _ {W : Type 0} (sys : Kernel W) where
  -- The iteration of the handler for one replica.
  abbrev pub iteration : Change → Replica → State W → Visit × State W
  iteration ch = visit sys (λ f. try_call sys (failure_test ch) (system_call ch f)) (target ch)

  pub run_change-mirror :
      (context : Cred) (ch : Change)
      → run_change sys context ch ≡ mirror sys (name ch) context (iteration ch)
  unfolding run_change chiron_truncate chiron_chmod chiron_chown chiron_utime chiron_rmdir
      chiron_unlink chiron_mkdir chiron_symlink
  run_change-mirror context (do_truncate path size) = refl
  run_change-mirror context (do_chmod path mode) = refl
  run_change-mirror context (do_chown path uid gid) = refl
  run_change-mirror context (do_utime path buf) = refl
  run_change-mirror context (do_rmdir path) = refl
  run_change-mirror context (do_unlink path) = refl
  run_change-mirror context (do_mkdir path mode) = refl
  run_change-mirror context (do_symlink from to) = refl

  pub call-IsBody :
      Posix sys
      → (ch : Change) (f : Bytes) → IsBody (try_call sys (failure_test ch) (system_call ch f))
  call-IsBody posix (do_mkdir path mode) f = try_call_nonzero sys posix (mkdir f mode) refl
  call-IsBody posix (do_symlink from to) f = try_call_nonzero sys posix (symlink from f) refl
  call-IsBody posix ch f = try_call_negative sys posix (system_call ch f)

  pub iteration-IsIteration : Posix sys → (ch : Change) → IsIteration (iteration ch)
  iteration-IsIteration posix ch =
      visit-IsIteration sys (λ r f. try_call sys (failure_test ch) (system_call ch f)) (target ch)
        (λ r f. call-IsBody posix ch f)

  -- If memory is found, and the program may change its effective user and group, then the handler of a
  -- `Change` (truncate, chmod, chown, utime, rmdir, unlink, mkdir or symlink) makes exactly these
  -- calls: it takes the caller's group and user, asks for
  -- `err_list`, makes its system call once on the copy of the path in each replica that is not
  -- disabled, in order and whatever the others return, and takes its own user and group back, under
  -- which it ends.
  pub run_change_calls :
      Privileged sys
      → Allocates sys
      → (context : Cred) (ch : Change) (s : State W)
      → let u = (run_change sys context ch s).1 in
        (u.world
          ≡ run_calls sys
              (handler_calls s.cred context (system_call ch) (target ch) s.config)
              s.world)
        × (u.cred ≡ record { uid = s.config.uid; gid = s.config.gid })
  run_change_calls p al context ch s =
      rw (run_change-mirror context ch)
        (mirror_calls sys p al (name ch) context (failure_test ch) (system_call ch) (target ch) s)

  -- If failed calls set errno, then the handler of a `Change` (truncate, chmod, chown, utime, rmdir,
  -- unlink, mkdir or symlink), once it has `err_list`, returns 0 and disables exactly the replicas whose call
  -- failed if the call succeeded on some replica; otherwise it returns the first error and disables
  -- none.
  pub run_change-Outcome :
      Posix sys
      → (context : Cred) (ch : Change) (s : State W) → has_err_list sys context s ≡ true
      → let out = run_change sys context ch s in
        Outcome
          (pos 0)
          s.config.replicas
          (visit_all (iteration ch) s.config.replicas (started sys context s)).0
          out.0
          out.1.config.replicas
  run_change-Outcome posix context ch s h =
      rw (run_change-mirror context ch)
        (mirror-Outcome sys (name ch) context (iteration ch) (iteration-IsIteration posix ch) s h)

  -- If failed calls set errno, then the handler of a `Change` (truncate, chmod, chown, utime, rmdir,
  -- unlink, mkdir or symlink) never disables the last replica: if some replica is enabled
  -- before a request, then some replica is enabled after it.
  pub run_change-any_enabled :
      Posix sys
      → (context : Cred) (ch : Change) (s : State W) → any_enabled s.config.replicas ≡ true
      → any_enabled (run_change sys context ch s).1.config.replicas ≡ true
  run_change-any_enabled posix context ch s h =
      rw (run_change-mirror context ch) (
        mirror-any_enabled sys (name ch) context (iteration ch) (iteration-IsIteration posix ch) s
          h)
