-- ===== src/Tests/Requests.antt =====
-- Requests that change every replica, at concrete inputs.
use chironfs.Changes.Making.{node_iteration, chiron_mknod-Outcome, chiron_mknod-enosys}
use chironfs.Namespace.{chiron_mknod, is_reg, is_fifo}
use chironfs.Base.{pos, [], ◌≡◌, refl, ◌∷◌}
use chironfs.Model.{call}
use chironfs.Priv.{set_euid, set_egid, drop_priv}
use chironfs.Mirror.{visit_all, enosys}
use chironfs.Mirror.Laws.{started}
use chironfs.Mirror.Outcome.{Outcome}
use chironfs.Mirror.Calls.{run_calls, handler_calls}
use chironfs.Changes.{run_change, run_move, do_rename, do_unlink, do_mkdir, system_call, target}
use chironfs.Changes.Proofs.{iteration, run_change_calls, run_change-Outcome}
use chironfs.Changes.Keeping.{move_iteration, run_move-Outcome}
use chironfs.Tests.Toy.{
  toy, toy-Posix, toy-Privileged, toy-Allocates, start, config, mounted, root, alice, x_path,
}

run_change_calls_example :
    let u = (run_change toy alice (do_unlink x_path) start).1 in
    (u.world
      ≡ run_calls toy
          (handler_calls root alice
            (system_call (do_unlink x_path))
            (target (do_unlink x_path))
            config)
          [])
    × (u.cred ≡ root)
run_change_calls_example =
    run_change_calls toy toy-Privileged toy-Allocates alice (do_unlink x_path) start

run_change-Outcome_example :
    let out = run_change toy alice (do_mkdir x_path 493) start in
    Outcome
      (pos 0)
      mounted
      (visit_all (iteration toy (do_mkdir x_path 493)) mounted (started toy alice start)).0
      out.0
      out.1.config.replicas
unfolding drop_priv set_euid set_egid call
run_change-Outcome_example = run_change-Outcome toy toy-Posix alice (do_mkdir x_path 493) start refl

run_move-Outcome_example :
    let out = run_move toy alice (do_rename x_path x_path) start in
    Outcome
      (pos 0)
      mounted
      (visit_all
        (move_iteration toy alice (do_rename x_path x_path))
        mounted
        (started toy alice start)).0
      out.0
      out.1.config.replicas
unfolding drop_priv set_euid set_egid call
run_move-Outcome_example = run_move-Outcome toy alice toy-Posix (do_rename x_path x_path) start refl

chiron_mknod-Outcome_example :
    let out = chiron_mknod toy alice x_path 33188 start in
    Outcome
      (pos 0)
      mounted
      (visit_all (node_iteration toy alice x_path 33188) mounted (started toy alice start)).0
      out.0
      out.1.config.replicas
unfolding drop_priv set_euid set_egid is_reg is_fifo call
chiron_mknod-Outcome_example = chiron_mknod-Outcome toy alice toy-Posix x_path 33188 start refl refl

-- A device.
chiron_mknod-enosys_example :
    let out = chiron_mknod toy alice x_path 8192 start in (out.0 ≡ enosys) × (out.1.config ≡ config)
unfolding drop_priv set_euid set_egid is_reg is_fifo call
chiron_mknod-enosys_example =
    chiron_mknod-enosys toy alice toy-Allocates x_path 8192 refl toy-Posix start
      ((97 ∷ [], refl), ((98 ∷ [], refl), ((99 ∷ [], refl), tt))) refl refl
