-- ===== src/Changes/Keeping.antt =====
-- What run_change, run_move and chiron_mknod leave of the configuration.
use chironfs.Base.{pos, is_nonzero, true, String, ◌≡◌, refl, inl, inr, Option-cases}
use chironfs.Model.{Bytes, Call, Replica, Cred, Kernel, Posix, State, rename, link, returns_zero}
use chironfs.Mirror.{Visit, visit, try_call, xlate, mirror}
use chironfs.Mirror.Laws.{
  IsBody, IsIteration, SameButWorld-trans, visit-IsIteration, try_call_nonzero, xlate_frame,
  started, has_err_list,
}
use chironfs.Mirror.Outcome.{Outcome, mirror-Outcome}
use chironfs.Mirror.{visit_all}
use chironfs.Mirror.Keeping.{mirror-Kept}
use chironfs.Namespace.{with_fname_to, chiron_rename, chiron_link}
use chironfs.Scan.Finish.{Able, Kept}
use chironfs.Changes.{Change, Move, do_rename, do_link, run_change, run_move}
use chironfs.Changes.Proofs.{run_change-mirror, iteration, iteration-IsIteration, name}

-- The name of a request on two paths, and its call.
abbrev pub move_name : Move → String
move_name (do_rename from to) = "rename"
move_name (do_link from to) = "link"

abbrev pub move_call : Move → Bytes → Bytes → Call
move_call (do_rename from to) = rename
move_call (do_link from to) = link

abbrev pub move_from : Move → Bytes
move_from (do_rename from to) = from
move_from (do_link from to) = from

abbrev pub move_to : Move → Bytes
move_to (do_rename from to) = to
move_to (do_link from to) = to

module _ {W : Type 0} (sys : Kernel W) where
  pub run_change-Kept :
      Posix sys
      → (context : Cred) (ch : Change) (s : State W) → Able s.config
      → Kept s.config (run_change sys context ch s).1.config
  run_change-Kept posix context ch s a = rw (run_change-mirror sys context ch) (
      mirror-Kept sys (name ch) context (iteration sys ch) (iteration-IsIteration sys posix ch) s a)

pub move_call-zero : (mv : Move) (f g : Bytes) → returns_zero (move_call mv f g) ≡ true
move_call-zero (do_rename from to) f g = refl
move_call-zero (do_link from to) f g = refl

module _ {W : Type 0} (sys : Kernel W) (context : Cred) where
  with_fname_to-IsBody :
      (op : Bytes → Bytes → Call)
      → ((f g : Bytes) → IsBody (try_call sys is_nonzero (op f g)))
      → (to : Bytes) (r : Replica) (f : Bytes) → IsBody (with_fname_to sys context op to r f)
  unfolding with_fname_to
  with_fname_to-IsBody op h to r f s =
      let t : State W = (xlate sys to r.path s).1 in
      elim (Option-cases (xlate sys to r.path s).0) [
        | inl e ↦ simp (with_fname_to, e) (tt, xlate_frame sys to r.path s)
        | inr (g, e) ↦
            simp (with_fname_to, e)
              (
                (h f g t).0,
                SameButWorld-trans s t (try_call sys is_nonzero (op f g) t).1
                    (xlate_frame sys to r.path s) (h f g t).1,
              )
      ]

  abbrev pub move_iteration : Move → Replica → State W → Visit × State W
  move_iteration mv r =
      visit sys (with_fname_to sys context (move_call mv) (move_to mv) r) (move_from mv) r

  pub run_move-mirror :
      (mv : Move) → run_move sys context mv ≡ mirror sys (move_name mv) context (move_iteration mv)
  unfolding run_move chiron_rename chiron_link
  run_move-mirror (do_rename from to) = refl
  run_move-mirror (do_link from to) = refl

  pub move-IsIteration : Posix sys → (mv : Move) → IsIteration (move_iteration mv)
  move-IsIteration posix mv =
      visit-IsIteration sys (with_fname_to sys context (move_call mv) (move_to mv)) (move_from mv) (
        with_fname_to-IsBody (move_call mv)
          (λ f g. try_call_nonzero sys posix (move_call mv f g) (move_call-zero mv f g))
          (move_to mv))

  pub run_move-Kept :
      Posix sys
      → (mv : Move) (s : State W) → Able s.config
      → Kept s.config (run_move sys context mv s).1.config
  run_move-Kept posix mv s a =
      rw (run_move-mirror mv)
        (mirror-Kept sys (move_name mv) context (move_iteration mv) (move-IsIteration posix mv) s a)

  -- If failed calls set errno, then chiron_rename and chiron_link, once they have `err_list`, return 0
  -- and disable exactly the replicas whose call failed if the call succeeded on some replica;
  -- otherwise they return the first error and disable none.
  pub run_move-Outcome :
      Posix sys
      → (mv : Move) (s : State W) → has_err_list sys context s ≡ true
      → let out = run_move sys context mv s in
        Outcome
          (pos 0)
          s.config.replicas
          (visit_all (move_iteration mv) s.config.replicas (started sys context s)).0
          out.0
          out.1.config.replicas
  run_move-Outcome posix mv s h = rw (run_move-mirror mv) (
      mirror-Outcome sys (move_name mv) context (move_iteration mv) (move-IsIteration posix mv) s h)
