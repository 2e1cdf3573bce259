-- ===== src/Tests/Sessions.antt =====
-- Runs of requests of all kinds, at concrete inputs.
use chironfs.Base.{negsuc, ◌∙◌, ap, sym, none, Option}
use chironfs.Base.{
  ℕ, zero, suc, ◌<◌, ℤ, pos, none, some, List, [], ◌∷◌, ◌≡◌, ◌≢◌, refl, arith, length, get_or,
  is_nonzero,
}
use mathlib.Core.Path.{subst}
use mathlib.Core.Option.{some-injective}
use chironfs.Model.{Cred, State, lstat}
use chironfs.Scan.Finish.{Able, Keeps}
use chironfs.Directory.{chiron_readdir}
use chironfs.Directory.Proofs.{chiron_readdir-Keeps}
use chironfs.FileIo.{chiron_read}
use chironfs.FileIo.Survivor.{chiron_read-Keeps}
use chironfs.Lookup.{lookup}
use chironfs.Lookup.Survivor.{lookup-Keeps}
use chironfs.OpenFiles.Usable.{Usable}
use chironfs.Invariant.{Sane, AllUsable}
use chironfs.Changes.{do_mkdir, do_rename}
use chironfs.Model.{read_fd, call}
use chironfs.Control.{process_request}
use chironfs.Control.Safety
use chironfs.Changes.{run_change}
use chironfs.Session.Reach.{Reach, here, onward, handled, polled, Reach-Sane}
use chironfs.Session.{
  only, Request, Answer, change, move, mknod, readdir, open_existing, read, write, release, handle,
  handle_all,
}
use chironfs.Session.Answered.{Answered, handle-Answered}
use chironfs.Session.Served.{Served, handle_all-Served, handle_all-Answers}
use chironfs.Tests.Toy.{
  World, toy, toy-Posix, toy-Listing, one_open, alice, root, x_path, toy-Links,
}
use chironfs.Tests.Lookups.{one_open-Mounted}

abbrev high_table : List ℕ
high_table = 0 ∷ 1 ∷ 0 ∷ []

abbrev low_table : List ℕ
low_table = 2 ∷ 0 ∷ 0 ∷ []

high_distinct : (i j : ℕ) → i < 2 → j < 2 → get_or high_table i 0 ≡ get_or high_table j 0 → i ≡ j
high_distinct zero zero a b e = refl
high_distinct zero (suc zero) a b e = absurd (omega arith)
high_distinct (suc zero) zero a b e = absurd (omega arith)
high_distinct (suc zero) (suc zero) a b e = refl
high_distinct zero (suc (suc j)) a b e = absurd (omega arith)
high_distinct (suc zero) (suc (suc j)) a b e = absurd (omega arith)
high_distinct (suc (suc i)) j a b e = absurd (omega arith)

apart : (i j : ℕ) → i < 2 → j < 1 → get_or high_table i 0 ≢ get_or low_table j 0
apart zero zero a b e = absurd (omega arith)
apart (suc zero) zero a b e = absurd (omega arith)
apart (suc (suc i)) zero a b e = absurd (omega arith)
apart i (suc j) a b e = absurd (omega arith)

pub one_open-Able : Able one_open.config
one_open-Able = record {
  mounted = one_open-Mounted;
  spread = record {
    high_distinct = high_distinct;
    low_distinct = λ i j a b e. omega arith;
    apart = apart;
  };
  alive = refl;
}

one_file : AllUsable one_open.config
one_file zero fds g = cc
one_file (suc zero) fds g =
    subst (Usable one_open.config.replicas) (some-injective _ fds (some-injective _ (some fds) g))
      (λ h. refl, (λ h. refl, (λ h. refl, tt)))
one_file (suc (suc zero)) fds g = cc
one_file (suc (suc (suc zero))) fds g = cc
one_file (suc (suc (suc (suc i)))) fds g = cc

one_open-Sane : Sane one_open.config
one_open-Sane = record {
  able = one_open-Able;
  table = record { slots = refl; some_slot = omega arith; numbered = omega arith };
  files = one_file;
}

-- Alice makes a directory, writes to the open file, reads, lists a directory, opens a file and moves
-- another; a device is refused.
abbrev requests : List (Cred × Request)
requests =
    (alice, change (do_mkdir x_path 493))
    ∷ (alice, write (104 ∷ 105 ∷ []) (pos 0) 1)
    ∷ (alice, read 2 (pos 0) 1)
    ∷ (alice, readdir x_path (pos 0))
    ∷ (root, open_existing x_path 0)
    ∷ (alice, move (do_rename x_path x_path))
    ∷ (root, mknod x_path 8192)
    ∷ (root, release 3)
    ∷ []

abbrev result_of_run : Option (List Answer × State World) → List Answer × State World
result_of_run none = ([], one_open)
result_of_run (some p) = p

abbrev ran : List Answer × State World
ran = result_of_run (handle_all toy 3 requests one_open)

all_ran : handle_all toy 3 requests one_open ≡ some ran
all_ran =
    let (answers, t, e, l, v) =
      handle_all-Answers toy toy-Posix 2 toy-Listing toy-Links requests one_open one_open-Sane
        (tt, (omega arith, (omega arith, (tt, (tt, (tt, (tt, (omega arith, tt)))))))) in
    e ∙ ap (λ o. some (result_of_run o)) (sym e)

handle_all-Served_example : (length ran.0 ≡ 8) × Served requests one_open.config ran.1.config
handle_all-Served_example =
    handle_all-Served toy toy-Posix 2 toy-Listing toy-Links requests one_open ran.1 ran.0
      one_open-Sane (tt, (omega arith, (omega arith, (tt, (tt, (tt, (tt, (omega arith, tt))))))))
      all_ran

handle-Answered_example :
    Answered none one_open.config (handle toy 3 root (open_existing x_path 0) one_open)
handle-Answered_example =
    handle-Answered toy toy-Posix 2 toy-Listing toy-Links root (open_existing x_path 0) one_open
      one_open-Sane tt

chiron_readdir-Keeps_example :
    Keeps one_open.config (chiron_readdir toy 3 alice x_path (pos 0) one_open)
chiron_readdir-Keeps_example =
    chiron_readdir-Keeps toy 2 toy-Listing alice x_path (pos 0) one_open one_open-Able

three_entries : (fds : List ℤ) → some (pos 7 ∷ pos 0 ∷ pos 9 ∷ []) ≡ some fds → length fds ≡ 3
three_entries fds p = cc

chiron_read-Keeps_example : Keeps one_open.config (chiron_read toy alice 2 (pos 0) 1 one_open)
chiron_read-Keeps_example =
    chiron_read-Keeps toy alice 2 (pos 0) 1 (some (pos 7 ∷ pos 0 ∷ pos 9 ∷ [])) one_open
      one_open-Able refl three_entries

lookup-Keeps_example :
    Keeps one_open.config
      (lookup toy "getattr" is_nonzero lstat (λ r. r.stored) alice x_path one_open)
lookup-Keeps_example =
    lookup-Keeps toy is_nonzero lstat "getattr" (λ r. r.stored) alice x_path one_open one_open-Able

-- A client of the control socket leaves, and then Alice makes a directory.
abbrev after_poll : State World
after_poll = (call toy (read_fd (pos 5) 1) one_open).1

abbrev after_mkdir : State World
after_mkdir = (run_change toy alice (do_mkdir x_path 493) after_poll).1

two_steps : Reach toy 3 one_open after_mkdir
unfolding handle process_request call
two_steps =
    onward after_poll after_mkdir (onward one_open after_poll here (polled (pos 5) (negsuc 0) refl))
      (handled alice (change (do_mkdir x_path 493))
        (only (run_change toy alice (do_mkdir x_path 493) after_poll).0) tt refl)

Reach-Sane_example :
    Sane after_mkdir.config × Safety.Answered after_mkdir (process_request toy (pos 6) after_mkdir)
Reach-Sane_example =
    Reach-Sane toy toy-Posix 2 toy-Listing toy-Links one_open after_mkdir one_open-Sane two_steps
      (pos 6)
