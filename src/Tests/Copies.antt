-- ===== src/Tests/Copies.antt =====
-- Requests on replicas that hold the same tree, at concrete inputs.
use chironfs.Session.{handle_all}
use chironfs.Base.{
  ℕ, ◌==◌, ℤ, pos, false, Option, none, some, List, [], ◌∷◌, ◌≡◌, ◌≢◌, refl, ap, arith,
}
use chironfs.Model.{Bytes, Cred, State}
use chironfs.Changes.{do_truncate, do_mkdir, do_rename, do_link}
use chironfs.OneCopy.{change, move, Rooted, Same}
use chironfs.OneCopy.Request.{Atomic}
use chironfs.OneCopy.Edits.{run_edit, run_edit-Atomic}
use chironfs.OneCopy.Looks.{look_getattr, run_look}
use chironfs.OneCopy.Views.{LookEnd, run_look-LookEnd}
use chironfs.OneCopy.Serial.{Task, edits, looks, Served, requests, handle_all-Serial}
use chironfs.Scan.Finish.{Kept}
use chironfs.Policy.Laws.{marked}
use chironfs.FileIo.{ReadReply}
use chironfs.Tests.Sessions.{one_open-Able}
use chironfs.Tests.Toy.{one_open, root, alice, x_path, mounted}
use chironfs.Tests.Trees.{
  Trees, disks, counted_disks, counted_shows, disks-Posix, disks-Allocates, disks-Privileged,
  tree_of, disks-Links,
}

-- Nothing has been changed yet.
abbrev fresh : State Trees
fresh = record { config = one_open.config; cred = root; logfd = some []; world = λ x. 0 }

distinct_heads : (x y : ℕ) → (x == y) ≡ false → (p q : Bytes) → Option.some (x ∷ p) ≢ some (y ∷ q)
distinct_heads x y h p q e =
    let same : x ≡ y = ap (λ (z : Option Bytes). elim z [ none ↦ x | some f ↦ tree_of f ]) e in
    ground arith

fresh-Rooted : Rooted counted_disks fresh.config.replicas
fresh-Rooted = (
  (97 ∷ [], refl, refl, (distinct_heads 98 97 refl [] [], (distinct_heads 99 97 refl [] [], tt))),
  ((98 ∷ [], refl, refl, (distinct_heads 99 98 refl [] [], tt)), ((99 ∷ [], refl, refl, tt), tt)),
)

fresh-Same : Same counted_disks 0 fresh.config.replicas fresh.world
fresh-Same = (λ on p e. refl, (λ on p e. refl, (λ on p e. refl, tt)))

abbrev tasks : List (Cred × Task)
tasks =
    (alice, edits (change (do_mkdir x_path 493)))
    ∷ (root, edits (move (do_rename x_path (47 ∷ []))))
    ∷ (alice, looks (look_getattr x_path))
    ∷ (alice, edits (change (do_truncate x_path (pos 0))))
    ∷ []

handle_all-Serial_example : Served counted_shows tasks 0 (handle_all disks 1 (requests tasks) fresh)
handle_all-Serial_example =
    handle_all-Serial counted_shows disks-Posix disks-Allocates disks-Privileged disks-Links 1 tasks
      0 fresh (tt, tt) one_open-Able fresh-Rooted fresh-Same

run_look-LookEnd_example :
    (out : ReadReply) × (t : State Trees) × (run_look disks alice (look_getattr x_path) fresh
      ≡ some (out, t))
    × LookEnd counted_shows alice (look_getattr x_path) 0 out
    × Same counted_disks 0 t.config.replicas t.world
    × ((es : List ℤ) × (t.config.replicas ≡ marked mounted es))
    × Kept one_open.config t.config
run_look-LookEnd_example =
    run_look-LookEnd counted_shows disks-Posix disks-Allocates disks-Privileged disks-Links alice
      (look_getattr x_path) 0 fresh tt one_open-Able fresh-Rooted fresh-Same

run_edit-Atomic_example :
    let out = run_edit disks alice (move (do_link x_path (47 ∷ []))) fresh in
    Atomic counted_disks alice
      (move (do_link x_path (47 ∷ [])))
      0
      out.0
      out.1.config.replicas
      out.1.world
run_edit-Atomic_example =
    run_edit-Atomic counted_disks disks-Posix disks-Allocates disks-Privileged alice
      (move (do_link x_path (47 ∷ []))) 0 fresh fresh-Rooted refl fresh-Same
