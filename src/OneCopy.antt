-- ===== src/OneCopy.antt =====
-- What the handlers of src/fs.c are for: the replicas hold the same tree, as if there were one copy of it.
pub mod Loop
pub mod Ends
pub mod Request
pub mod Edits
pub mod Looks
pub mod Refusal
pub mod Views
pub mod Keeping
pub mod Serial
use chironfs.Base.{
  ℕ, ℤ, pos, is_negative, is_nonzero, Bool, true, false, Option, none, some, List, [], ◌∷◌, ◌++◌,
  ◌≡◌, ◌≢◌,
}
use chironfs.Model.{
  Bytes, Replica, Cred, Call, malloc, calloc, seteuid, setegid, rename, link, Kernel,
}
use chironfs.Changes.{Change, Move, do_rename, do_link, target, system_call}
use chironfs.Changes.Proofs.{failure_test}
use chironfs.Changes.Keeping.{move_call, move_from, move_to}

-- A request that changes something, on one path or on two.
pub data Edit : Type 0 where
  change : Change → Edit
  move : Move → Edit

-- The call of a request in the tree below `root`, and how its failure is told.
abbrev pub edit_call : Edit → Bytes → Call
edit_call (change ch) root = system_call ch (root ++ target ch)
edit_call (move mv) root = move_call mv (root ++ move_from mv) (root ++ move_to mv)

abbrev pub edit_failed : Edit → ℤ → Bool
edit_failed (change ch) = failure_test ch
edit_failed (move mv) = is_nonzero

-- The calls that have nothing to do with files.
abbrev pub is_silent : Call → Bool
is_silent (malloc n) = true
is_silent (calloc n m) = true
is_silent (seteuid u) = true
is_silent (setegid g) = true
is_silent _ = false

-- The trees of the replicas, as far as the requests need them; the times at which files were used are no part of
-- them. `disk root w` is what the world `w` holds below
-- the path `root`. A call on a tree either succeeds, and then does to it what `act` says, or it fails, for
-- whatever reason, and then leaves it alone. It does not touch the other trees.
pub record Disks {W : Type 0} (sys : Kernel W) (D : Type 0) : Type 0 where
  pub is_root : Bytes → Bool
  pub disk : Bytes → W → D
  pub act : Cred → Edit → D → Option D
  pub silent :
      (k : Cred) (c : Call) (q : Bytes) (w : W)
      → is_silent c ≡ true
      → disk q (sys k c w).1 ≡ disk q w
  pub succeeds :
      (k : Cred) (e : Edit) (p : Bytes) (w : W)
      → is_root p ≡ true
      → edit_failed e (sys k (edit_call e p) w).0.ret ≡ false
      → act k e (disk p w) ≡ some (disk p (sys k (edit_call e p) w).1)
  pub fails :
      (k : Cred) (e : Edit) (p : Bytes) (w : W)
      → is_root p ≡ true
      → edit_failed e (sys k (edit_call e p) w).0.ret ≡ true
      → disk p (sys k (edit_call e p) w).1 ≡ disk p w
  pub apart :
      (k : Cred) (e : Edit) (p q : Bytes) (w : W)
      → is_root p ≡ true
      → is_root q ≡ true
      → p ≢ q
      → disk q (sys k (edit_call e p) w).1 ≡ disk q w

-- No replica has the path `p`.
abbrev pub NotIn : Bytes → List Replica → Type 0
NotIn p [] = Unit {0}
NotIn p (r ∷ rs) = (r.path ≢ some p) × NotIn p rs

module _ {W : Type 0} {sys : Kernel W} {D : Type 0} (ds : Disks sys D) where
  -- Each replica has a tree of its own.
  abbrev pub Rooted : List Replica → Type 0
  Rooted [] = Unit {0}
  Rooted (r ∷ rs) =
      ((p : Bytes) × (r.path ≡ some p) × (ds.is_root p ≡ true) × NotIn p rs) × Rooted rs

  -- Every replica that is not disabled holds the tree `d`.
  abbrev pub Same : D → List Replica → W → Type 0
  Same d [] w = Unit {0}
  Same d (r ∷ rs) w =
      (r.disabled ≡ false → (p : Bytes) → r.path ≡ some p → ds.disk p w ≡ d) × Same d rs w
