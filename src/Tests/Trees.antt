-- ===== src/Tests/Trees.antt =====
-- A kernel that counts the changes of each of several trees, of which the one named `b` cannot be changed.
use chironfs.Lookup.Links.{Links}
use chironfs.Base.{
  ℕ, suc, ◌==◌, ℤ, pos, negsuc, is_negative, is_nonzero, Bool, true, false, Option, none, some, [],
  ◌∷◌, ◌≡◌, ◌≢◌, refl, ap, sym, ◌∙◌, ◌<◌, arith, inl, inr, Bool-cases, if◌then◌else◌, ◌++◌,
}
use chironfs.Model.{
  Bytes, Cred, Call, Reply, calloc, malloc, seteuid, setegid, mkdir, chmod, truncate, lchown, utime,
  rmdir, unlink, symlink, rename, link, Kernel, Posix, returns_zero, lstat,
}
use chironfs.Priv.Laws.{Privileged}
use chironfs.Mirror.Calls.{Allocates}
use chironfs.Changes.{
  do_truncate, do_chmod, do_chown, do_utime, do_rmdir, do_unlink, do_mkdir, do_symlink, do_rename,
  do_link,
}
use chironfs.OneCopy.{Edit, change, move, edit_call, edit_failed, is_silent, Disks}
use chironfs.OneCopy.Looks.{
  Look, look_getattr, look_access, look_readlink, look_path, look_call, look_failed, look_kept,
  Shows,
}

-- The first byte of a path is the name of a tree.
abbrev pub tree_of : Bytes → ℕ
tree_of [] = 0
tree_of (x ∷ f) = x

-- The tree that a call changes.
abbrev changed : Call → Option ℕ
changed (truncate f n) = some (tree_of f)
changed (chmod f m) = some (tree_of f)
changed (lchown f u g) = some (tree_of f)
changed (utime f b) = some (tree_of f)
changed (rmdir f) = some (tree_of f)
changed (unlink f) = some (tree_of f)
changed (mkdir f m) = some (tree_of f)
changed (symlink g f) = some (tree_of f)
changed (rename f g) = some (tree_of f)
changed (link f g) = some (tree_of f)
changed _ = none

abbrev answer : Call → ℤ
answer (malloc n) = pos 64
answer (calloc n m) = pos 64
answer _ = pos 0

-- How often each tree has been changed.
abbrev pub Trees : Type 0
Trees = ℕ → ℕ

abbrev changed_once : ℕ → Trees → Trees
changed_once x w y = if y == x then suc (w y) else w y

-- The tree named `b` cannot be changed.
abbrev tried : Bool → ℕ → Trees → Reply × Trees
tried true x w = (record { ret = negsuc 0; errno = 5; stored = [] }, w)
tried false x w = (record { ret = pos 0; errno = 0; stored = [] }, changed_once x w)

-- lstat stores the device of a file, which is that of its tree, and how often the tree has been changed.
abbrev stored_by : Call → Trees → Bytes
stored_by (lstat f) w = tree_of f ∷ w (tree_of f) ∷ []
stored_by _ w = []

abbrev called : ℤ → Bytes → Option ℕ → Trees → Reply × Trees
called z bs none w = (record { ret = z; errno = 0; stored = bs }, w)
called z bs (some x) w = tried (x == 98) x w

abbrev pub disks : Kernel Trees
disks k c w = called (answer c) (stored_by c w) (changed c) w

abbrev is_tree : Bytes → Bool
is_tree (x ∷ []) = true
is_tree _ = false

changed-edit_call : (e : Edit) (x : ℕ) → changed (edit_call e (x ∷ [])) ≡ some x
changed-edit_call (change (do_truncate f n)) x = refl
changed-edit_call (change (do_chmod f n)) x = refl
changed-edit_call (change (do_chown f n m)) x = refl
changed-edit_call (change (do_utime f b)) x = refl
changed-edit_call (change (do_rmdir f)) x = refl
changed-edit_call (change (do_unlink f)) x = refl
changed-edit_call (change (do_mkdir f m)) x = refl
changed-edit_call (change (do_symlink f g)) x = refl
changed-edit_call (move (do_rename f g)) x = refl
changed-edit_call (move (do_link f g)) x = refl

edit_failed-negsuc : (e : Edit) → edit_failed e (negsuc 0) ≡ true
edit_failed-negsuc (change (do_truncate f n)) = refl
edit_failed-negsuc (change (do_chmod f n)) = refl
edit_failed-negsuc (change (do_chown f n m)) = refl
edit_failed-negsuc (change (do_utime f b)) = refl
edit_failed-negsuc (change (do_rmdir f)) = refl
edit_failed-negsuc (change (do_unlink f)) = refl
edit_failed-negsuc (change (do_mkdir f m)) = refl
edit_failed-negsuc (change (do_symlink f g)) = refl
edit_failed-negsuc (move mv) = refl

edit_failed-zero : (e : Edit) → edit_failed e (pos 0) ≡ false
edit_failed-zero (change (do_truncate f n)) = refl
edit_failed-zero (change (do_chmod f n)) = refl
edit_failed-zero (change (do_chown f n m)) = refl
edit_failed-zero (change (do_utime f b)) = refl
edit_failed-zero (change (do_rmdir f)) = refl
edit_failed-zero (change (do_unlink f)) = refl
edit_failed-zero (change (do_mkdir f m)) = refl
edit_failed-zero (change (do_symlink f g)) = refl
edit_failed-zero (move mv) = refl

pub silent : (c : Call) → is_silent c ≡ true → changed c ≡ none
silent (malloc n) h = refl
silent (calloc n m) h = refl
silent (seteuid u) h = refl
silent (setegid g) h = refl
silent _ h = cc

once-same : (x : ℕ) (w : Trees) → changed_once x w x ≡ suc (w x)
once-same x w = ground arith

once-other : (x y : ℕ) (w : Trees) → x ≢ y → changed_once x w y ≡ w y
once-other x y w h = ground arith

disks-tried :
    (k : Cred) (e : Edit) (x : ℕ) (w : Trees)
    → disks k (edit_call e (x ∷ [])) w ≡ tried (x == 98) x w
disks-tried k e x w =
    ap (λ t. called (answer (edit_call e (x ∷ []))) (stored_by (edit_call e (x ∷ [])) w) t w)
      (changed-edit_call e x)

distinct : {A : Type 0} → true ≡ false → A
distinct h = cc

-- A change that is told as made is one more change, and one that is told as failed is none.
tried-succeeds :
    (b : Bool) (e : Edit) (x : ℕ) (w : Trees)
    → edit_failed e (tried b x w).0.ret ≡ false
    → some (suc (w x)) ≡ some ((tried b x w).1 x)
tried-succeeds true e x w h = distinct (sym (edit_failed-negsuc e) ∙ h)
tried-succeeds false e x w h = ap some (sym (once-same x w))

tried-fails :
    (b : Bool) (e : Edit) (x : ℕ) (w : Trees)
    → edit_failed e (tried b x w).0.ret ≡ true
    → (tried b x w).1 x ≡ w x
tried-fails true e x w h = refl
tried-fails false e x w h = distinct (sym h ∙ edit_failed-zero e)

tried-apart : (b : Bool) (x y : ℕ) (w : Trees) → x ≢ y → (tried b x w).1 y ≡ w y
tried-apart true x y w n = refl
tried-apart false x y w n = once-other x y w n

-- What is known of a call on the tree at `p` is known of one on the tree `x`.
pub succeeds :
    (k : Cred) (e : Edit) (p : Bytes) (w : Trees)
    → is_tree p ≡ true
    → edit_failed e (disks k (edit_call e p) w).0.ret ≡ false
    → some (suc (w (tree_of p))) ≡ some ((disks k (edit_call e p) w).1 (tree_of p))
succeeds k e [] w t h = distinct (sym t)
succeeds k e (x ∷ []) w t h =
    let d = disks-tried k e x w in
    tried-succeeds (x == 98) e x w (ap (λ (z : Reply × Trees). edit_failed e z.0.ret) (sym d) ∙ h)
    ∙ ap (λ (z : Reply × Trees). some (z.1 x)) (sym d)
succeeds k e (x ∷ y ∷ p) w t h = distinct (sym t)

pub fails :
    (k : Cred) (e : Edit) (p : Bytes) (w : Trees)
    → is_tree p ≡ true
    → edit_failed e (disks k (edit_call e p) w).0.ret ≡ true
    → (disks k (edit_call e p) w).1 (tree_of p) ≡ w (tree_of p)
fails k e [] w t h = distinct (sym t)
fails k e (x ∷ []) w t h =
    let d = disks-tried k e x w in
    ap (λ (z : Reply × Trees). z.1 x) d
    ∙ tried-fails (x == 98) e x w (ap (λ (z : Reply × Trees). edit_failed e z.0.ret) (sym d) ∙ h)
fails k e (x ∷ y ∷ p) w t h = distinct (sym t)

pub apart :
    (k : Cred) (e : Edit) (p q : Bytes) (w : Trees)
    → is_tree p ≡ true
    → is_tree q ≡ true
    → p ≢ q
    → (disks k (edit_call e p) w).1 (tree_of q) ≡ w (tree_of q)
apart k e (x ∷ []) (y ∷ []) w t u n =
    ap (λ (z : Reply × Trees). z.1 y) (disks-tried k e x w)
    ∙ tried-apart (x == 98) x y w (λ same. n (ap (λ z. z ∷ []) same))
apart k e [] q w t u n = distinct (sym t)
apart k e (x ∷ y ∷ p) q w t u n = distinct (sym t)
apart k e p [] w t u n = distinct (sym u)
apart k e p (x ∷ y ∷ q) w t u n = distinct (sym u)

abbrev pub counted_disks : Disks disks ℕ
counted_disks = record {
  is_root = is_tree;
  disk = λ p w. w (tree_of p);
  act = λ k e d. some (suc d);
  silent =
      λ k c q w h. ap (λ t. (called (answer c) (stored_by c w) t w).1 (tree_of q)) (silent c h);
  succeeds = succeeds;
  fails = fails;
  apart = apart;
}

-- The device says nothing of the tree.
abbrev pub without_device : Look → Bytes → Bytes
without_device (look_getattr path) (dev ∷ rest) = rest
without_device l bs = bs

-- What the requests that only look see of a tree.
abbrev count_of : Cred → Look → ℕ → Bytes
count_of k (look_getattr path) d = d ∷ []
count_of k (look_access path mask) d = []
count_of k (look_readlink path size) d = 0 ∷ []

pub unchanged :
    (k : Cred) (l : Look) (p q : Bytes) (w : Trees)
    → is_tree p ≡ true
    → (disks k (look_call l (p ++ look_path l)) w).1 (tree_of q) ≡ w (tree_of q)
unchanged k (look_getattr path) p q w t = refl
unchanged k (look_access path mask) p q w t = refl
unchanged k (look_readlink path size) p q w t = refl

pub shows :
    (k : Cred) (l : Look) (p : Bytes) (w : Trees)
    → is_tree p ≡ true
    → let res = (disks k (look_call l (p ++ look_path l)) w).0 in
      look_failed l res.ret ≡ false
      → without_device l (look_kept l res) ≡ count_of k l (w (tree_of p))
shows k (look_getattr path) [] w t h = distinct (sym t)
shows k (look_getattr path) (x ∷ p) w t h = refl
shows k (look_access path mask) p w t h = refl
shows k (look_readlink path size) p w t h = refl

called-zero :
    (z : ℤ) (bs : Bytes) (t : Option ℕ) (w : Trees)
    → is_nonzero z ≡ is_negative z
    → is_nonzero (called z bs t w).0.ret ≡ is_negative (called z bs t w).0.ret
called-zero z bs none w h = h
called-zero z bs (some x) w h = elim (Bool-cases (x == 98)) [
  | inl y ↦ rw y refl
  | inr n ↦ rw n refl
]

tried-errno :
    (b : Bool) (x : ℕ) (w : Trees)
    → is_negative (tried b x w).0.ret ≡ true
    → 0 < (tried b x w).0.errno
tried-errno true x w h = omega arith
tried-errno false x w h = distinct (sym h)

called-errno :
    (z : ℤ) (bs : Bytes) (t : Option ℕ) (w : Trees)
    → is_negative z ≡ false
    → is_negative (called z bs t w).0.ret ≡ true
    → 0 < (called z bs t w).0.errno
called-errno z bs none w n h = distinct (sym h ∙ n)
called-errno z bs (some x) w n h = tried-errno (x == 98) x w h

answer-zero : (c : Call) → returns_zero c ≡ true → is_nonzero (answer c) ≡ is_negative (answer c)
answer-zero (malloc n) h = distinct (sym h)
answer-zero (calloc n m) h = distinct (sym h)
answer-zero _ h = refl

answer-negative : (c : Call) → is_negative (answer c) ≡ false
answer-negative (malloc n) = refl
answer-negative (calloc n m) = refl
answer-negative _ = refl

pub disks-Posix : Posix disks
disks-Posix = record {
  sets_errno =
      λ k c w h. called-errno (answer c) (stored_by c w) (changed c) w (answer-negative c) h;
  zero_or_negative =
      λ k c w h. called-zero (answer c) (stored_by c w) (changed c) w (answer-zero c h);
}

pub disks-Allocates : Allocates disks
disks-Allocates k n m w = (refl, refl)

pub disks-Links : Links disks
disks-Links k f n w = omega arith

pub disks-Privileged : Privileged disks
disks-Privileged k n w = (refl, refl)

abbrev pub counted_shows : Shows counted_disks Bytes
counted_shows = record {
  view = without_device;
  shown = count_of;
  unchanged = unchanged;
  shows = shows;
}
