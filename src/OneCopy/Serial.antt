-- ===== src/OneCopy/Serial.antt =====
-- Requests that change something and requests that only look, one after the other, against one copy of the tree.
use chironfs.Lookup.Links.{Links}
use chironfs.Session
use chironfs.Session.{
  Request, getattr, access, readlink, Answer, only, with_buf, answered, handle, handle_all,
}
use mathlib.Core.Path.{subst}
use chironfs.Base.{
  ℤ, pos, is_nonzero, true, Option, some, List, [], ◌∷◌, ◌≡◌, refl, sym, ℕ, ◌∙◌, ap,
}
use chironfs.Model.{Cred, Kernel, Posix, State}
use chironfs.Priv.Laws.{Privileged}
use chironfs.Mirror.Calls.{Allocates}
use chironfs.Changes.Keeping.{run_change-Kept, run_move-Kept}
use chironfs.Scan.Finish.{Able, Kept, Kept-Able}
use chironfs.FileIo.{ReadReply}
use chironfs.OneCopy.{Edit, change, move, Disks, Rooted, Same}
use chironfs.OneCopy.Request.{made, unmade}
use chironfs.OneCopy.Edits.{run_edit, run_edit-Atomic}
use chironfs.OneCopy.Keeping.{run_edit-keeps, Rooted-marked}
use chironfs.OneCopy.Looks.{Look, Shows, run_look, look_getattr, look_access, look_readlink, Roomy}
use chironfs.OneCopy.Views.{LookEnd, seen, unseen, run_look-LookEnd}

-- A request of either kind.
pub data Task : Type 0 where
  edits : Edit → Task
  looks : Look → Task

-- As it comes to the table of handlers.
abbrev request : Task → Request
request (edits (change ch)) = Session.change ch
request (edits (move mv)) = Session.move mv
request (looks (look_getattr path)) = getattr path
request (looks (look_access path mask)) = Session.access path mask
request (looks (look_readlink path size)) = Session.readlink path size

abbrev pub requests : List (Cred × Task) → List (Cred × Request)
requests [] = []
requests ((k, q) ∷ qs) = (k, request q) ∷ requests qs

-- Each readlink has room for a path of PATH_MAX bytes.
abbrev pub AllRoomy : List (Cred × Task) → Type 0
AllRoomy [] = Unit {0}
AllRoomy ((k, edits e) ∷ qs) = AllRoomy qs
AllRoomy ((k, looks l) ∷ qs) = Roomy l × AllRoomy qs

module _ {W : Type 0} (sys : Kernel W) where
  handle-edits :
      (names : ℕ) (k : Cred) (e : Edit) (s : State W)
      → handle sys names k (request (edits e)) s
        ≡ some (only (run_edit sys k e s).0, (run_edit sys k e s).1)
  unfolding handle
  handle-edits names k (change ch) s = refl
  handle-edits names k (move mv) s = refl

  handle-looks :
      (names : ℕ) (k : Cred) (l : Look) (s : State W)
      → handle sys names k (request (looks l)) s ≡ answered with_buf (run_look sys k l s)
  unfolding handle
  handle-looks names k (look_getattr path) s = refl
  handle-looks names k (look_access path mask) s = refl
  handle-looks names k (look_readlink path size) s = refl

  handle_all-cons :
      (names : ℕ) (k : Cred) (q : Request) (qs : List (Cred × Request)) (x : Answer)
      (xs : List Answer) (s u t : State W)
      → handle sys names k q s ≡ some (x, u)
      → handle_all sys names qs u ≡ some (xs, t)
      → handle_all sys names ((k, q) ∷ qs) s ≡ some (x ∷ xs, t)
  unfolding handle_all
  handle_all-cons names k q qs x xs s u t e f = rw e (rw f refl)

  run_edit-Kept :
      Posix sys
      → (context : Cred) (e : Edit) (s : State W) → Able s.config
      → Kept s.config (run_edit sys context e s).1.config
  run_edit-Kept posix context (change ch) s a = run_change-Kept sys posix context ch s a
  run_edit-Kept posix context (move mv) s a = run_move-Kept sys context posix mv s a

module _ {W : Type 0} {sys : Kernel W} {D : Type 0} {ds : Disks sys D} {V : Type 0}
    (sh : Shows ds V) where
  -- What one copy of the tree would do: requests, their replies, the tree before and the tree after.
  pub data Serial : List (Cred × Task) → List Answer → D → D → Type 0 where
    idle : (d : D) → Serial [] [] d d
    taken :
        (k : Cred) (e : Edit) (qs : List (Cred × Task)) (outs : List Answer) (d d1 d' : D)
        → ds.act k e d ≡ some d1
        → Serial qs outs d1 d'
        → Serial ((k, edits e) ∷ qs) (only (pos 0) ∷ outs) d d'
    shown_as :
        (k : Cred) (l : Look) (out : ReadReply) (qs : List (Cred × Task)) (outs : List Answer)
        (d d' : D)
        → out.ret ≡ pos 0
        → sh.view l out.buf ≡ sh.shown k l d
        → Serial qs outs d d'
        → Serial ((k, looks l) ∷ qs) (with_buf out ∷ outs) d d'
    refused_one :
        (k : Cred) (q : Task) (z : ℤ) (qs : List (Cred × Task)) (outs : List Answer) (d d' : D)
        → is_nonzero z ≡ true
        → Serial qs outs d d'
        → Serial ((k, q) ∷ qs) (only z ∷ outs) d d'

  Serial-look :
      (k : Cred) (l : Look) (out : ReadReply) (qs : List (Cred × Task)) (outs : List Answer)
      (d d' : D)
      → LookEnd sh k l d out
      → Serial qs outs d d'
      → Serial ((k, looks l) ∷ qs) (with_buf out ∷ outs) d d'
  Serial-look k l out qs outs d d' (seen e f) c = shown_as k l out qs outs d d' e f c
  Serial-look k l out qs outs d d' (unseen n b) c =
      subst
        (λ x. Serial ((k, looks l) ∷ qs) (with_buf (record { ret = out.ret; buf = x }) ∷ outs) d d')
        (sym b) (refused_one k (looks l) out.ret qs outs d d' n c)

  -- Requests are answered as one copy would answer them, and the replicas that are left hold this copy.
  abbrev pub Served : List (Cred × Task) → D → Option (List Answer × State W) → Type 0
  Served qs d o =
      (outs : List Answer) × (t : State W) × (d' : D) × (o ≡ some (outs, t))
      × Serial qs outs d d'
      × Same ds d' t.config.replicas t.world
      × Able t.config

  module _ (posix : Posix sys) (al : Allocates sys) (priv : Privileged sys) where
    -- If memory is found, the program may change its effective user and group, failed calls set errno, targets
    -- of links have fewer than PATH_MAX bytes, and calls on the trees of the replicas do what `Disks` and
    -- `Shows` say, then on a configuration that can serve, whose replicas have each a tree of its own, the
    -- same one if they are not disabled, requests that change something and requests that only look, with room
    -- for PATH_MAX bytes where they are readlink, have answers, one after the other, which are those of one
    -- copy of the tree: each change that is answered with 0 can be made on the tree as the changes answered
    -- with 0 before it have left it, and each look that is answered with 0 gives bytes that show that tree, as
    -- far as they speak of it (`view`). At the end the replicas that are not disabled, of which there is one,
    -- hold this one tree.
    pub handle_all-Serial :
        Links sys
        → (names : ℕ) (qs : List (Cred × Task)) (d : D) (s : State W) → AllRoomy qs
        → Able s.config
        → Rooted ds s.config.replicas
        → Same ds d s.config.replicas s.world
        → Served qs d (handle_all sys names (requests qs) s)
    unfolding handle_all
    handle_all-Serial ln names [] d s h0 a t same = ([], s, d, refl, idle d, same, a)
    handle_all-Serial ln names ((k, edits e) ∷ qs) d s h0 a t same =
        let (r, u) = run_edit sys k e s in
        let (es, f) = (run_edit-keeps sys posix k e s a.alive).1 in
        let t' = subst (Rooted ds) (sym f) (Rooted-marked ds s.config.replicas es t) in
        let a' = Kept-Able s.config u.config (run_edit-Kept sys posix k e s a) a in
        elim (run_edit-Atomic ds posix al priv k e d s t a.alive same) [
          | made d1 z y same' ↦
              let (outs, v, d', b, c, g, h) = handle_all-Serial ln names qs d1 u h0 a' t' same' in
              (
                only r ∷ outs,
                v,
                d',
                handle_all-cons sys names k _ _ (only r) outs s u v (handle-edits sys names k e s)
                    b,
                subst (λ x. Serial ((k, edits e) ∷ qs) (only x ∷ outs) d d') (sym z)
                    (taken k e qs outs d d1 d' y c),
                g,
                h,
              )
          | unmade nz same' ↦
              let (outs, v, d', b, c, g, h) = handle_all-Serial ln names qs d u h0 a' t' same' in
              (
                only r ∷ outs,
                v,
                d',
                handle_all-cons sys names k _ _ (only r) outs s u v (handle-edits sys names k e s)
                    b,
                refused_one k (edits e) r qs outs d d' nz c,
                g,
                h,
              )
        ]
    handle_all-Serial ln names ((k, looks l) ∷ qs) d s h0 a t same =
        let (out, u, e, end, same', (es, f), kept) =
          run_look-LookEnd sh posix al priv ln k l d s h0.0 a t same in
        let t' = subst (Rooted ds) (sym f) (Rooted-marked ds s.config.replicas es t) in
        let (outs, v, d', b, c, g, h) =
          handle_all-Serial ln names qs d u h0.1 (Kept-Able s.config u.config kept a) t' same' in
        (
          with_buf out ∷ outs,
          v,
          d',
          handle_all-cons sys names k _ _ (with_buf out) outs s u v
              (handle-looks sys names k l s ∙ ap (answered with_buf) e) b,
          Serial-look k l out qs outs d d' end c,
          g,
          h,
        )
