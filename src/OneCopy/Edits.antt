-- ===== src/OneCopy/Edits.antt =====
-- The handlers of requests with one path and with two, on the trees of the replicas.
use mathlib.Core.Path.{subst}
use chironfs.Base.{
  ℕ, ◌+◌, ℤ, neg, is_nonzero, true, false, some, ◌++◌, ◌≡◌, ◌≢◌, refl, ◌∙◌, inl, inr, Bool-cases,
  length,
}
use chironfs.Model.{Bytes, Replica, Cred, Call, malloc, Kernel, Posix, State, call}
use chironfs.Priv.Laws.{Privileged}
use chironfs.Mirror.{Visit, skipped, xlate, try_call, visit}
use chironfs.Mirror.Laws.{ErrorOf, IsBody, try_call_nonzero, call_frame}
use chironfs.Mirror.Calls.{Allocates}
use chironfs.Mirror.Survivor.{any_enabled}
use chironfs.Namespace.{with_fname_to}
use chironfs.Changes.{Change, Move, run_change, run_move, target, system_call}
use chironfs.Changes.Proofs.{
  failure_test, iteration, iteration-IsIteration, call-IsBody, run_change-mirror, name,
}
use chironfs.Changes.Keeping.{
  move_call, move_call-zero, move_from, move_to, move_iteration, move-IsIteration, run_move-mirror,
  move_name,
}
use chironfs.OneCopy.{Edit, change, move, edit_call, edit_failed, Disks, Rooted, Same}
use chironfs.OneCopy.Loop.{Made, Visited, Visits}
use chironfs.OneCopy.Request.{Atomic, mirror-Atomic}

module _ {W : Type 0} (sys : Kernel W) (al : Allocates sys) where
  -- The state after the path of a replica has been put before a path.
  abbrev named : Bytes → Bytes → State W → State W
  named p path s = (call sys (malloc (1 + length p + length path)) s).1

  xlate-some :
      (path : Bytes) (r : Replica) (p : Bytes) (s : State W)
      → r.path ≡ some p
      → xlate sys path r.path s ≡ (some (p ++ path), named p path s)
  unfolding xlate call
  xlate-some path r p s e = simp (e, (al s.cred (1 + length p + length path) 0 s.world).0)

  visit_enabled :
      (body : Bytes → State W → Visit × State W) (path : Bytes) (r : Replica) (p : Bytes)
      (s : State W)
      → r.disabled ≡ false
      → r.path ≡ some p
      → visit sys body path r s ≡ body (p ++ path) (named p path s)
  unfolding visit
  visit_enabled body path r p s d e = simp (d, xlate-some path r p s e)

  visit_disabled :
      (body : Bytes → State W → Visit × State W) (path : Bytes) (r : Replica) (s : State W)
      → r.disabled ≡ true
      → visit sys body path r s ≡ (skipped, s)
  unfolding visit
  visit_disabled body path r s d = simp d

  with_fname_to-some :
      (context : Cred) (op : Bytes → Bytes → Call) (to : Bytes) (r : Replica) (p f : Bytes)
      (s : State W)
      → r.path ≡ some p
      → with_fname_to sys context op to r f s
        ≡ try_call sys is_nonzero (op f (p ++ to)) (named p to s)
  unfolding with_fname_to
  with_fname_to-some context op to r p f s e = simp (with_fname_to, xlate-some to r p s e)

module _ {W : Type 0} (sys : Kernel W) where
  -- The handler of a request.
  abbrev pub run_edit : Cred → Edit → State W → ℤ × State W
  run_edit context (change ch) s = run_change sys context ch s
  run_edit context (move mv) s = run_move sys context mv s

module _ {W : Type 0} {sys : Kernel W} {D : Type 0} (ds : Disks sys D) where
  named-disk :
      (c : Call) (q : Bytes) (s : State W) (n : ℕ)
      → c ≡ malloc n
      → ds.disk q (call sys c s).1.world ≡ ds.disk q s.world
  unfolding call
  named-disk c q s n e = rw e (ds.silent s.cred (malloc n) q s.world refl)

  try_call-Made :
      (k : Cred) (e : Edit) (r : Replica) (p : Bytes) (t : State W)
      → ErrorOf (try_call sys (edit_failed e) (edit_call e p) t).0
      → r.disabled ≡ false
      → ds.is_root p ≡ true
      → t.cred ≡ k
      → let out = try_call sys (edit_failed e) (edit_call e p) t in
        Made ds k e r out.0 (ds.disk p t.world) (ds.disk p out.1.world)
  unfolding try_call call
  try_call-Made k e r p t err on root c =
      let res = sys t.cred (edit_call e p) t.world in
      elim (Bool-cases (edit_failed e res.0.ret)) [
        | inl bad ↦ rw bad (on, error_of bad err, ds.fails t.cred e p t.world root bad)
        | inr ok ↦ rw ok (
          on,
          subst (λ x. ds.act x e (ds.disk p t.world) ≡ some (ds.disk p res.1)) c
              (ds.succeeds t.cred e p t.world root ok),
        )
      ]
    where
      error_of :
          edit_failed e (sys t.cred (edit_call e p) t.world).0.ret ≡ true
          → ErrorOf (try_call sys (edit_failed e) (edit_call e p) t).0
          → is_nonzero (neg (sys t.cred (edit_call e p) t.world).0.errno) ≡ true
      error_of bad = rw bad (λ h. h)

  try_call-others :
      (e : Edit) (p q : Bytes) (t : State W)
      → ds.is_root p ≡ true
      → ds.is_root q ≡ true
      → p ≢ q
      → ds.disk q (try_call sys (edit_failed e) (edit_call e p) t).1.world ≡ ds.disk q t.world
  unfolding try_call call
  try_call-others e p q t i j n =
      elim (Bool-cases (edit_failed e (sys t.cred (edit_call e p) t.world).0.ret)) [
        | inl bad ↦ rw bad (ds.apart t.cred e p q t.world i j n)
        | inr ok ↦ rw ok (ds.apart t.cred e p q t.world i j n)
      ]

  -- A visit that comes to the call of the request, from a state with the same trees.
  Visited-try :
      (k : Cred) (e : Edit) (r : Replica) (p : Bytes) (s t : State W)
      → IsBody (try_call sys (edit_failed e) (edit_call e p))
      → r.disabled ≡ false
      → ds.is_root p ≡ true
      → s.cred ≡ k
      → t.cred ≡ s.cred
      → ((q : Bytes) → ds.disk q t.world ≡ ds.disk q s.world)
      → Visited ds k e r p s (try_call sys (edit_failed e) (edit_call e p) t)
  Visited-try k e r p s t body on root c same d = record {
    made =
        subst
          (λ x.
            Made ds k e r (try_call sys (edit_failed e) (edit_call e p) t).0 x
              (ds.disk p (try_call sys (edit_failed e) (edit_call e p) t).1.world))
          (d p) (try_call-Made k e r p t (body t).0 on root (same ∙ c));
    others = λ q i n. try_call-others e p q t root i n ∙ d q;
    cred = (body t).1.1 ∙ same;
  }

  Visited-skipped :
      (k : Cred) (e : Edit) (r : Replica) (p : Bytes) (s : State W)
      → r.disabled ≡ true
      → Visited ds k e r p s (skipped, s)
  Visited-skipped k e r p s off = record { made = (off, refl); others = λ q i n. refl; cred = refl }

  module _ (posix : Posix sys) (al : Allocates sys) where
    change-Visits : (k : Cred) (ch : Change) → Visits ds k (change ch) (iteration sys ch)
    change-Visits k ch r p s e root c =
        let body = λ (f : Bytes). try_call sys (failure_test ch) (system_call ch f) in
        let t = named sys al p (target ch) s in
        elim (Bool-cases r.disabled) [
          | inl off ↦
              rw (visit_disabled sys al body (target ch) r s off)
                (Visited-skipped k (change ch) r p s off)
          | inr on ↦ rw (visit_enabled sys al body (target ch) r p s on e) (
              Visited-try k (change ch) r p s t (call-IsBody sys posix ch (p ++ target ch)) on root
                c (call_frame sys _ s).1 (λ q. named-disk _ q s _ refl))
        ]

    move-Visits :
        (context k : Cred) (mv : Move) → Visits ds k (move mv) (move_iteration sys context mv)
    move-Visits context k mv r p s e root c =
        let body = with_fname_to sys context (move_call mv) (move_to mv) r in
        let t = named sys al p (move_from mv) s in
        let u = named sys al p (move_to mv) t in
        elim (Bool-cases r.disabled) [
          | inl off ↦
              rw (visit_disabled sys al body (move_from mv) r s off)
                (Visited-skipped k (move mv) r p s off)
          | inr on ↦
              rw
                (
                  visit_enabled sys al body (move_from mv) r p s on e,
                  with_fname_to-some sys al context (move_call mv) (move_to mv) r p
                      (p ++ move_from mv) t e,
                )
                (Visited-try k (move mv) r p s u
                  (try_call_nonzero sys posix (move_call mv (p ++ move_from mv) (p ++ move_to mv))
                    (move_call-zero mv (p ++ move_from mv) (p ++ move_to mv)))
                  on root c ((call_frame sys _ t).1 ∙ (call_frame sys _ s).1)
                  (λ q. named-disk _ q t _ refl ∙ named-disk _ q s _ refl))
        ]

  -- If memory is found, the program may change its effective user and group, failed calls set errno, and
  -- calls on the trees of the replicas do what `Disks` says, then a request that changes something, on
  -- replicas of which one is not disabled and which have each a tree of its own, the same one if they are not
  -- disabled, is made on all or on none: it returns 0 and every replica that is not disabled afterwards
  -- holds the result, or it does not return 0 and every one of them holds the tree from before.
  pub run_edit-Atomic :
      Posix sys
      → Allocates sys
      → Privileged sys
      → (context : Cred) (e : Edit) (d : D) (s : State W) → Rooted ds s.config.replicas
      → any_enabled s.config.replicas ≡ true
      → Same ds d s.config.replicas s.world
      → let out = run_edit sys context e s in
        Atomic ds context e d out.0 out.1.config.replicas out.1.world
  run_edit-Atomic posix al priv context (change ch) d s t h same =
      rw (run_change-mirror sys context ch) (
        mirror-Atomic ds priv (name ch) context (iteration sys ch) (change ch) d s
          (iteration-IsIteration sys posix ch) (change-Visits posix al context ch) t h same)
  run_edit-Atomic posix al priv context (move mv) d s t h same =
      rw (run_move-mirror sys context mv) (
        mirror-Atomic ds priv (move_name mv) context (move_iteration sys context mv) (move mv) d s
          (move-IsIteration sys context posix mv) (move-Visits posix al context context mv) t h
          same)
