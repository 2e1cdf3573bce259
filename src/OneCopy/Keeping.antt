-- ===== src/OneCopy/Keeping.antt =====
-- What a request that changes something keeps of the replicas.
use chironfs.Base.{ℤ, true, String, List, [], ◌∷◌, ◌≡◌, sym, ap, ◌∙◌, inl, inr, Bool-cases}
use chironfs.Model.{Bytes, Replica, Cred, Config, Kernel, Posix, State}
use chironfs.Priv.Laws.{reacquire_priv_frame}
use chironfs.Policy.Laws.{marked}
use chironfs.Mirror.{Visit, mirror_body, mirror}
use chironfs.Mirror.Laws.{IsIteration, started, started_frame, has_err_list, with_err_list_none}
use chironfs.Mirror.Outcome.{done, refused, mirror-Outcome, mirror-any_enabled}
use chironfs.Mirror.Survivor.{any_enabled}
use chironfs.OpenFiles.Opening.{marked-nil}
use chironfs.Changes.Proofs.{iteration, iteration-IsIteration, run_change-mirror, name}
use chironfs.Changes.Keeping.{move_iteration, move-IsIteration, run_move-mirror, move_name}
use chironfs.OneCopy.{Edit, change, move, Disks, NotIn, Rooted}
use chironfs.OneCopy.Edits.{run_edit}

NotIn-marked : (p : Bytes) (rs : List Replica) (es : List ℤ) → NotIn p rs → NotIn p (marked rs es)
NotIn-marked p [] es n = n
NotIn-marked p (r ∷ rs) [] n = n
NotIn-marked p (r ∷ rs) (e ∷ es) n = (n.0, NotIn-marked p rs es n.1)

module _ {W : Type 0} {sys : Kernel W} {D : Type 0} (ds : Disks sys D) where
  pub Rooted-marked : (rs : List Replica) (es : List ℤ) → Rooted ds rs → Rooted ds (marked rs es)
  Rooted-marked [] es t = t
  Rooted-marked (r ∷ rs) [] t = t
  Rooted-marked (r ∷ rs) (e ∷ es) ((p, f, i, n), t) =
      ((p, f, i, NotIn-marked p rs es n), Rooted-marked rs es t)

module _ {W : Type 0} (sys : Kernel W) where
  -- A handler only marks replicas.
  mirror-marked :
      (op : String) (context : Cred) (one : Replica → State W → Visit × State W) (s : State W)
      → IsIteration one
      → (es : List ℤ) × ((mirror sys op context one s).1.config.replicas
          ≡ marked s.config.replicas es)
  unfolding mirror
  mirror-marked op context one s it = elim (Bool-cases (has_err_list sys context s)) [
    | inl y ↦ elim (mirror-Outcome sys op context one it s y) [
      | done n r a ↦ (_, a)
      | refused z f a ↦ ([], a ∙ sym (marked-nil s.config.replicas))
    ]
    | inr z ↦
        let u = started sys context s in
        let f = (started_frame sys context s).0 in
        (
          [],
          ap (λ (x : ℤ × State W). x.1.config.replicas)
                (with_err_list_none sys context (mirror_body sys op one) s z)
              ∙ ap (λ (c : Config). c.replicas) ((reacquire_priv_frame sys u).0 ∙ f)
              ∙ sym (marked-nil s.config.replicas),
        )
  ]

  -- What a request keeps of the replicas.
  pub run_edit-keeps :
      Posix sys
      → (context : Cred) (e : Edit) (s : State W) → any_enabled s.config.replicas ≡ true
      → let u = (run_edit sys context e s).1 in
        (any_enabled u.config.replicas ≡ true)
        × ((es : List ℤ) × (u.config.replicas ≡ marked s.config.replicas es))
  run_edit-keeps posix context (change ch) s h = rw (run_change-mirror sys context ch) (
    mirror-any_enabled sys (name ch) context (iteration sys ch) (iteration-IsIteration sys posix ch)
        s h,
    mirror-marked (name ch) context (iteration sys ch) s (iteration-IsIteration sys posix ch),
  )
  run_edit-keeps posix context (move mv) s h = rw (run_move-mirror sys context mv) (
    mirror-any_enabled sys (move_name mv) context (move_iteration sys context mv)
        (move-IsIteration sys context posix mv) s h,
    mirror-marked (move_name mv) context (move_iteration sys context mv) s
        (move-IsIteration sys context posix mv),
  )
