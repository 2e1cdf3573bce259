-- ===== src/Session/Reach.antt =====
-- The states that requests of FUSE and of the control socket, in any order, lead to. The control server is a
-- thread of its own, which runs between the requests.
use chironfs.Lookup.Links.{Links}
use mathlib.Core.Path.{subst}
use mathlib.Core.Option.{some-injective}
use chironfs.Base.{ℕ, suc, ℤ, some, ◌≡◌, sym, ◌∙◌}
use chironfs.Model.{Cred, Kernel, Posix, State}
use chironfs.Control.{process_request}
use chironfs.Control.Safety
use chironfs.Control.Safety.{process_request-Answered}
use chironfs.Directory.Proofs.{Listing}
use chironfs.Invariant.{Sane}
use chironfs.Session.{Request, Answer, handle}
use chironfs.Session.Answered.{Proper, handle-Answered}

module _ {W : Type 0} (sys : Kernel W) (names : ℕ) where
  -- One request of FUSE, whose handle is the index of a slot, or one of a client of the control socket.
  pub data Step (s t : State W) : Type 0 where
    handled :
        (k : Cred) (q : Request) (a : Answer)
        → Proper s.config.fd_buf_size q
        → handle sys names k q s ≡ some (a, t)
        → Step s t
    polled : (cfd ret : ℤ) → process_request sys cfd s ≡ some (ret, t) → Step s t

  -- Some steps lead from `s` to the state.
  pub data Reach (s : State W) : State W → Type 0 where
    here : Reach s s
    onward : (t u : State W) → Reach s t → Step t u → Reach s u

module _ {W : Type 0} (sys : Kernel W) (posix : Posix sys) (most : ℕ) (ls : Listing sys most)
    (ln : Links sys) where
  Step-Sane : (s t : State W) → Sane s.config → Step sys (suc most) s t → Sane t.config
  Step-Sane s t a (handled k q x p e) =
      let (y, u, f, h, o) = handle-Answered sys posix most ls ln k q s a p in
      subst (λ (z : Answer × State W). Sane z.1.config) (some-injective (y, u) (x, t) (sym f ∙ e))
        h.sane
  Step-Sane s t a (polled cfd ret e) =
      let (r, u, f, same) = process_request-Answered sys cfd s a.able.mounted.count in
      subst (λ (z : ℤ × State W). Sane z.1.config) (some-injective (r, u) (ret, t) (sym f ∙ e))
        (subst Sane (sym same.0) a)

  -- If failed calls set errno, directories have an end, and targets of links have fewer than PATH_MAX bytes, then
  -- in every state that requests of FUSE, whose handles are indices of slots and whose readlinks have room for
  -- PATH_MAX bytes, and requests of the control socket lead to, in whatever order they come,
  -- the configuration is sane (Invariant.Sane), if it was at the start; and the control server can answer
  -- its next request there, without a read outside the replicas.
  pub Reach-Sane :
      (s t : State W)
      → Sane s.config
      → Reach sys (suc most) s t
      → (cfd : ℤ) → Sane t.config × Safety.Answered t (process_request sys cfd t)
  Reach-Sane s t a r cfd =
      let b = reached s t a r in (b, process_request-Answered sys cfd t b.able.mounted.count)
    where
      reached : (s t : State W) → Sane s.config → Reach sys (suc most) s t → Sane t.config
      reached s _ a here = a
      reached s _ a (onward u v r st) = Step-Sane u v (reached s u a r) st
