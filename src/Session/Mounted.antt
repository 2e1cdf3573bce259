-- ===== src/Session/Mounted.antt =====
-- The requests from the mount on.
use mathlib.Core.Path.{subst}
use mathlib.Core.Option.{some-injective}
use chironfs.Base.{ℕ, suc, ◌<◌, ◌^◌, true, some, List, ◌∷◌, ◌≡◌, sym, ◌∙◌, length, ℤ}
use chironfs.Model.{Bytes, Kernel, Posix, State}
use chironfs.Directory.Proofs.{Listing}
use chironfs.Invariant.{Sane}
use chironfs.Mount.{Mounting, ready, do_mount}
use chironfs.Mount.Joined.{joined, plain, all_plain}
use chironfs.Mount.Ending.{any_high, Fits}
use chironfs.Mount.Startup.{Fresh, Roomy}
use chironfs.Mount.Established.{do_mount_total}
use chironfs.Session.Reach.{Reach, Reach-Sane}
use chironfs.Control.Safety
use chironfs.Control.{process_request}
use chironfs.Lookup.Links.{Links}

module _ {W : Type 0} (sys : Kernel W) where
  ready-Sane : (n : ℕ) (m : Mounting W) (t : State W) → Fits n m → m ≡ ready t → Sane t.config
  ready-Sane n m t f e = (subst (Fits n) e f).1

  -- If do_mount is ready, from the configuration with which the program starts and for an argument that joins
  -- by '=' a list of tokens without '=', one of them of high priority, which strtok takes apart again, with room
  -- for enough files and fewer than 2^31, then in every state that requests of FUSE, whose handles are indices
  -- of slots and whose readlinks have room for PATH_MAX bytes, and requests of the control socket lead to, in
  -- whatever order they come, the configuration is sane (Invariant.Sane), and the control server can answer its
  -- next request there. Failed calls set errno, directories have an end, and targets of links have fewer than
  -- PATH_MAX bytes.
  pub do_mount-Reach :
      Posix sys
      → (most : ℕ) → Listing sys most
      → Links sys
      → (strtok : Bytes → List Bytes) (token : Bytes) (tokens : List Bytes) (s t u : State W)
      → strtok (joined token tokens) ≡ token ∷ tokens
      → plain token ≡ true
      → all_plain tokens ≡ true
      → any_high (token ∷ tokens) ≡ true
      → suc (length tokens) < 2 ^ 31
      → Fresh s.config
      → Roomy sys (suc (length tokens))
      → do_mount sys strtok (joined token tokens) s ≡ some (ready t)
      → Reach sys (suc most) t u
      → (cfd : ℤ) → Sane u.config × Safety.Answered u (process_request sys cfd u)
  do_mount-Reach posix most ls ln strtok token tokens s t u e p q h b f room r reach cfd =
      let (m, d, fits) = do_mount_total sys strtok token tokens s e p q h b f room in
      Reach-Sane sys posix most ls ln t u
        (ready-Sane (suc (length tokens)) m t fits (some-injective m (ready t) (sym d ∙ r))) reach
        cfd
