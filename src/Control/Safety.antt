-- ===== src/Control/Safety.antt =====
-- How an answer on the control socket ends.
use chironfs.Base.{ℤ, Option, some, ◌≡◌, refl, length}
use chironfs.Model.{Kernel, State, call}
use chironfs.Mirror.Laws.{SameButWorld, SameButWorld-trans}
use chironfs.Control.Answers.{process_request-Ends}
use chironfs.Control.{process_request}

module _ {W : Type 0} where
  -- The request is answered, and nothing but the world changes.
  abbrev pub Answered : State W → Option (ℤ × State W) → Type 0
  Answered s o = (ret : ℤ) × (t : State W) × (o ≡ some (ret, t)) × SameButWorld s t

module _ {W : Type 0} (sys : Kernel W) (cfd : ℤ) where
  -- Whatever a client of the control socket sends, and whatever the reads and writes of it return,
  -- process_request ends without a read outside the replicas, and changes neither the configuration
  -- nor the log nor the effective user and group. There are as many replicas as the configuration
  -- says.
  pub process_request-Answered :
      (s : State W)
      → length s.config.replicas ≡ s.config.max_replica
      → Answered s (process_request sys cfd s)
  unfolding call
  process_request-Answered s l =
      process_request-Ends sys cfd SameButWorld (λ s. (refl, refl, refl)) SameButWorld-trans
        (λ n s. (refl, refl, refl)) (λ b n s. (refl, refl, refl)) s l
