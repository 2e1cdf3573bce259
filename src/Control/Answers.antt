-- ===== src/Control/Answers.antt =====
-- A relation between states that the reads and writes of process_request keep, it keeps as a whole.
use chironfs.Base.{
  ℕ, ℤ, pos, negsuc, Bool, true, false, not, ◌||◌, ◌==◌, is_negative, leb, if◌then◌else◌, Option,
  some, ◌≡◌, refl, arith, Bool-cases, inl, inr, length,
}
use chironfs.Model.{Bytes, Replica, read_fd, write_fd, Kernel, State, call}
use chironfs.Scan.Total.{get_elem?-lt}
use chironfs.Wire.{
  is_count, number_of, bytes_of, get_max_replica, get_replica_status, get_replica_path,
  get_replica_total_read, get_replica_total_write, get_replica_priority, done,
}
use chironfs.Control.{send, send_path, about_replica, run_action, process_request}

module _ {W : Type 0} (R : State W → State W → Type 0) (s : State W) where
  -- The code returns, in a state that is related to the one in which it started.
  abbrev pub Ends : Option (ℤ × State W) → Type 0
  Ends o = (ret : ℤ) × (t : State W) × (o ≡ some (ret, t)) × R s t

module _ {W : Type 0} (sys : Kernel W) (cfd : ℤ) (R : State W → State W → Type 0)
    (here : (s : State W) → R s s) (onward : (s t u : State W) → R s t → R t u → R s u)
    (read : (n : ℕ) (s : State W) → R s (call sys (read_fd cfd n) s).1)
    (write : (b : Option Bytes) (n : ℕ) (s : State W) → R s (call sys (write_fd cfd b n) s).1) where
  send_frame : (buf : Option Bytes) (n : ℕ) (s : State W) → R s (send sys cfd buf n s).1
  unfolding send
  send_frame buf n s = elim (Bool-cases (is_count n (call sys (write_fd cfd buf n) s).0.ret)) [
    | inl y ↦ rw y (write buf n s)
    | inr z ↦ rw z (write buf n s)
  ]

  send_path_frame : (r : Replica) (s : State W) → R s (send_path sys cfd r s).1
  unfolding send_path
  send_path_frame r s =
      let (sent, t) = send sys cfd (some (bytes_of 8 r.pathlen)) 8 s in
      let a = send_frame (some (bytes_of 8 r.pathlen)) 8 s in
      let b = onward s t (send sys cfd r.path r.pathlen t).1 a (send_frame r.path r.pathlen t) in
      elim (Bool-cases (is_negative sent)) [ inl y ↦ rw y a | inr z ↦ rw z b ]

  about_replica-Ends :
      (reply : Replica → State W → ℤ × State W)
      → ((r : Replica) (u : State W) → R u (reply r u).1)
      → (s : State W) → length s.config.replicas ≡ s.config.max_replica
      → Ends R s (about_replica sys cfd reply s)
  unfolding about_replica call
  about_replica-Ends reply h s l =
      let (res, u) = call sys (read_fd cfd 4) s in
      let c = number_of res.stored in
      elim (Bool-cases (not (is_count 4 res.ret) || leb s.config.max_replica c)) [
        | inl y ↦ (negsuc 0, u, rw y refl, read 4 s)
        | inr z ↦
            let (r, g) = get_elem?-lt s.config.replicas c (ground (arith, z, l)) in
            ((reply r u).0, (reply r u).1, simp (z, g), onward s u (reply r u).1 (read 4 s) (h r u))
      ]

  Ends-if :
      (b : Bool) (s : State W) (x y : Option (ℤ × State W))
      → Ends R s x
      → Ends R s y
      → Ends R s (if b then x else y)
  Ends-if true s x y p q = p
  Ends-if false s x y p q = q

  sent-Ends : (buf : Option Bytes) (n : ℕ) (s : State W) → Ends R s (some (send sys cfd buf n s))
  sent-Ends buf n s = ((send sys cfd buf n s).0, (send sys cfd buf n s).1, refl, send_frame buf n s)

  pub run_action-Ends :
      (code : ℕ) (s : State W)
      → length s.config.replicas ≡ s.config.max_replica
      → Ends R s (run_action sys cfd code s)
  unfolding run_action
  run_action-Ends code s l =
      let about : (buf : Replica → Option Bytes) (n : ℕ)
          → Ends R s (about_replica sys cfd (λ r. send sys cfd (buf r) n) s) =
        λ buf n. about_replica-Ends _ (λ r. send_frame (buf r) n) s l in
      Ends-if (code == get_max_replica) s _ _ (sent-Ends _ 4 s) (
        Ends-if (code == get_replica_status) s _ _ (about _ 4) (
          Ends-if (code == get_replica_path) s _ _
            (about_replica-Ends (send_path sys cfd) send_path_frame s l)
            (Ends-if (code == get_replica_total_read) s _ _ (about _ 8) (
              Ends-if (code == get_replica_total_write) s _ _ (about _ 8) (
                Ends-if (code == get_replica_priority) s _ _ (about _ 4) (
                  Ends-if (code == done) s _ _ (negsuc 0, s, refl, here s)
                    (pos 0, s, refl, here s)))))))

  pub process_request-Ends :
      (s : State W)
      → length s.config.replicas ≡ s.config.max_replica
      → Ends R s (process_request sys cfd s)
  unfolding process_request call
  process_request-Ends s l =
      let (res, u) = call sys (read_fd cfd 1) s in
      let x = run_action-Ends (number_of res.stored) u l in
      Ends-if (is_count 1 res.ret) s _ _ (x.0, x.1, x.2, onward s u x.1 (read 1 s) x.3)
        (negsuc 0, u, refl, read 1 s)
