-- ===== src/Control/Loop.antt =====
-- How the loop over the requests of a connection ends.
use mathlib.Core.Path.{subst}
use native.Mathlib.Decide.{dec_le}
use chironfs.Base.{
  ℕ, zero, suc, ◌+◌, ◌≤◌, ◌<◌, ℤ, pos, negsuc, is_nonzero, true, false, Option, some, [], ◌∷◌, ◌++◌,
  ◌≡◌, refl, sym, ap, ◌∙◌, ◌⊎◌, inl, inr, arith, length, take, Bool-cases, Returns,
}
use chironfs.Model.{Bytes, Config, Kernel, State, call, read_fd, write_fd}
use chironfs.Wire.{number_of, is_count}
use chironfs.Wire.Stream.{Stream}
use chironfs.Control.{process_request, serve}
use chironfs.Control.Answers.{run_action-Ends}

abbrev drop : ℕ → Bytes → Bytes
drop zero xs = xs
drop (suc n) [] = []
drop (suc n) (x ∷ xs) = drop n xs

take-drop : (n : ℕ) (xs : Bytes) → xs ≡ take n xs ++ drop n xs
take-drop zero xs = refl
take-drop (suc n) [] = refl
take-drop (suc n) (x ∷ xs) = ap (λ ys. x ∷ ys) (take-drop n xs)

length-take_le : (n : ℕ) (xs : Bytes) → n ≤ length xs → length (take n xs) ≡ n
length-take_le zero xs h = refl
length-take_le (suc n) [] h = absurd (omega arith)
length-take_le (suc n) (x ∷ xs) h = ap suc (length-take_le n xs (omega arith))

length-drop : (n : ℕ) (xs : Bytes) → n ≤ length xs → length (drop n xs) + n ≡ length xs
length-drop zero xs h = omega arith
length-drop (suc n) [] h = absurd (omega arith)
length-drop (suc n) (x ∷ xs) h = omega (arith, length-drop n xs (omega arith))

module _ {W : Type 0} (sys : Kernel W) (cfd : ℤ) (st : Stream sys cfd) where
  abbrev pub waiting_bytes : State W → ℕ
  waiting_bytes s = length (st.inbox s.world)

  -- A read takes what it returns off the connection.
  read_takes :
      (n : ℕ) (s : State W)
      → let (r, t) = call sys (read_fd cfd n) s in
        ((n ≤ waiting_bytes s) × (r.ret ≡ pos n) × (waiting_bytes t + n ≡ waiting_bytes s))
        ⊎ ((waiting_bytes s < n) × (r.ret ≡ pos (waiting_bytes s)) × (waiting_bytes t ≡ 0))
  unfolding call
  read_takes n s = elim (dec_le n (waiting_bytes s)) [
    | yes p ↦
        let i = st.inbox s.world in
        let l = length-take_le n i p in
        let r = st.reads s.cred s.world (take n i) (drop n i) (take-drop n i) in
        let q =
          subst
            (λ m.
              let (x, v) = sys s.cred (read_fd cfd m) s.world in
              (x.ret ≡ pos m) × (st.inbox v ≡ drop n i))
            l (r.0, r.2) in
        inl (p, q.0, omega (arith, ap length q.1, length-drop n i p))
    | no p ↦ let r = st.ends s.cred s.world n (omega arith) in inr (omega arith, r.0, ap length r.1)
  ]

  -- No less waits than before only where nothing is read.
  abbrev Shrinks : State W → State W → Type 0
  Shrinks s t = (t.config ≡ s.config) × (waiting_bytes t ≤ waiting_bytes s)

  read-Shrinks : (n : ℕ) (s : State W) → Shrinks s (call sys (read_fd cfd n) s).1
  read-Shrinks n s = elim (read_takes n s) [
    | inl h ↦ (unfold call in refl, omega (arith, h.2))
    | inr h ↦ (unfold call in refl, omega (arith, h.2))
  ]

  write-Shrinks :
      (b : Option Bytes) (n : ℕ) (s : State W) → Shrinks s (call sys (write_fd cfd b n) s).1
  unfolding call
  write-Shrinks b n s = (refl, omega (arith, ap length (st.keeps s.cred s.world b n)))

  Shrinks-trans : (s t u : State W) → Shrinks s t → Shrinks t u → Shrinks s u
  Shrinks-trans s t u a b = (b.0 ∙ a.0, omega (arith, a.1, b.1))

  -- A request takes at least one byte off the connection, or ends it.
  process_request-Shrinks :
      (s : State W)
      → length s.config.replicas ≡ s.config.max_replica
      → (ret : ℤ) × (t : State W) × (process_request sys cfd s ≡ some (ret, t))
        × (t.config ≡ s.config)
        × ((is_nonzero ret ≡ true) ⊎ (waiting_bytes t < waiting_bytes s))
  unfolding process_request call
  process_request-Shrinks s l =
      let (res, u) = call sys (read_fd cfd 1) s in
      elim (read_takes 1 s) [
        | inl (p, one, e) ↦
            let x =
              run_action-Ends sys cfd Shrinks (λ s. (refl, omega arith)) Shrinks-trans read-Shrinks
                write-Shrinks (number_of res.stored) u l in
            let c : is_count 1 res.ret ≡ true = ap (is_count 1) one in
            (x.0, x.1, simp c x.2, x.3.0, inr (omega (arith, x.3.1, e)))
        | inr (p, none_left, e) ↦
            let z : waiting_bytes s ≡ 0 = omega arith in
            let c : is_count 1 res.ret ≡ false = ap (is_count 1) (none_left ∙ ap pos z) in
            (negsuc 0, u, simp c, refl, inl refl)
      ]

  -- The loop over the requests of a connection ends, whatever waits on it, after at most as many
  -- requests as bytes wait and one more. There are as many replicas as the configuration says.
  pub serve_total :
      (n : ℕ) (s : State W)
      → waiting_bytes s < n
      → length s.config.replicas ≡ s.config.max_replica
      → Returns (serve sys cfd n s)
  unfolding serve
  serve_total zero s h l = absurd (omega arith)
  serve_total (suc n) s h l =
      let (ret, t, e, f, q) = process_request-Shrinks s l in
      elim (Bool-cases (is_nonzero ret)) [
        | inl y ↦ (t, simp (e, y))
        | inr z ↦ elim q [
          | inl y ↦ cc
          | inr less ↦
              let l' =
                ap (λ (c : Config). length c.replicas) f
                ∙ l
                ∙ ap (λ (c : Config). c.max_replica) (sym f) in
              let (v, d) = serve_total n t (omega arith) l' in (v, simp (e, z, d))
        ]
      ]
