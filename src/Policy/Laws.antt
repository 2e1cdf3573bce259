-- ===== src/Policy/Laws.antt =====
-- What `disable_faulty_replicas` and `get_first_error` do to each replica.
use chironfs.Base.{
  ℕ, zero, suc, ◌<◌, ℤ, pos, is_nonzero, true, false, not, ◌||◌, ◌&&◌, ◌==◌, String, some, List, [],
  ◌∷◌, ◌≡◌, refl, if◌then◌else◌, get_elem?, arith, Bool-cases, inl, inr, Option, ltb,
}
use chironfs.Model.{Bytes, Replica, State}
use chironfs.Log.{log}
use chironfs.Policy.{disable_replica, disable_loop, disable_faulty_replicas, get_first_error}

-- The replica with the error `e` of an operation that succeeded elsewhere.
abbrev pub mark : Replica → ℤ → Replica
mark r e = record r { disabled = r.disabled || is_nonzero e }

abbrev pub marked : List Replica → List ℤ → List Replica
marked [] es = []
marked (r ∷ rs) [] = r ∷ rs
marked (r ∷ rs) (e ∷ es) = mark r e ∷ marked rs es

pub get_elem?-marked :
    (rs : List Replica) (es : List ℤ) (i : ℕ) (r : Replica) (e : ℤ)
    → get_elem? rs i ≡ some r
    → get_elem? es i ≡ some e
    → get_elem? (marked rs es) i ≡ some (mark r e)
get_elem?-marked [] es i r e h k = cc
get_elem?-marked (x ∷ rs) [] i r e h k = cc
get_elem?-marked (x ∷ rs) (y ∷ es) zero r e h k = ground arith
get_elem?-marked (x ∷ rs) (y ∷ es) (suc i) r e h k = get_elem?-marked rs es i r e h k

module _ {W : Type 0} where
  -- Every part of the state but the log is the same.
  abbrev pub SameButLog : State W → State W → Type 0
  SameButLog s t = (t.config ≡ s.config) × (t.cred ≡ s.cred) × (t.world ≡ s.world)

  pub log_frame : (f : String) (p : Option Bytes) (e : ℤ) (s : State W) → SameButLog s (log f p e s)
  unfolding log
  log_frame f p e s = ground arith

  turn_frame :
      (op : String) (r : Replica) (e : ℤ) (s : State W)
      → SameButLog s (log "disabling replica" r.path (pos 0) (log op r.path e s))
  turn_frame op r e s = ground (
    arith,
    log_frame op r.path e s,
    log_frame "disabling replica" r.path (pos 0) (log op r.path e s),
  )

  pub disable_loop_lem :
      (op : String) (rs : List Replica) (es : List ℤ) (s : State W)
      → ((disable_loop op rs es s).0 ≡ marked rs es) × SameButLog s (disable_loop op rs es s).1
  unfolding disable_loop disable_replica
  disable_loop_lem op [] es s = (refl, (refl, refl, refl))
  disable_loop_lem op (r ∷ rs) [] s = (refl, (refl, refl, refl))
  disable_loop_lem op (r ∷ rs) (e ∷ es) s = elim (Bool-cases (not r.disabled && is_nonzero e)) [
    | inl hit ↦
        let t : State W = log "disabling replica" r.path (pos 0) (log op r.path e s) in
        rw hit (ground (arith, turn_frame op r e s, disable_loop_lem op rs es t))
    | inr miss ↦ rw miss (ground (arith, disable_loop_lem op rs es s))
  ]

  -- The state after `disable_faulty_replicas`: nothing but the replicas and the log is changed.
  pub disable_faulty_replicas_lem :
      (op : String) (sc fc : ℕ) (es : List ℤ) (s : State W)
      → let t = disable_faulty_replicas op sc fc es s in
        (t.config ≡ record (s.config) {
          replicas =
              if not (fc == 0) && not (sc == 0)
              then marked s.config.replicas es
              else s.config.replicas;
        })
        × (t.cred ≡ s.cred)
        × (t.world ≡ s.world)
  unfolding disable_faulty_replicas
  disable_faulty_replicas_lem op sc fc es s = elim (Bool-cases (not (fc == 0) && not (sc == 0))) [
    | inl hit ↦ rw hit (ground (arith, disable_loop_lem op s.config.replicas es s))
    | inr miss ↦ rw miss (refl, refl, refl)
  ]

  -- After `disable_faulty_replicas` a replica is disabled exactly if it was disabled before, or its
  -- entry of `err_list` is not 0 and both counts are positive; nothing else of it changes.
  pub disable_faulty_replicas-exact :
      (op : String) (sc fc : ℕ) (es : List ℤ) (s : State W) (i : ℕ) (r : Replica) (e : ℤ)
      → get_elem? s.config.replicas i ≡ some r
      → get_elem? es i ≡ some e
      → get_elem? (disable_faulty_replicas op sc fc es s).config.replicas i
        ≡ some (record r { disabled = r.disabled || (is_nonzero e && (ltb 0 fc && ltb 0 sc)) })
  disable_faulty_replicas-exact op sc fc es s i r e h k = ground (
    arith,
    disable_faulty_replicas_lem op sc fc es s,
    get_elem?-marked s.config.replicas es i r e h k,
  )

-- What `get_first_error` looks for: an entry that is not 0 of a replica that is not disabled, with
-- none before it; and 0 if there is no such entry at all.
pub data FirstError (rs : List Replica) (es : List ℤ) (e : ℤ) : Type 0 where
  found :
      (i : ℕ) (r : Replica)
      → get_elem? rs i ≡ some r
      → get_elem? es i ≡ some e
      → r.disabled ≡ false
      → is_nonzero e ≡ true
      → ((j : ℕ) (q : Replica) (d : ℤ)
          → j < i
          → get_elem? rs j ≡ some q
          → get_elem? es j ≡ some d
          → q.disabled ≡ false
          → d ≡ pos 0)
      → FirstError rs es e
  clean :
      e ≡ pos 0
      → ((j : ℕ) (q : Replica) (d : ℤ)
          → get_elem? rs j ≡ some q
          → get_elem? es j ≡ some d
          → q.disabled ≡ false
          → d ≡ pos 0)
      → FirstError rs es e

is_nonzero-false : (e : ℤ) → is_nonzero e ≡ false → e ≡ pos 0
is_nonzero-false e h = ground arith

FirstError-cons :
    (r : Replica) (e : ℤ) (rs : List Replica) (es : List ℤ) (x : ℤ)
    → (not r.disabled && is_nonzero e) ≡ false
    → FirstError rs es x
    → FirstError (r ∷ rs) (e ∷ es) x
FirstError-cons r e rs es x h (found i q a b c d f) = found (suc i) q a b c d skip
  where
    skip :
        (j : ℕ) (p : Replica) (y : ℤ)
        → j < suc i
        → get_elem? (r ∷ rs) j ≡ some p
        → get_elem? (e ∷ es) j ≡ some y
        → p.disabled ≡ false
        → y ≡ pos 0
    skip zero p y l u v w = ground (arith, is_nonzero-false e)
    skip (suc j) p y l u v w = f j p y (omega arith) u v w
FirstError-cons r e rs es x h (clean z f) = clean z skip
  where
    skip :
        (j : ℕ) (p : Replica) (y : ℤ)
        → get_elem? (r ∷ rs) j ≡ some p
        → get_elem? (e ∷ es) j ≡ some y
        → p.disabled ≡ false
        → y ≡ pos 0
    skip zero p y u v w = ground (arith, is_nonzero-false e)
    skip (suc j) p y u v w = f j p y u v w

-- `get_first_error` returns the first entry of `err_list` that is not 0 and belongs to a replica that
-- is not disabled, and 0 if there is no such entry.
pub get_first_error-FirstError :
    (rs : List Replica) (es : List ℤ) → FirstError rs es (get_first_error rs es)
unfolding get_first_error
get_first_error-FirstError [] es = clean refl (λ j q d u v w. cc)
get_first_error-FirstError (r ∷ rs) [] = clean refl (λ j q d u v w. cc)
get_first_error-FirstError (r ∷ rs) (e ∷ es) = elim (Bool-cases (not r.disabled && is_nonzero e)) [
  | inl hit ↦
      rw hit
        (found zero r refl refl (ground arith) (ground arith) (λ j q d l. absurd (omega arith)))
  | inr miss ↦ rw miss (FirstError-cons r e rs es _ miss (get_first_error-FirstError rs es))
]
