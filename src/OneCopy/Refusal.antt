-- ===== src/OneCopy/Refusal.antt =====
-- Where no replica serves a request that only looks, the handler reports an error.
use mathlib.Core.Path.{subst}
use mathlib.Core.Option.{some-injective}
use chironfs.Base.{
  ℕ, zero, suc, ◌+◌, ◌<◌, ℤ, pos, neg, is_nonzero, is_negative, true, false, none, some, List, [],
  ◌∷◌, ◌++◌, ◌≡◌, ◌≢◌, refl, sym, ap, ◌∙◌, inl, inr, arith, Bool-cases, Option-cases, length,
  get_elem?, length-replicate,
}
use chironfs.Model.{Bytes, Replica, Cred, malloc, lstat, access, Config, Kernel, Posix}
use chironfs.Policy.{get_first_error}
use chironfs.Policy.Laws.{FirstError, found, clean, get_first_error-FirstError}
use chironfs.Mirror.Calls.{Allocates}
use chironfs.Mirror.Survivor.{any_enabled}
use chironfs.Choose.Spread.{Spread}
use chironfs.Choose.Cover.{order_of-Occurs}
use chironfs.Scan.{Attempt, passed, missed, served}
use chironfs.Scan.Total.{Mounted}
use chironfs.Scan.Reference.{order_of, nothing, walk}
use chironfs.Scan.Tried.{IsError, Tries, walk-IsError}
use chironfs.Lookup.Served.{lookup_step}
use chironfs.OneCopy.{Disks, Rooted}
use chironfs.OneCopy.Looks.{
  Look, look_getattr, look_access, look_readlink, look_path, look_call, look_failed,
}

IsError-entry :
    (es : List ℤ) (j : ℕ)
    → IsError es j
    → (x : ℤ) × (get_elem? es j ≡ some x) × (is_nonzero x ≡ true)
IsError-entry [] j h = cc
IsError-entry (x ∷ es) zero h = (x, refl, h)
IsError-entry (x ∷ es) (suc j) h = IsError-entry es j h

first-IsError :
    (rs : List Replica) (es : List ℤ) (e : ℤ) (j : ℕ) (r : Replica)
    → get_elem? rs j ≡ some r
    → r.disabled ≡ false
    → IsError es j
    → FirstError rs es e
    → is_nonzero e ≡ true
first-IsError rs es e j r g on h (found i q a b c n f) = n
first-IsError rs es e j r g on h (clean z f) =
    let (x, b, n) = IsError-entry es j h in let same = ap is_nonzero (f j r x g b on) in cc

enabled_at :
    (rs : List Replica)
    → any_enabled rs ≡ true
    → (j : ℕ) × (r : Replica) × (get_elem? rs j ≡ some r) × (r.disabled ≡ false) × (j < length rs)
enabled_at [] h = cc
enabled_at (r ∷ rs) h = elim (Bool-cases r.disabled) [
  | inl off ↦ let (j, q, g, on, l) = enabled_at rs (ground arith) in (suc j, q, g, on, omega arith)
  | inr on ↦ (0, r, refl, on, omega arith)
]

neg-nonzero : (n : ℕ) → 0 < n → is_nonzero (neg n) ≡ true
neg-nonzero zero h = absurd (omega arith)
neg-nonzero (suc n) h = refl

module _ {W : Type 0} (sys : Kernel W) (posix : Posix sys) where
  look_failed-errno :
      (k : Cred) (l : Look) (f : Bytes) (w : W)
      → let res = (sys k (look_call l f) w).0 in
        look_failed l res.ret ≡ true → is_nonzero (neg res.errno) ≡ true
  look_failed-errno k l f w h = neg-nonzero _ (posix.sets_errno k (look_call l f) w (negative l h))
    where
      negative :
          (l : Look)
          → look_failed l (sys k (look_call l f) w).0.ret ≡ true
          → is_negative (sys k (look_call l f) w).0.ret ≡ true
      negative (look_getattr path) h = sym (posix.zero_or_negative k (lstat f) w refl) ∙ h
      negative (look_access path mask) h = sym (posix.zero_or_negative k (access f mask) w refl) ∙ h
      negative (look_readlink path size) h = ground arith

  module _ (al : Allocates sys) (k : Cred) (l : Look) (rs : List Replica) (j : ℕ) (r : Replica)
      (p : Bytes) (g : get_elem? rs j ≡ some r) (on : r.disabled ≡ false)
      (f : r.path ≡ some p) where
    abbrev step : ℕ → W → Attempt × W
    step = lookup_step sys (look_failed l) (look_call l) (look_path l) k rs

    -- A replica that is not disabled is not passed over.
    not_passed : (i : ℕ) (q : Replica) → get_elem? rs i ≡ some q → q.disabled ≡ true → i ≢ j
    not_passed i q h off e =
        let same = some-injective q r (sym h ∙ ap (get_elem? rs) e ∙ g) in
        let x = ap (λ (z : Replica). z.disabled) same in cc

    step-Tries : (i : ℕ) (w : W) → Tries step j i (step i w).0
    unfolding lookup_step
    step-Tries i w = elim (Option-cases (get_elem? rs i)) [
      | inl z ↦ at passed (simp (lookup_step, z)) (λ e. let x = ap (get_elem? rs) e in cc)
      | inr (q, h) ↦ elim (Bool-cases q.disabled) [
        | inl off ↦ at passed (simp (lookup_step, h, off)) (not_passed i q h off)
        | inr up ↦ elim (Option-cases q.path) [
          | inl z ↦ at passed (simp (lookup_step, h, up, z)) (λ e.
              let same = some-injective q r (sym h ∙ ap (get_elem? rs) e ∙ g) in
              let x = ap (λ (z : Replica). z.path) same in cc)
          | inr (a, b) ↦
              let m = malloc (1 + length a + length (look_path l)) in
              let v = (sys k m w).1 in
              let y = (al k (1 + length a + length (look_path l)) 0 w).0 in
              let res = (sys k (look_call l (a ++ look_path l)) v).0 in
              elim (Bool-cases (look_failed l res.ret)) [
                | inl bad ↦
                    at (missed (neg res.errno)) (simp (lookup_step, h, up, b, y, bad))
                      (look_failed-errno k l (a ++ look_path l) v bad)
                | inr ok ↦ at (served res) (simp (lookup_step, h, up, b, y, ok)) tt
              ]
        ]
      ]
    ]
      where
        at : (a : Attempt) → (step i w).0 ≡ a → Tries step j i a → Tries step j i (step i w).0
        at a e t = subst (Tries step j i) (sym e) t

  -- If none of the tries served the request, the first error is not 0.
  pub refused-nonzero :
      {D : Type 0} (ds : Disks sys D)
      → Allocates sys
      → (k : Cred) (l : Look) (g : Config) (w : W) → Mounted g
      → Spread g
      → any_enabled g.replicas ≡ true
      → Rooted ds g.replicas
      → let got =
          (walk
            (lookup_step sys (look_failed l) (look_call l) (look_path l) k g.replicas)
            (order_of g)
            (nothing g.max_replica)
            w).0 in
        got.reply ≡ none → is_nonzero (get_first_error g.replicas got.err_list) ≡ true
  refused-nonzero ds al k l g w m sp h t z =
      let (j, r, a, on, b) = enabled_at g.replicas h in
      let (p, f) = path_at g.replicas j r t a in
      let below : j < g.max_replica = omega (arith, m.count) in
      let one = lookup_step sys (look_failed l) (look_call l) (look_path l) k g.replicas in
      let got = (walk one (order_of g) (nothing g.max_replica) w).0 in
      first-IsError g.replicas got.err_list (get_first_error g.replicas got.err_list) j r a on
        (walk-IsError one j (step-Tries al k l g.replicas j r p a on f) (order_of g)
          (nothing g.max_replica) w (omega (arith, length-replicate g.max_replica (pos 0)))
          (inr (order_of-Occurs g j m sp below)) z)
        (get_first_error-FirstError g.replicas got.err_list)
    where
      path_at :
          (rs : List Replica) (j : ℕ) (r : Replica)
          → Rooted ds rs
          → get_elem? rs j ≡ some r
          → (p : Bytes) × (r.path ≡ some p)
      path_at [] j r t a = cc
      path_at (q ∷ rs) zero r ((p, f, i, n), t) a =
          (p, ap (λ (x : Replica). x.path) (sym (some-injective q r a)) ∙ f)
      path_at (q ∷ rs) (suc j) r (x, t) a = path_at rs j r t a
