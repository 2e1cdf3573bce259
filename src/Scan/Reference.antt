-- ===== src/Scan/Reference.antt =====
-- The loop over the tries, against a loop over the replicas in the order in which they are tried.
use chironfs.Base.{
  Option-cases, inl, inr, ℕ, zero, suc, ◌+◌, ◌<◌, pos, Option, none, some, List, [], ◌∷◌, ◌++◌, ◌≡◌,
  refl, sym, ap, ◌∙◌, arith, length, set, replicate,
}
use mathlib.Core.Path.{subst}
use mathlib.Core.Option.{some-injective}
use chironfs.Model.{Config, Cred, Replica, Reply, State}
use chironfs.Choose.{choose_replica, choices}
use chironfs.Choose.Valid.{turned, chosen, choose_replica_lem}
use chironfs.Choose.Order.{high_order, low_order, choices-order}
use chironfs.Scan.{Attempt, passed, missed, served, Scanned, scan, scan_all}
use chironfs.Scan.Total.{Mounted, onward, scan-onward, turned-Mounted, chosen-lt}

-- The order in which a run of tries comes to the replicas.
abbrev pub order_of : Config → List ℕ
order_of c = high_order c ++ low_order c

abbrev pub nothing : ℕ → Scanned
nothing n = record { err_list = replicate n (pos 0); fail_cnt = 0; reply = none }

module _ {W : Type 0} (step : ℕ → W → Attempt × W) where
  -- One replica after the other, until one serves the request.
  abbrev pub walk : List ℕ → Scanned → W → Scanned × W
  walk [] acc w = (acc, w)
  walk (r ∷ rs) acc w = elim (step r w).0 [
    | passed ↦ walk rs acc (step r w).1
    | missed e ↦
        walk rs (record acc { err_list = set acc.err_list r e; fail_cnt = suc acc.fail_cnt })
          (step r w).1
    | served x ↦ (record acc { reply = some x }, (step r w).1)
  ]

module _ {W : Type 0} (step : ℕ → W → Attempt × W) where
  -- The walk behind an attempt.
  abbrev pub after : ℕ → List ℕ → Scanned → Attempt → W → Scanned × W
  after r order acc passed v = walk step order acc v
  after r order acc (missed e) v =
      walk step order (record acc { err_list = set acc.err_list r e; fail_cnt = suc acc.fail_cnt })
        v
  after r order acc (served x) v = (record acc { reply = some x }, v)

  pub walk-cons :
      (r : ℕ) (order : List ℕ) (acc : Scanned) (w : W)
      → after r order acc (step r w).0 (step r w).1 ≡ walk step (r ∷ order) acc w
  walk-cons r order acc w = either (step r w).0
    where
      either :
          (a : Attempt)
          → after r order acc a (step r w).1 ≡ elim a [
            | passed ↦ walk step order acc (step r w).1
            | missed e ↦
                walk step order
                  (record acc { err_list = set acc.err_list r e; fail_cnt = suc acc.fail_cnt })
                  (step r w).1
            | served x ↦ (record acc { reply = some x }, (step r w).1)
          ]
      either passed = refl
      either (missed e) = refl
      either (served x) = refl

-- What the rest of a run comes to after the first try.
choices-rest :
    (n t x : ℕ) (c c1 c' : Config) (order : List ℕ)
    → choose_replica t c ≡ some (x, c1)
    → choices (suc n) t c ≡ some (order, c')
    → (rest : List ℕ) × (order ≡ x ∷ rest) × (choices n (t + 1) c1 ≡ some (rest, c'))
unfolding choices
choices-rest n t x c c1 c' order p q = elim (Option-cases (choices n (t + 1) c1)) [
  | inl z ↦ let e : choices (suc n) t c ≡ none = rw (p, z) refl in absurd (none-ne-some e q)
  | inr ((rest, d), y) ↦
      let e : choices (suc n) t c ≡ some (x ∷ rest, d) = rw (p, y) refl in
      let same = some-injective (x ∷ rest, d) (order, c') (sym e ∙ q) in
      (rest, ap (λ z. z.0) (sym same), y ∙ ap (λ (z : List ℕ × Config). some (rest, z.1)) same)
]
  where
    none-ne-some : {A : Type 0} {o : Option A} {a : A} → o ≡ none → o ≡ some a → ⊥
    none-ne-some p q = cc

-- Only a replica that serves the request may change the replicas, to what `Q` says.
abbrev pub Leaves : (Reply → List Replica → Type 0) → Attempt → Config → Config → Type 0
Leaves Q (served x) c c' = Q x c'.replicas
Leaves Q _ c c' = c' ≡ c

abbrev pub LeavesAll :
    (Reply → List Replica → Type 0) → Option Reply → List Replica → Config → Type 0
LeavesAll Q none rs c = c.replicas ≡ rs
LeavesAll Q (some x) rs c = Q x c.replicas

module _ {W : Type 0} (attempt : ℕ → State W → Option (Attempt × State W))
    (step : ℕ → W → Attempt × W) (k : Cred) (rs : List Replica)
    (Q : Reply → List Replica → Type 0) where
  -- An attempt does to the world what the step does.
  abbrev pub Follows : Type 0
  Follows =
      (r : ℕ) (s : State W)
      → s.config.replicas ≡ rs
      → s.cred ≡ k
      → r < length rs
      → (s' : State W) × (attempt r s ≡ some ((step r s.world).0, s'))
        × (s'.world ≡ (step r s.world).1)
        × (s'.cred ≡ k)
        × Leaves Q (step r s.world).0 s.config s'.config

  abbrev pub Walks : Scanned × W → Option (Scanned × State W) → Type 0
  Walks got o =
      (s' : State W) × (o ≡ some (got.0, s'))
      × (s'.world ≡ got.1)
      × (s'.cred ≡ k)
      × LeavesAll Q got.0.reply rs s'.config

  walk-onward :
      (n t : ℕ) (acc : Scanned) (r : ℕ) (order : List ℕ) (a : Attempt) (v : W) (s : State W)
      (c : Config)
      → s.world ≡ v
      → s.cred ≡ k
      → Leaves Q a c s.config
      → ((acc' : Scanned) (u : State W)
          → acc'.reply ≡ acc.reply
          → u.config ≡ c
          → u.cred ≡ k
          → Walks (walk step order acc' u.world) (scan attempt n (t + 1) acc' u))
      → Walks (after step r order acc a v) (onward attempt 0 n t acc r s a)
  walk-onward n t acc r order passed v s c f g l ih =
      subst (λ w. Walks (walk step order acc w) (scan attempt n (t + 1) acc s)) f
        (ih acc s refl l g)
  walk-onward n t acc r order (missed e) v s c f g l ih =
      let acc' : Scanned = record acc {
        err_list = set acc.err_list r e;
        fail_cnt = suc acc.fail_cnt;
      } in
      subst (λ w. Walks (walk step order acc' w) (scan attempt n (t + 1) acc' s)) f
        (ih acc' s refl l g)
  walk-onward n t acc r order (served x) v s c f g l ih = (s, refl, f, g, l)

  scan-walk :
      Follows
      → (n t : ℕ) (acc : Scanned) (s : State W) (order : List ℕ) (c' : Config) → Mounted s.config
      → s.config.replicas ≡ rs
      → s.cred ≡ k
      → acc.reply ≡ none
      → t + n ≡ s.config.max_replica
      → choices n t s.config ≡ some (order, c')
      → Walks (walk step order acc s.world) (scan attempt n t acc s)
  unfolding scan choices
  scan-walk fol zero t acc s order c' m e g z q h =
      let same : [] ≡ order = ap (λ x. x.0) (some-injective ([], s.config) (order, c') h) in
      subst (λ l. Walks (walk step l acc s.world) (some (acc, s))) same
        (s, refl, refl, g, subst (λ x. LeavesAll Q x rs s.config) (sym z) e)
  scan-walk fol (suc n) t acc s order c' m e g z q h =
      let c = s.config in
      let l : t < c.max_replica = omega arith in
      let d = turned t c in
      let j = chosen t d in
      let ch = choose_replica_lem t c m.choice l in
      let (rest, same, h') = choices-rest n t j c d c' order ch h in
      let u : State W = record s { config = d } in
      let tm = turned-Mounted t c m l in
      let (v, a, f, g', lv) =
        fol j u e g (omega (arith, chosen-lt t d tm l, m.count, ap length e)) in
      rw (scan-onward attempt 0 n t acc s j d (step j s.world).0 v ch a) (
        subst
          (λ o. Walks (walk step o acc s.world) (onward attempt 0 n t acc j v (step j s.world).0))
          (sym same)
          (subst (λ x. Walks x (onward attempt 0 n t acc j v (step j s.world).0))
            (walk-cons step j rest acc s.world)
            (walk-onward n t acc j rest (step j s.world).0 (step j s.world).1 v d f g' lv
              (λ acc' w y k' g''.
                scan-walk fol n (t + 1) acc' w rest c' (subst Mounted (sym k') tm)
                  (ap (λ (x : Config). x.replicas) k' ∙ e) g'' (y ∙ z)
                  (omega (arith, ap (λ (x : Config). x.max_replica) k'))
                  (ap (choices n (t + 1)) k' ∙ h')))))

  -- The loop over the tries is the walk through the replicas in their order.
  pub scan_all-walk :
      Follows
      → (s : State W) → Mounted s.config
      → s.config.replicas ≡ rs
      → s.cred ≡ k
      → Walks
          (walk step (order_of s.config) (nothing s.config.max_replica) s.world)
          (scan_all attempt s)
  unfolding scan_all
  scan_all-walk fol s m e g =
      let ((c', h), p, p') = choices-order s.config m.choice in
      scan-walk fol s.config.max_replica 0 (nothing s.config.max_replica) s (order_of s.config) c' m
        e g refl (omega arith) h
