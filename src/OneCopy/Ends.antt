-- ===== src/OneCopy/Ends.antt =====
-- What the end of a handler makes of the trees that its loop leaves.
use mathlib.Core.Option.{some-injective}
use chironfs.Base.{
  ℕ, suc, ◌<◌, ℤ, pos, is_nonzero, Bool, true, false, ◌||◌, some, List, [], ◌∷◌, ◌≡◌, refl, sym, ap,
  ◌∙◌, inl, inr, arith, Bool-cases, get_elem?,
}
use chironfs.Model.{Bytes, Replica, Cred, Kernel}
use chironfs.Mirror.{Visit, skipped, failed, succeeded, err_list, succ_cnt}
use chironfs.Policy.Laws.{marked, FirstError, found, clean}
use chironfs.Mirror.Survivor.{any_enabled}
use chironfs.OneCopy.{Edit, Disks, Rooted, Same}
use chironfs.OneCopy.Loop.{Made, AllMade}

module _ {W : Type 0} {sys : Kernel W} {D : Type 0} (ds : Disks sys D) (k : Cred) (e : Edit) where
  -- A replica that is not disabled was not passed over.
  Made-skipped : (r : Replica) (d d' : D) → r.disabled ≡ false → Made ds k e r skipped d d' → ⊥
  Made-skipped r d d' on m = cc

  marked-Same_one :
      (d d' : D) (r : Replica) (v : Visit) (vs : List Visit) (w : W)
      → ds.act k e d ≡ some d'
      → (r.disabled ≡ false → (p : Bytes) → r.path ≡ some p → Made ds k e r v d (ds.disk p w))
      → (rs : List Replica) → Same ds d' (marked rs (err_list vs)) w
      → Same ds d' (marked (r ∷ rs) (err_list (v ∷ vs))) w
  unfolding err_list
  marked-Same_one d d' r skipped vs w a h rs s = (
    λ on p f.
        let off : r.disabled ≡ false = ground arith in
        absurd (Made-skipped r d (ds.disk p w) off (h off p f)),
    s,
  )
  marked-Same_one d d' r (failed x) vs w a h rs s = (
    λ on p f.
        let off : r.disabled ≡ false = ground arith in
        let m = h off p f in
        let nz : is_nonzero x ≡ true = m.1 in absurd (clash r.disabled (is_nonzero x) on nz),
    s,
  )
    where
      clash : (a b : Bool) → (a || b) ≡ false → b ≡ true → ⊥
      clash a b p q = ground arith
  marked-Same_one d d' r succeeded vs w a h rs s = (
    λ on p f.
        let off : r.disabled ≡ false = ground arith in
        some-injective (ds.disk p w) d' (sym ((h off p f).1) ∙ a),
    s,
  )

  -- If the request has been made somewhere, then on each replica that is left.
  pub marked-Same :
      (d d' : D) (rs : List Replica) (vs : List Visit) (w : W)
      → ds.act k e d ≡ some d'
      → AllMade ds k e d rs vs w
      → Same ds d' (marked rs (err_list vs)) w
  marked-Same d d' [] [] w a m = tt
  marked-Same d d' [] (v ∷ vs) w a m = absurd m
  marked-Same d d' (r ∷ rs) [] w a m = absurd m
  marked-Same d d' (r ∷ rs) (v ∷ vs) w a m =
      marked-Same_one d d' r v vs w a m.0 rs (marked-Same d d' rs vs w a m.2)

  -- If a replica reports success, then the request can be made on the tree.
  pub succ_cnt-act :
      (d : D) (rs : List Replica) (vs : List Visit) (w : W)
      → Rooted ds rs
      → AllMade ds k e d rs vs w
      → 0 < succ_cnt vs
      → (d' : D) × (ds.act k e d ≡ some d')
  unfolding succ_cnt
  succ_cnt-act d [] [] w t m h = absurd (omega arith)
  succ_cnt-act d [] (v ∷ vs) w t m h = absurd m
  succ_cnt-act d (r ∷ rs) [] w t m h = absurd m
  succ_cnt-act d (r ∷ rs) (skipped ∷ vs) w t m h = succ_cnt-act d rs vs w t.1 m.2 h
  succ_cnt-act d (r ∷ rs) (failed x ∷ vs) w t m h = succ_cnt-act d rs vs w t.1 m.2 h
  succ_cnt-act d (r ∷ rs) (succeeded ∷ vs) w ((p, f, i, a), t) m h = elim (Bool-cases r.disabled) [
    | inl off ↦ let x = m.1 off in cc
    | inr on ↦ (ds.disk p w, (m.0 on p f).1)
  ]

  -- If none does, the trees are as they were.
  pub none-Same :
      (d : D) (rs : List Replica) (vs : List Visit) (w : W)
      → AllMade ds k e d rs vs w
      → succ_cnt vs ≡ 0
      → Same ds d rs w
  unfolding succ_cnt
  none-Same d [] [] w m z = tt
  none-Same d [] (v ∷ vs) w m z = absurd m
  none-Same d (r ∷ rs) [] w m z = absurd m
  none-Same d (r ∷ rs) (skipped ∷ vs) w m z = (λ on p f. (m.0 on p f).1, none-Same d rs vs w m.2 z)
  none-Same d (r ∷ rs) (failed x ∷ vs) w m z = (λ on p f. (m.0 on p f).2, none-Same d rs vs w m.2 z)
  none-Same d (r ∷ rs) (succeeded ∷ vs) w m z = absurd (omega arith)

  -- And some replica that is not disabled has an error.
  abbrev HasError : List Replica → List ℤ → Type 0
  HasError rs es =
      (j : ℕ) × (q : Replica) × (x : ℤ) × (get_elem? rs j ≡ some q)
      × (get_elem? es j ≡ some x)
      × (q.disabled ≡ false)
      × (is_nonzero x ≡ true)

  HasError-cons :
      (r : Replica) (x : ℤ) (rs : List Replica) (es : List ℤ)
      → HasError rs es
      → HasError (r ∷ rs) (x ∷ es)
  HasError-cons r x rs es (j, q, y, a, b, c, n) = (suc j, q, y, a, b, c, n)

  none-HasError :
      (d : D) (rs : List Replica) (vs : List Visit) (w : W)
      → Rooted ds rs
      → AllMade ds k e d rs vs w
      → succ_cnt vs ≡ 0
      → any_enabled rs ≡ true
      → HasError rs (err_list vs)
  unfolding succ_cnt err_list
  none-HasError d [] vs w t m z h = cc
  none-HasError d (r ∷ rs) [] w t m z h = absurd m
  none-HasError d (r ∷ rs) (skipped ∷ vs) w ((p, f, i, a), t) m z h = elim (Bool-cases r.disabled) [
    | inl off ↦
        HasError-cons r (pos 0) rs (err_list vs) (none-HasError d rs vs w t m.2 z (ground arith))
    | inr on ↦ absurd (Made-skipped r d (ds.disk p w) on (m.0 on p f))
  ]
  none-HasError d (r ∷ rs) (failed x ∷ vs) w ((p, f, i, a), t) m z h =
      elim (Bool-cases r.disabled) [
        | inl off ↦ let y = m.1 off in cc
        | inr on ↦ (0, r, x, refl, refl, on, (m.0 on p f).1)
      ]
  none-HasError d (r ∷ rs) (succeeded ∷ vs) w t m z h = absurd (omega arith)

  first-nonzero :
      (rs : List Replica) (es : List ℤ) (ret : ℤ)
      → HasError rs es
      → FirstError rs es ret
      → is_nonzero ret ≡ true
  first-nonzero rs es ret h (found i r a b on n f) = n
  first-nonzero rs es ret (j, q, x, a, b, on, n) (clean z f) =
      let y = f j q x a b on in let same = ap is_nonzero y in cc

  -- So the handler reports an error.
  pub none-nonzero :
      (d : D) (rs : List Replica) (vs : List Visit) (w : W) (ret : ℤ)
      → Rooted ds rs
      → AllMade ds k e d rs vs w
      → succ_cnt vs ≡ 0
      → any_enabled rs ≡ true
      → FirstError rs (err_list vs) ret
      → is_nonzero ret ≡ true
  none-nonzero d rs vs w ret t m z h f =
      first-nonzero rs (err_list vs) ret (none-HasError d rs vs w t m z h) f
