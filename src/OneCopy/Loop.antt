-- ===== src/OneCopy/Loop.antt =====
-- What the loop over the replicas does to their trees.
use mathlib.Core.Path.{subst}
use mathlib.Core.Option.{some-injective}
use chironfs.Base.{is_nonzero, true, false, some, List, [], ◌∷◌, ◌≡◌, ◌≢◌, refl, sym, ap, ◌∙◌}
use chironfs.Model.{Bytes, Replica, Cred, Kernel, State}
use chironfs.Mirror.{Visit, skipped, failed, succeeded, visit_all}
use chironfs.OneCopy.{Edit, Disks, NotIn, Rooted, Same}

module _ {W : Type 0} {sys : Kernel W} {D : Type 0} (ds : Disks sys D) (k : Cred) (e : Edit) where
  -- How the visit of a replica with the tree `p` ends, on a tree that was `d`: a disabled one is passed over.
  abbrev pub Made : Replica → Visit → D → D → Type 0
  Made r skipped d d' = (r.disabled ≡ true) × (d' ≡ d)
  Made r (failed x) d d' = (r.disabled ≡ false) × (is_nonzero x ≡ true) × (d' ≡ d)
  Made r succeeded d d' = (r.disabled ≡ false) × (ds.act k e d ≡ some d')

  -- What an iteration does to the trees.
  pub record Visited (r : Replica) (p : Bytes) (s : State W) (out : Visit × State W) : Type 0 where
    pub made : Made r out.0 (ds.disk p s.world) (ds.disk p out.1.world)
    pub others :
        (q : Bytes) → ds.is_root q ≡ true → p ≢ q → ds.disk q out.1.world ≡ ds.disk q s.world
    pub cred : out.1.cred ≡ s.cred

  abbrev pub Visits : (Replica → State W → Visit × State W) → Type 0
  Visits one =
      (r : Replica) (p : Bytes) (s : State W)
      → r.path ≡ some p
      → ds.is_root p ≡ true
      → s.cred ≡ k
      → Visited r p s (one r s)

  -- What the loop leaves, replica by replica, on trees that were `d`.
  abbrev pub AllMade : D → List Replica → List Visit → W → Type 0
  AllMade d [] [] w = Unit {0}
  AllMade d [] (v ∷ vs) w = ⊥
  AllMade d (r ∷ rs) [] w = ⊥
  AllMade d (r ∷ rs) (v ∷ vs) w =
      (r.disabled ≡ false → (p : Bytes) → r.path ≡ some p → Made r v d (ds.disk p w))
      × (r.disabled ≡ true → v ≡ skipped)
      × AllMade d rs vs w

  module _ (one : Replica → State W → Visit × State W) (visits : Visits one) where
    -- The loop does not touch a tree that is none of its replicas'.
    visit_all-apart :
        (rs : List Replica) (s : State W) (q : Bytes)
        → Rooted ds rs
        → NotIn q rs
        → ds.is_root q ≡ true
        → s.cred ≡ k
        → (ds.disk q (visit_all one rs s).1.world ≡ ds.disk q s.world)
          × ((visit_all one rs s).1.cred ≡ k)
    unfolding visit_all
    visit_all-apart [] s q r n i c = (refl, c)
    visit_all-apart (r ∷ rs) s q ((p, e, root, a), t) n i c =
        let u : State W = (one r s).1 in
        let v = visits r p s e root c in
        let ih = visit_all-apart rs u q t n.1 i (v.cred ∙ c) in
        (ih.0 ∙ v.others q i (λ same. n.0 (e ∙ ap (λ z. some z) same)), ih.1)

    Same-others :
        (d : D) (rs : List Replica) (p : Bytes) (w w' : W)
        → Rooted ds rs
        → NotIn p rs
        → ((q : Bytes) → ds.is_root q ≡ true → p ≢ q → ds.disk q w' ≡ ds.disk q w)
        → Same ds d rs w
        → Same ds d rs w'
    Same-others d [] p w w' t n h s = tt
    Same-others d (r ∷ rs) p w w' ((x, e, root, a), t) n h s = (
      λ on q f.
          let same : x ≡ q = some-injective x q (sym e ∙ f) in
          let is = subst (λ y. ds.is_root y ≡ true) same root in
          h q is (λ z. n.0 (f ∙ ap (λ y. some y) (sym z))) ∙ s.0 on q f,
      Same-others d rs p w w' t n.1 h s.1,
    )

    pub visit_all-AllMade :
        (d : D) (rs : List Replica) (s : State W)
        → Rooted ds rs
        → Same ds d rs s.world
        → s.cred ≡ k
        → AllMade d rs (visit_all one rs s).0 (visit_all one rs s).1.world
          × ((visit_all one rs s).1.cred ≡ k)
    unfolding visit_all
    visit_all-AllMade d [] s t h c = (tt, c)
    visit_all-AllMade d (r ∷ rs) s ((p, e, root, a), t) h c =
        let (v, u) = one r s in
        let x = visits r p s e root c in
        let w = (visit_all one rs u).1.world in
        let stays = visit_all-apart rs u p t a root (x.cred ∙ c) in
        let ih =
          visit_all-AllMade d rs u t (Same-others d rs p s.world u.world t a x.others h.1)
            (x.cred ∙ c) in
        (
          (
            λ on q f.
                let same : p ≡ q = some-injective p q (sym e ∙ f) in
                subst (λ y. Made r v d (ds.disk y w)) same
                  (subst (Made r v d) (sym stays.0)
                    (subst (λ y. Made r v y (ds.disk p u.world)) (h.0 on p e) x.made)),
            λ off. disabled-skipped r v (ds.disk p s.world) (ds.disk p u.world) off x.made,
            ih.0,
          ),
          ih.1,
        )
      where
        disabled-skipped :
            (r : Replica) (v : Visit) (d d' : D) → r.disabled ≡ true → Made r v d d' → v ≡ skipped
        disabled-skipped r skipped d d' off m = refl
        disabled-skipped r (failed x) d d' off m = cc
        disabled-skipped r succeeded d d' off m = cc
