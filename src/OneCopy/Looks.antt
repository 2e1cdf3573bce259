-- ===== src/OneCopy/Looks.antt =====
-- The requests that only look, on the trees of the replicas.
use chironfs.Scan.Total.{Mounted}
use chironfs.Lookup.Links.{Links, chiron_readlink-lookup}
use mathlib.Core.Path.{subst}
use mathlib.Core.Option.{some-injective}
use chironfs.Base.{
  ℕ, zero, suc, ◌+◌, ℤ, neg, is_nonzero, is_minus_one, Bool, true, false, String, Option, none,
  some, List, [], ◌∷◌, ◌++◌, ◌≡◌, refl, sym, ap, ◌∙◌, inl, inr, Bool-cases, Option-cases, length,
  get_elem?, set, ◌≤◌,
}
use chironfs.Model.{
  Bytes, Replica, Cred, Call, malloc, lstat, access, readlink, Reply, Kernel, State,
}
use chironfs.Scan.{Attempt, passed, missed, served, Scanned}
use chironfs.Scan.Reference.{walk, after, walk-cons}
use chironfs.FileIo.{ReadReply}
use chironfs.Lookup.{lookup, chiron_getattr, chiron_access, chiron_readlink}
use chironfs.Lookup.Served.{lookup_step}
use chironfs.OneCopy.{Disks, Rooted, Same}
use chironfs.OneCopy.Request.{Same-world}

-- A request that only looks.
pub data Look : Type 0 where
  look_getattr : Bytes → Look
  look_access : Bytes → ℕ → Look
  look_readlink : Bytes → ℕ → Look

abbrev pub look_path : Look → Bytes
look_path (look_getattr path) = path
look_path (look_access path mask) = path
look_path (look_readlink path size) = path

-- The call of the request on a file, how its failure is told, and what the handler takes of its reply.
abbrev pub look_call : Look → Bytes → Call
look_call (look_getattr path) f = lstat f
look_call (look_access path mask) f = access f mask
look_call (look_readlink path size) f = readlink f size

abbrev pub look_failed : Look → ℤ → Bool
look_failed (look_getattr path) = is_nonzero
look_failed (look_access path mask) = is_nonzero
look_failed (look_readlink path size) = is_minus_one

abbrev pub look_kept : Look → Reply → Bytes
look_kept (look_getattr path) r = r.stored
look_kept (look_access path mask) r = []
look_kept (look_readlink path size) r = r.stored ++ 0 ∷ []

-- There is room for a path of PATH_MAX bytes.
abbrev pub Roomy : Look → Type 0
Roomy (look_readlink path size) = 4096 ≤ size
Roomy _ = Unit {0}

abbrev pub look_name : Look → String
look_name (look_getattr path) = "getattr"
look_name (look_access path mask) = "access"
look_name (look_readlink path size) = "readlink"

-- What the requests see of a tree. `view` is what the bytes that a handler gives out say of the tree: not all
-- of them do, as the number of the device and of the inode and the times in what lstat stores, which are those
-- of the replica's own file. A call that succeeds shows `shown` in this sense, and no call changes a tree.
pub record Shows {W : Type 0} {sys : Kernel W} {D : Type 0} (ds : Disks sys D) (V : Type 0)
    : Type 0 where
  pub view : Look → Bytes → V
  pub shown : Cred → Look → D → V
  pub unchanged :
      (k : Cred) (l : Look) (p q : Bytes) (w : W)
      → ds.is_root p ≡ true
      → ds.disk q (sys k (look_call l (p ++ look_path l)) w).1 ≡ ds.disk q w
  pub shows :
      (k : Cred) (l : Look) (p : Bytes) (w : W)
      → ds.is_root p ≡ true
      → let res = (sys k (look_call l (p ++ look_path l)) w).0 in
        look_failed l res.ret ≡ false → view l (look_kept l res) ≡ shown k l (ds.disk p w)

module _ {W : Type 0} (sys : Kernel W) where
  -- The handler of a request.
  abbrev pub run_look : Cred → Look → State W → Option (ReadReply × State W)
  run_look context (look_getattr path) s = chiron_getattr sys context path s
  run_look context (look_access path mask) s = chiron_access sys context path mask s
  run_look context (look_readlink path size) s = chiron_readlink sys context path size s

  -- The handler is `lookup`, if what it gives out fits where FUSE wants it.
  pub run_look-lookup :
      Links sys
      → (context : Cred) (l : Look) (s : State W) → Mounted s.config
      → Roomy l
      → run_look context l s
        ≡ lookup sys
            (look_name l)
            (look_failed l)
            (look_call l)
            (look_kept l)
            context
            (look_path l)
            s
  unfolding chiron_getattr chiron_access
  run_look-lookup ln context (look_getattr path) s m h = refl
  run_look-lookup ln context (look_access path mask) s m h = refl
  run_look-lookup ln context (look_readlink path size) s m h =
      chiron_readlink-lookup sys ln context path size s m h

module _ {W : Type 0} {sys : Kernel W} {D : Type 0} {ds : Disks sys D} {V : Type 0}
    (sh : Shows ds V) (k : Cred) (l : Look) where
  -- The step of a request at a replica.
  abbrev pub look_step : List Replica → ℕ → W → Attempt × W
  look_step = lookup_step sys (look_failed l) (look_call l) (look_path l) k

  -- What a reply has to do with the tree `d`.
  abbrev pub Faithful : D → Attempt → Type 0
  Faithful d passed = Unit {0}
  Faithful d (missed e) = Unit {0}
  Faithful d (served x) = sh.view l (look_kept l x) ≡ sh.shown k l d

  Rooted-at :
      (rs : List Replica) (d : D) (w : W) (i : ℕ) (r : Replica) (p : Bytes)
      → Rooted ds rs
      → Same ds d rs w
      → get_elem? rs i ≡ some r
      → r.path ≡ some p
      → (ds.is_root p ≡ true) × (r.disabled ≡ false → ds.disk p w ≡ d)
  Rooted-at [] d w i r p t same g f = cc
  Rooted-at (q ∷ rs) d w zero r p ((p', f', root, a), t) same g f =
      let e = some-injective q r g in
      let e' = some-injective p p' (sym f ∙ ap (λ (x : Replica). x.path) (sym e) ∙ f') in
      (
        ap ds.is_root e' ∙ root,
        λ on.
            same.0 (ap (λ (x : Replica). x.disabled) e ∙ on) p (ap (λ (x : Replica). x.path) e ∙ f),
      )
  Rooted-at (q ∷ rs) d w (suc i) r p (at, t) same g f = Rooted-at rs d w i r p t same.1 g f

  -- The step shows the tree, and leaves the trees alone.
  abbrev pub Honest : D → W → Attempt × W → Type 0
  Honest d w one = Faithful d one.0 × ((q : Bytes) → ds.disk q one.1 ≡ ds.disk q w)

  pub look_step-Honest :
      (rs : List Replica) (d : D) (i : ℕ) (w : W)
      → Rooted ds rs
      → Same ds d rs w
      → Honest d w (look_step rs i w)
  unfolding lookup_step
  look_step-Honest rs d i w t same = elim (Option-cases (get_elem? rs i)) [
    | inl z ↦ at (passed, w) (simp (lookup_step, z)) (tt, λ q. refl)
    | inr (r, g) ↦ elim (Bool-cases r.disabled) [
      | inl off ↦ at (passed, w) (simp (lookup_step, g, off)) (tt, λ q. refl)
      | inr on ↦ elim (Option-cases r.path) [
        | inl z ↦ at (passed, w) (simp (lookup_step, g, on, z)) (tt, λ q. refl)
        | inr (p, f) ↦
            let (root, here) = Rooted-at rs d w i r p t same g f in
            let m = malloc (1 + length p + length (look_path l)) in
            let v = (sys k m w).1 in
            let res = sys k (look_call l (p ++ look_path l)) v in
            let still : (q : Bytes) → ds.disk q v ≡ ds.disk q w = λ q. ds.silent k m q w refl in
            let left : (q : Bytes) → ds.disk q res.1 ≡ ds.disk q w =
              λ q. sh.unchanged k l p q v root ∙ still q in
            elim (Bool-cases (is_nonzero (sys k m w).0.ret)) [
              | inr z ↦ at (passed, v) (simp (lookup_step, g, on, f, z)) (tt, still)
              | inl y ↦ elim (Bool-cases (look_failed l res.0.ret)) [
                | inl bad ↦
                    at (missed (neg res.0.errno), res.1) (simp (lookup_step, g, on, f, y, bad))
                      (tt, left)
                | inr ok ↦
                    at (served res.0, res.1) (simp (lookup_step, g, on, f, y, ok))
                      (sh.shows k l p v root ok ∙ ap (sh.shown k l) (still p ∙ here on), left)
              ]
            ]
      ]
    ]
  ]
    where
      at :
          (one : Attempt × W)
          → look_step rs i w ≡ one
          → Honest d w one
          → Honest d w (look_step rs i w)
      at one e h = subst (Honest d w) (sym e) h

  -- So does a walk through the replicas.
  abbrev pub FaithfulAll : D → Option Reply → Type 0
  FaithfulAll d none = Unit {0}
  FaithfulAll d (some x) = sh.view l (look_kept l x) ≡ sh.shown k l d

  abbrev HonestAll : D → W → Scanned × W → Type 0
  HonestAll d w out = FaithfulAll d out.0.reply × ((q : Bytes) → ds.disk q out.1 ≡ ds.disk q w)

  after-Honest :
      (rs : List Replica) (d : D) (i : ℕ) (order : List ℕ) (acc : Scanned) (w v : W) (a : Attempt)
      → ((acc' : Scanned)
          → acc'.reply ≡ acc.reply
          → HonestAll d v (walk (look_step rs) order acc' v))
      → Honest d w (a, v)
      → HonestAll d w (after (look_step rs) i order acc a v)
  after-Honest rs d i order acc w v passed ih h =
      let rest = ih acc refl in (rest.0, λ q. rest.1 q ∙ h.1 q)
  after-Honest rs d i order acc w v (missed e) ih h =
      let rest =
        ih (record acc { err_list = set acc.err_list i e; fail_cnt = suc acc.fail_cnt }) refl in
      (rest.0, λ q. rest.1 q ∙ h.1 q)
  after-Honest rs d i order acc w v (served x) ih h = h

  pub walk-Honest :
      (rs : List Replica) (d : D) (order : List ℕ) (acc : Scanned) (w : W)
      → Rooted ds rs
      → Same ds d rs w
      → acc.reply ≡ none
      → HonestAll d w (walk (look_step rs) order acc w)
  walk-Honest rs d [] acc w t same z = (subst (FaithfulAll d) (sym z) tt, λ q. refl)
  walk-Honest rs d (i ∷ order) acc w t same z =
      let (a, v) = look_step rs i w in
      let h = look_step-Honest rs d i w t same in
      subst (HonestAll d w) (walk-cons (look_step rs) i order acc w) (
        after-Honest rs d i order acc w v a
          (λ acc' e. walk-Honest rs d order acc' v t (Same-world ds d rs w v h.1 same) (e ∙ z)) h)
