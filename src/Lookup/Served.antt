-- ===== src/Lookup/Served.antt =====
-- What chiron_getattr, chiron_access and chiron_readlink answer.
use chironfs.Scan.Result.{result_of, replicas_of, finish-scanned}
use mathlib.Core.Path.{subst}
use chironfs.Base.{
  ℕ, ◌+◌, ◌<◌, ℤ, pos, neg, is_nonzero, Bool, true, String, Option, none, some, List, ◌++◌, ◌≡◌,
  refl, sym, ap, ap₂, ◌∙◌, inl, inr, arith, Bool-cases, Option-cases, if◌then◌else◌, length,
  get_elem?,
}
use chironfs.Model.{Bytes, Replica, Call, malloc, Config, Cred, Reply, Kernel, State, call}
use chironfs.Mirror.{xlate, finish}
use chironfs.Mirror.Laws.{started, started_frame, has_err_list}
use chironfs.Scan.{Attempt, passed, missed, served, Scanned}
use chironfs.Scan.Total.{Mounted, get_elem?-lt}
use chironfs.Scan.Reference.{order_of, nothing, walk, Follows, scan_all-walk, LeavesAll, Leaves}
use chironfs.FileIo.{served_cnt}
use chironfs.Lookup.{kept, ask, lookup_attempt, lookup_body, lookup}

module _ {W : Type 0} (sys : Kernel W) (is_failure : ℤ → Bool) (c : Bytes → Call)
    (path : Bytes) where
  -- The request at one replica, by the caller `k`: a disabled one is passed over, and one for whose file name
  -- there is no memory.
  unfoldable pub lookup_step : Cred → List Replica → ℕ → W → Attempt × W
  lookup_step k rs i w = elim (get_elem? rs i) [
    | none ↦ (passed, w)
    | some r ↦ if r.disabled then (passed, w) else elim r.path [
      | none ↦ (passed, w)
      | some p ↦
          let (m, v) = sys k (malloc (1 + length p + length path)) w in
          let (res, u) = sys k (c (p ++ path)) v in
          if is_nonzero m.ret
          then (if is_failure res.ret then (missed (neg res.errno), u) else (served res, u))
          else (passed, v)
    ]
  ]

  lookup_attempt-step :
      (i : ℕ) (s : State W)
      → i < length s.config.replicas
      → let one = lookup_step s.cred s.config.replicas i s.world in
        (s' : State W) × (lookup_attempt sys is_failure c path i s ≡ some (one.0, s'))
        × (s'.world ≡ one.1)
        × (s'.cred ≡ s.cred)
        × (s'.config ≡ s.config)
  unfolding lookup_attempt lookup_step ask xlate call
  lookup_attempt-step i s l =
      let (r, g) = get_elem?-lt s.config.replicas i l in
      elim (Bool-cases r.disabled) [
        | inl off ↦ (s, simp (lookup_step, g, off), simp (lookup_step, g, off), refl, refl)
        | inr on ↦ elim (Option-cases r.path) [
          | inl z ↦ (s, simp (lookup_step, g, on, z), simp (lookup_step, g, on, z), refl, refl)
          | inr (p, e) ↦
              let (m, v) = call sys (malloc (1 + length p + length path)) s in
              let (res, u) = call sys (c (p ++ path)) v in
              elim (Bool-cases (is_nonzero m.ret)) [
                | inr z ↦ (
                  v,
                  simp (lookup_step, g, on, e, z),
                  simp (lookup_step, g, on, e, z),
                  refl,
                  refl,
                )
                | inl y ↦ elim (Bool-cases (is_failure res.ret)) [
                  | inl bad ↦ (
                    u,
                    simp (lookup_step, g, on, e, y, bad),
                    simp (lookup_step, g, on, e, y, bad),
                    refl,
                    refl,
                  )
                  | inr ok ↦ (
                    u,
                    simp (lookup_step, g, on, e, y, ok),
                    simp (lookup_step, g, on, e, y, ok),
                    refl,
                    refl,
                  )
                ]
              ]
        ]
      ]

  Leaves-same :
      (rs : List Replica) (a : Attempt) (d d' : Config)
      → d.replicas ≡ rs
      → d' ≡ d
      → Leaves (λ x qs. qs ≡ rs) a d d'
  Leaves-same rs passed d d' f e = e
  Leaves-same rs (missed x) d d' f e = e
  Leaves-same rs (served x) d d' f e = ap (λ (z : Config). z.replicas) e ∙ f

  pub lookup_attempt-Follows :
      (k : Cred) (rs : List Replica)
      → Follows (lookup_attempt sys is_failure c path) (lookup_step k rs) k rs (λ x qs. qs ≡ rs)
  lookup_attempt-Follows k rs i s e g l =
      let (s', a, b, d, f) = lookup_attempt-step i s (omega (arith, ap length e)) in
      let one = ap₂ (λ x y. lookup_step x y i s.world) g e in
      (
        s',
        a ∙ ap (λ (z : Attempt × W). some (z.0, s')) one,
        b ∙ ap (λ (z : Attempt × W). z.1) one,
        d ∙ g,
        Leaves-same rs (lookup_step k rs i s.world).0 s.config s'.config e f,
      )

  -- What comes of a walk through the replicas, which is what the loop leaves.
  abbrev pub looked : Cred → Config → W → Scanned
  looked k g w = (walk (lookup_step k g.replicas) (order_of g) (nothing g.max_replica) w).0

  -- The loop, and the end of the handler.
  pub lookup_body-walked :
      (op : String) (keep : Reply → Bytes) (g : Config) (s : State W)
      → Mounted g
      → s.config ≡ g
      → let got = looked s.cred g s.world in
        (u : State W) × (u.world
          ≡ (walk (lookup_step s.cred g.replicas) (order_of g) (nothing g.max_replica) s.world).1)
        × (u.config.replicas ≡ g.replicas)
        × (let out = finish sys op (pos 0) (served_cnt got.reply) got.fail_cnt got.err_list u in
            lookup_body sys op is_failure c keep path s
            ≡ some (record { ret = out.0; buf = kept keep got.reply }, out.1))
  unfolding lookup_body
  lookup_body-walked op keep g s m e =
      let rs = g.replicas in
      let k = s.cred in
      let (u, a, b, d, f) =
        scan_all-walk (lookup_attempt sys is_failure c path) (lookup_step k rs) k rs
          (λ x qs. qs ≡ rs) (lookup_attempt-Follows k rs) s (subst Mounted (sym e) m)
          (ap (λ (z : Config). z.replicas) e) refl in
      let same =
        ap (λ (z : Config). walk (lookup_step k rs) (order_of z) (nothing z.max_replica) s.world)
          e in
      let got = looked k g s.world in
      (
        u,
        b ∙ ap (λ (z : Scanned × W). z.1) same,
        either got.reply u.config
            (subst (λ (z : Scanned × W). LeavesAll (λ x qs. qs ≡ rs) z.0.reply rs u.config) same f),
        rw (a ∙ ap (λ (z : Scanned × W). some (z.0, u)) same) refl,
      )
    where
      either :
          (x : Option Reply) (d : Config)
          → LeavesAll (λ y qs. qs ≡ g.replicas) x g.replicas d
          → d.replicas ≡ g.replicas
      either none d h = h
      either (some x) d h = h

  lookup_body-looked :
      (op : String) (keep : Reply → Bytes) (g : Config) (s : State W)
      → Mounted g
      → s.config ≡ g
      → let got = looked s.cred g s.world in
        (t : State W) × (lookup_body sys op is_failure c keep path s
          ≡ some (record { ret = result_of (pos 0) g.replicas got; buf = kept keep got.reply }, t))
        × (t.config.replicas ≡ replicas_of g.replicas got)
  lookup_body-looked op keep g s m e =
      let (u, w, left, a) = lookup_body-walked op keep g s m e in
      let got = looked s.cred g s.world in
      let out = finish sys op (pos 0) (served_cnt got.reply) got.fail_cnt got.err_list u in
      let fin = finish-scanned sys op (pos 0) got u g.replicas left in
      (
        out.1,
        a ∙ ap (λ z. some (record { ret = z; buf = kept keep got.reply }, out.1)) fin.0,
        fin.1,
      )

  -- On a configuration as it is mounted, and once it has `err_list`, the handler answers as a walk through the
  -- replicas does that goes round those of high priority and then round those of low priority, passes over
  -- the disabled ones and those for whose file name there is no memory, and ends at the first that serves the
  -- request: with 0 and what this replica stored; or, if none does, with the first error. Exactly the
  -- replicas that failed before one served the request are disabled.
  pub lookup-looked :
      (op : String) (keep : Reply → Bytes) (context : Cred) (s : State W)
      → Mounted s.config
      → has_err_list sys context s ≡ true
      → let u = started sys context s in
        let got = looked u.cred s.config u.world in
        (t : State W) × (lookup sys op is_failure c keep context path s
          ≡ some (
            record { ret = result_of (pos 0) s.config.replicas got; buf = kept keep got.reply },
            t,
          ))
        × (t.config.replicas ≡ replicas_of s.config.replicas got)
  unfolding lookup
  lookup-looked op keep context s m h =
      let u = started sys context s in
      let (t, a, b) = lookup_body-looked op keep s.config u m (started_frame sys context s).0 in
      (t, rw h a, b)
