-- ===== src/Lookup/Links.antt =====
-- What chiron_readlink gives out fits its buffer.
use chironfs.Priv.{reacquire_priv}
use mathlib.Core.Path.{subst}
use chironfs.Base.{
  ℕ, suc, ◌+◌, ◌<◌, ◌≤◌, ltb, ℤ, neg, pos, is_nonzero, is_minus_one, Bool, false, String, Option,
  none, some, List, [], ◌∷◌, ◌++◌, ◌≡◌, refl, sym, ◌∙◌, inl, inr, arith, Bool-cases, Option-cases,
  length, get_elem?, set, length-append,
}
use chironfs.Model.{Bytes, Replica, Call, malloc, readlink, Cred, Reply, Kernel, State}
use chironfs.Mirror.Laws.{started, started_frame, has_err_list}
use chironfs.Scan.{Attempt, passed, missed, served, Scanned}
use chironfs.Scan.Total.{Mounted}
use chironfs.Scan.Reference.{order_of, nothing, walk, after, walk-cons}
use chironfs.Mirror.{enomem, finish}
use chironfs.FileIo.{ReadReply, served_cnt}
use chironfs.Lookup.{kept, lookup, chiron_readlink}
use chironfs.Lookup.Served.{lookup_step, lookup_body-walked}

-- The target of a symbolic link has fewer than PATH_MAX bytes.
abbrev pub Links : {W : Type 0} → Kernel W → Type 0
Links {W} sys =
    (k : Cred) (f : Bytes) (n : ℕ) (w : W) → length (sys k (readlink f n) w).0.stored < 4096

module _ {W : Type 0} (sys : Kernel W) (is_failure : ℤ → Bool) (c : Bytes → Call) (path : Bytes)
    (Ok : Reply → Type 0) (ok : (k : Cred) (f : Bytes) (w : W) → Ok (sys k (c f) w).0) where
  abbrev OkAttempt : Attempt → Type 0
  OkAttempt (served x) = Ok x
  OkAttempt _ = Unit {0}

  abbrev OkReply : Option Reply → Type 0
  OkReply none = Unit {0}
  OkReply (some x) = Ok x

  lookup_step-Ok :
      (k : Cred) (rs : List Replica) (i : ℕ) (w : W)
      → OkAttempt (lookup_step sys is_failure c path k rs i w).0
  unfolding lookup_step
  lookup_step-Ok k rs i w = elim (Option-cases (get_elem? rs i)) [
    | inl z ↦ at passed (simp (lookup_step, z)) tt
    | inr (r, g) ↦ elim (Bool-cases r.disabled) [
      | inl off ↦ at passed (simp (lookup_step, g, off)) tt
      | inr on ↦ elim (Option-cases r.path) [
        | inl z ↦ at passed (simp (lookup_step, g, on, z)) tt
        | inr (p, f) ↦
            let m = malloc (1 + length p + length path) in
            let v = (sys k m w).1 in
            let res = (sys k (c (p ++ path)) v).0 in
            elim (Bool-cases (is_nonzero (sys k m w).0.ret)) [
              | inr z ↦ at passed (simp (lookup_step, g, on, f, z)) tt
              | inl y ↦ elim (Bool-cases (is_failure res.ret)) [
                | inl bad ↦ at (missed (neg res.errno)) (simp (lookup_step, g, on, f, y, bad)) tt
                | inr good ↦
                    at (served res) (simp (lookup_step, g, on, f, y, good)) (ok k (p ++ path) v)
              ]
            ]
      ]
    ]
  ]
    where
      at :
          (a : Attempt)
          → (lookup_step sys is_failure c path k rs i w).0 ≡ a
          → OkAttempt a
          → OkAttempt (lookup_step sys is_failure c path k rs i w).0
      at a e h = subst OkAttempt (sym e) h

  after-Ok :
      (step : ℕ → W → Attempt × W) (i : ℕ) (order : List ℕ) (acc : Scanned) (v : W) (a : Attempt)
      → OkAttempt a
      → ((acc' : Scanned) → acc'.reply ≡ acc.reply → OkReply (walk step order acc' v).0.reply)
      → OkReply (after step i order acc a v).0.reply
  after-Ok step i order acc v passed h ih = ih acc refl
  after-Ok step i order acc v (missed e) h ih =
      ih (record acc { err_list = set acc.err_list i e; fail_cnt = suc acc.fail_cnt }) refl
  after-Ok step i order acc v (served x) h ih = h

  walk-Ok :
      (k : Cred) (rs : List Replica) (order : List ℕ) (acc : Scanned) (w : W)
      → acc.reply ≡ none
      → OkReply (walk (lookup_step sys is_failure c path k rs) order acc w).0.reply
  walk-Ok k rs [] acc w z = subst OkReply (sym z) tt
  walk-Ok k rs (i ∷ order) acc w z =
      let step = lookup_step sys is_failure c path k rs in
      subst (λ (out : Scanned × W). OkReply out.0.reply) (walk-cons step i order acc w)
        (after-Ok step i order acc (step i w).1 (step i w).0 (lookup_step-Ok k rs i w)
          (λ acc' e. walk-Ok k rs order acc' (step i w).1 (e ∙ z)))

module _ {W : Type 0} (sys : Kernel W) (ln : Links sys) where
  lookup-Fits :
      (op : String) (size : ℕ) (context : Cred) (path : Bytes) (s : State W)
      → Mounted s.config
      → (out : ReadReply) × (t : State W) × (lookup sys op is_minus_one
            (λ f. readlink f size)
            (λ r. r.stored ++ 0 ∷ [])
            context
            path
            s
          ≡ some (out, t))
        × (length out.buf ≤ 4096)
  unfolding lookup
  lookup-Fits op size context path s m = elim (Bool-cases (has_err_list sys context s)) [
    | inr n ↦ (
      record { ret = enomem; buf = [] },
      (reacquire_priv sys (started sys context s)).1,
      simp n,
      omega arith,
    )
    | inl y ↦
        let u = started sys context s in
        let c = λ (f : Bytes). readlink f size in
        let Short = λ (x : Reply). length x.stored < 4096 in
        let got =
          walk (lookup_step sys is_minus_one c path u.cred s.config.replicas) (order_of s.config)
            (nothing s.config.max_replica) u.world in
        let (v, w, left, e) =
          lookup_body-walked sys is_minus_one c path op (λ r. r.stored ++ 0 ∷ []) s.config u m
            (started_frame sys context s).0 in
        let out = finish sys op (pos 0) (served_cnt got.0.reply) got.0.fail_cnt got.0.err_list v in
        (
          record { ret = out.0; buf = kept (λ r. r.stored ++ 0 ∷ []) got.0.reply },
          out.1,
          rw y e,
          short got.0.reply (
              walk-Ok sys is_minus_one c path Short (λ k f w. ln k f size w) u.cred
                s.config.replicas (order_of s.config) (nothing s.config.max_replica) u.world refl),
        )
  ]
    where
      short :
          (x : Option Reply)
          → OkReply sys is_minus_one
              (λ f. readlink f size)
              path
              (λ x. length x.stored < 4096)
              (λ k f w. ln k f size w)
              x
          → length (kept (λ r. r.stored ++ 0 ∷ []) x) ≤ 4096
      short none h = omega arith
      short (some x) h = omega (arith, length-append x.stored (0 ∷ []), h)

  -- On a configuration as it is mounted chiron_readlink does not fault, and is `lookup`.
  pub chiron_readlink-lookup :
      (context : Cred) (path : Bytes) (size : ℕ) (s : State W)
      → Mounted s.config
      → 4096 ≤ size
      → chiron_readlink sys context path size s
        ≡ lookup sys "readlink" is_minus_one
            (λ f. readlink f size)
            (λ r. r.stored ++ 0 ∷ [])
            context
            path
            s
  unfolding chiron_readlink
  chiron_readlink-lookup context path size s m h =
      let (out, t, e, l) = lookup-Fits "readlink" size context path s m in
      let fits : ltb size (length out.buf) ≡ false = ground arith in simp (e, fits)
