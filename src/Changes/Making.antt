-- ===== src/Changes/Making.antt =====
-- What chiron_mknod returns.
use mathlib.Core.Path.{subst, fun_ext}
use chironfs.Base.{
  ℕ, ◌+◌, ℤ, pos, is_nonzero, Bool, true, false, ◌||◌, Option, none, some, List, [], ◌∷◌, ◌≡◌, refl,
  sym, ap, ◌∙◌, inl, inr, arith, Bool-cases, Option-cases, if◌then◌else◌, length,
}
use chironfs.Model.{Bytes, Replica, Cred, Config, mkfifo, Kernel, Posix, State, call}
use chironfs.Priv.{reacquire_priv}
use chironfs.Priv.Laws.{reacquire_priv_frame}
use chironfs.Mirror.{
  Visit, skipped, enosys, finish, succ_cnt, fail_cnt, err_list, xlate, try_call, visit, visit_all,
  with_err_list, mirror_body, mirror,
}
use chironfs.Mirror.Laws.{
  ErrorOf, SameButWorld, IsIteration, started, started_frame, has_err_list, visit-IsIteration,
  try_call_nonzero, with_err_list_some,
}
use chironfs.Mirror.Outcome.{Outcome, mirror-Outcome}
use chironfs.Mirror.Survivor.{any_enabled}
use chironfs.Mirror.Calls.{Allocates}
use chironfs.Namespace.{is_reg, is_fifo, make_reg, mknod_visit, mknod_loop, chiron_mknod}
use chironfs.Changes.Nodes.{make_reg-IsBody, mknod_loop_lem}

-- Every replica has a path.
abbrev pub Pathed : List Replica → Type 0
Pathed [] = Unit {0}
Pathed (r ∷ rs) = ((p : Bytes) × (r.path ≡ some p)) × Pathed rs

module _ {W : Type 0} (sys : Kernel W) (context : Cred) where
  -- What is made of a file name: a regular file, or else a pipe.
  abbrev pub make_node : ℕ → Bytes → State W → Visit × State W
  make_node mode f s =
      if is_reg mode
      then make_reg sys context mode f s
      else try_call sys is_nonzero (mkfifo f mode) s

  abbrev pub node_iteration : Bytes → ℕ → Replica → State W → Visit × State W
  node_iteration path mode r = visit sys (make_node mode) path r

  -- The end of chiron_mknod, from how its loop ended.
  abbrev node_end : Option (List Visit) × State W → ℤ × State W
  node_end p = elim p.0 [
    | none ↦ (enosys, (reacquire_priv sys p.1).1)
    | some vs ↦ finish sys "mknod" (pos 0) (succ_cnt vs) (fail_cnt vs) (err_list vs) p.1
  ]

  with_err_list-ext :
      (f g : State W → ℤ × State W) (s : State W)
      → ((u : State W) → f u ≡ g u)
      → with_err_list sys context f s ≡ with_err_list sys context g s
  unfolding with_err_list
  with_err_list-ext f g s h = rw (fun_ext h) refl

  module _ (path : Bytes) (mode : ℕ) (known : (is_reg mode || is_fifo mode) ≡ true) where
    mknod_visit-visit :
        (r : Replica) (s : State W)
        → let (v, t) = node_iteration path mode r s in
          mknod_visit sys context path mode r s ≡ (some v, t)
    unfolding mknod_visit visit
    mknod_visit-visit r s = elim (Bool-cases r.disabled) [
      | inl off ↦ simp off
      | inr on ↦ elim (Option-cases (xlate sys path r.path s).0) [
        | inl e ↦ simp (on, e)
        | inr (f, e) ↦ elim (Bool-cases (is_reg mode)) [
          | inl reg ↦ simp (on, e, reg)
          | inr reg ↦ let fifo : is_fifo mode ≡ true = ground arith in simp (on, e, reg, fifo)
        ]
      ]
    ]

    mknod_loop-visit_all :
        (rs : List Replica) (s : State W)
        → let (vs, t) = visit_all (node_iteration path mode) rs s in
          mknod_loop sys context path mode rs s ≡ (some vs, t)
    unfolding mknod_loop visit_all
    mknod_loop-visit_all [] s = refl
    mknod_loop-visit_all (r ∷ rs) s =
        let u : State W = (node_iteration path mode r s).1 in
        simp (mknod_loop, mknod_visit-visit r s, mknod_loop-visit_all rs u)

    -- For regular files and pipes chiron_mknod is a handler like the others.
    pub chiron_mknod-mirror :
        (s : State W)
        → chiron_mknod sys context path mode s
          ≡ mirror sys "mknod" context (node_iteration path mode) s
    unfolding chiron_mknod mirror mirror_body
    chiron_mknod-mirror s =
        with_err_list-ext _ _ s (λ u. ap node_end (mknod_loop-visit_all u.config.replicas u))

  pub node-IsIteration :
      Posix sys → (path : Bytes) (mode : ℕ) → IsIteration (node_iteration path mode)
  node-IsIteration posix path mode =
      visit-IsIteration sys (λ r. make_node mode) path (λ r f s. either f s (is_reg mode))
    where
      either :
          (f : Bytes) (s : State W) (b : Bool)
          → let out =
              if b
              then make_reg sys context mode f s
              else try_call sys is_nonzero (mkfifo f mode) s in
            ErrorOf out.0 × SameButWorld s out.1
      either f s true = make_reg-IsBody sys context posix mode f s
      either f s false = try_call_nonzero sys posix (mkfifo f mode) refl s

  -- If failed calls set errno, then chiron_mknod for a regular file or a pipe, once it has `err_list`, returns 0
  -- and disables exactly the replicas on which the file could not be made if it could be made on some replica;
  -- otherwise it returns the first error and disables none.
  pub chiron_mknod-Outcome :
      Posix sys
      → (path : Bytes) (mode : ℕ) (s : State W) → (is_reg mode || is_fifo mode) ≡ true
      → has_err_list sys context s ≡ true
      → let out = chiron_mknod sys context path mode s in
        Outcome
          (pos 0)
          s.config.replicas
          (visit_all (node_iteration path mode) s.config.replicas (started sys context s)).0
          out.0
          out.1.config.replicas
  chiron_mknod-Outcome posix path mode s known h = rw (chiron_mknod-mirror path mode known s) (
      mirror-Outcome sys "mknod" context (node_iteration path mode)
        (node-IsIteration posix path mode) s h)

  module _ (al : Allocates sys) (path : Bytes) (mode : ℕ)
      (other : (is_reg mode || is_fifo mode) ≡ false) where
    mknod_visit-none :
        (r : Replica) (p : Bytes) (s : State W)
        → r.disabled ≡ false
        → r.path ≡ some p
        → (mknod_visit sys context path mode r s).0 ≡ none
    unfolding mknod_visit xlate call
    mknod_visit-none r p s on e =
        let reg : is_reg mode ≡ false = ground arith in
        let fifo : is_fifo mode ≡ false = ground arith in
        simp (on, e, (al s.cred (1 + length p + length path) 0 s.world).0, reg, fifo)

    mknod_visit_off :
        (r : Replica) (s : State W)
        → r.disabled ≡ true
        → mknod_visit sys context path mode r s ≡ (some skipped, s)
    unfolding mknod_visit
    mknod_visit_off r s off = simp off

    mknod_loop-none :
        (rs : List Replica) (s : State W)
        → Pathed rs
        → any_enabled rs ≡ true
        → (mknod_loop sys context path mode rs s).0 ≡ none
    unfolding mknod_loop
    mknod_loop-none [] s ps h = cc
    mknod_loop-none (r ∷ rs) s ((p, e), ps) h = elim (Bool-cases r.disabled) [
      | inr on ↦ simp (mknod_loop, mknod_visit-none r p s on e)
      | inl off ↦ simp (mknod_loop, mknod_visit_off r s off, mknod_loop-none rs s ps (ground arith))
    ]

    config_of :
        Posix sys
        → (s : State W) → (mknod_loop sys context path mode s.config.replicas s).1.config ≡ s.config
    config_of posix s = (mknod_loop_lem sys context posix path mode s.config.replicas s).1.0

    -- For any other kind of file chiron_mknod returns -ENOSYS, once it has `err_list`, and leaves the
    -- configuration alone, if memory is found, failed calls set errno, every replica has a path, and one is not
    -- disabled.
    pub chiron_mknod-enosys :
        Posix sys
        → (s : State W) → Pathed s.config.replicas
        → any_enabled s.config.replicas ≡ true
        → has_err_list sys context s ≡ true
        → let out = chiron_mknod sys context path mode s in
          (out.0 ≡ enosys) × (out.1.config ≡ s.config)
    unfolding chiron_mknod
    chiron_mknod-enosys posix s ps h y =
        let u = started sys context s in
        let f = (started_frame sys context s).0 in
        let run = mknod_loop sys context path mode u.config.replicas u in
        let z =
          mknod_loop-none u.config.replicas u (subst (λ (c : Config). Pathed c.replicas) (sym f) ps)
            (subst (λ (c : Config). any_enabled c.replicas ≡ true) (sym f) h) in
        rw (with_err_list_some sys context _ s y)
          (simp z (refl, (reacquire_priv_frame sys run.1).0 ∙ config_of posix u ∙ f))
