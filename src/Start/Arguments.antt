-- ===== src/Start/Arguments.antt =====
-- What chironfs_opt_proc makes of the arguments that are not options.
use chironfs.Start.Launch.{main-refused}
use mathlib.Core.Path.{subst}
use chironfs.Base.{
  ℤ, pos, is_nonzero, is_minus_one, Bool, true, false, ◌&&◌, Option, none, some, List, [], ◌∷◌, ◌≡◌,
  refl, ◌∙◌, inl, inr, arith, Bool-cases, if◌then◌else◌, sym, Option-cases, ap, ◌||◌,
}
use chironfs.Model.{
  Bytes, Cred, Config, realpath, strdup, fuse_opt_add_arg, Kernel, State, call, umask,
}
use chironfs.Start.{
  Options, key_nonopt, OptEnd, exits, returned, has_separator, is_unset, copied, take_mountpoint,
  chironfs_opt_proc, main, stopped,
}

-- Copies find memory, paths can be resolved, and FUSE takes the argument.
pub record Resolves {W : Type 0} (sys : Kernel W) : Type 0 where
  pub copies : (k : Cred) (text : Bytes) (w : W) → is_nonzero (sys k (strdup text) w).0.ret ≡ true
  pub resolves :
      (k : Cred) (path : Bytes) (w : W) → is_nonzero (sys k (realpath path) w).0.ret ≡ true
  pub takes : (k : Cred) (arg : Bytes) (w : W) → (sys k (fuse_opt_add_arg arg) w).0.ret ≡ pos 0

-- The first argument with a '='.
abbrev pub first_joined : List Bytes → Option Bytes
first_joined [] = none
first_joined (a ∷ rest) = if has_separator a then some a else first_joined rest

abbrev head : List Bytes → Option Bytes
head [] = none
head (a ∷ rest) = some a

-- The first argument besides the first one with a '='.
abbrev pub first_other : List Bytes → Option Bytes
first_other [] = none
first_other (a ∷ rest) = if has_separator a then head rest else some a

abbrev pub no_options : Options
no_options = record {
  ctl_socket_name = none;
  replica_args = none;
  logname = none;
  mountpoint = none;
  quiet = false;
}

module _ {W : Type 0} (sys : Kernel W) where
  -- chironfs_opt_proc on one argument after the other, until one is refused.
  unfoldable pub proc_all : List Bytes → Options → State W → OptEnd W
  proc_all [] o s = returned (pos 0) o s
  proc_all (a ∷ rest) o s = elim (chironfs_opt_proc sys key_nonopt a o s) [
    | exits t ↦ exits t
    | returned r p t ↦
        let more = proc_all rest p t in if is_minus_one r then returned r p t else more
  ]

  -- The mount point that an argument gives: what realpath makes of it.
  abbrev pub IsMount : Option Bytes → Option Bytes → Type 0
  IsMount none m = m ≡ none
  IsMount (some a) m = (k : Cred) × (w : W) × (m ≡ some (sys k (realpath a) w).0.stored)

  -- One that has been set stays.
  abbrev IsMountAfter : Option Bytes → Option Bytes → Option Bytes → Type 0
  IsMountAfter (some y) a m = m ≡ some y
  IsMountAfter none a m = IsMount a m

  -- No argument is refused, and these are the options afterwards.
  abbrev pub Chosen : OptEnd W → Option Bytes → (Option Bytes → Type 0) → Config → Type 0
  Chosen e replicas Mount c =
      (r : ℤ) × (o : Options) × (t : State W) × (e ≡ returned r o t)
      × (is_minus_one r ≡ false)
      × (o.replica_args ≡ replicas)
      × Mount o.mountpoint
      × (t.config ≡ c)

  IsMountAfter-other :
      (old : Option Bytes) (a : Bytes) (p next m : Option Bytes)
      → IsMountAfter old (some a) p
      → IsMountAfter p next m
      → IsMountAfter old (some a) m
  IsMountAfter-other old a (some y) next m h g = subst (IsMountAfter old (some a)) (sym g) h
  IsMountAfter-other (some y) a none next m h g = cc
  IsMountAfter-other none a none next m (k, w, h) g = cc

  -- One argument: a first one with a '=' are the replicas; another is the mount point if there is none.
  one_joined :
      Resolves sys
      → (a : Bytes) (o : Options) (s : State W) → o.replica_args ≡ none
      → has_separator a ≡ true
      → (t : State W) × (chironfs_opt_proc sys key_nonopt a o s
          ≡ returned (pos 0) (record o { replica_args = some a }) t)
        × (t.config ≡ s.config)
  unfolding chironfs_opt_proc copied call
  one_joined res a o s n h =
      let t : State W = (call sys (strdup a) s).1 in
      (t, simp (n, h, res.copies s.cred a s.world), refl)

  one_other :
      Resolves sys
      → (a : Bytes) (o : Options) (s : State W)
      → (is_unset o.replica_args && has_separator a) ≡ false
      → (r : ℤ) × (p : Options) × (t : State W) × (chironfs_opt_proc sys key_nonopt a o s
          ≡ returned r p t)
        × (is_minus_one r ≡ false)
        × (p.replica_args ≡ o.replica_args)
        × IsMountAfter o.mountpoint (some a) p.mountpoint
        × (t.config ≡ s.config)
  unfolding chironfs_opt_proc take_mountpoint copied call
  one_other res a o s h = elim (Option-cases o.mountpoint) [
    | inr (y, set) ↦ (
      pos 1,
      o,
      s,
      simp (h, set),
      refl,
      refl,
      subst (λ m. IsMountAfter m (some a) o.mountpoint) (sym set) set,
      refl,
    )
    | inl unset ↦
        let (p, s1) = call sys (realpath a) s in
        let s2 : State W = (call sys (strdup p.stored) s1).1 in
        let (added, s3) = call sys (fuse_opt_add_arg p.stored) s2 in
        (
          added.ret,
          record o { mountpoint = some p.stored },
          s3,
          simp (h, unset, res.resolves s.cred a s.world, res.copies s1.cred p.stored s1.world),
          rw (res.takes s2.cred p.stored s2.world) refl,
          refl,
          subst (λ m. IsMountAfter m (some a) (some p.stored)) (sym unset) (s.cred, s.world, refl),
          refl,
        )
  ]

  -- Once there are replicas.
  rest-Chosen :
      Resolves sys
      → (rest : List Bytes) (o : Options) (s : State W) (x : Bytes) → o.replica_args ≡ some x
      → Chosen (proc_all rest o s) (some x) (IsMountAfter o.mountpoint (head rest)) s.config
  unfolding proc_all
  rest-Chosen res [] o s x e = (pos 0, o, s, refl, refl, e, same o.mountpoint, refl)
    where
      same : (m : Option Bytes) → IsMountAfter m none m
      same none = refl
      same (some y) = refl
  rest-Chosen res (a ∷ rest) o s x e =
      let (r, p, t, q, ok, same, set, f) = one_other res a o s (rw e refl) in
      let (r', p', t', q', ok', same', set', f') = rest-Chosen res rest p t x (same ∙ e) in
      (
        r',
        p',
        t',
        simp (proc_all, q, ok, q'),
        ok',
        same',
        IsMountAfter-other o.mountpoint a p.mountpoint (head rest) p'.mountpoint set set',
        f' ∙ f,
      )

  all-Chosen :
      Resolves sys
      → (args : List Bytes) (o : Options) (s : State W) → o.replica_args ≡ none
      → Chosen
          (proc_all args o s)
          (first_joined args)
          (IsMountAfter o.mountpoint (first_other args))
          s.config
  unfolding proc_all
  all-Chosen res [] o s e = (pos 0, o, s, refl, refl, e, same o.mountpoint, refl)
    where
      same : (m : Option Bytes) → IsMountAfter m none m
      same none = refl
      same (some y) = refl
  all-Chosen res (a ∷ rest) o s e = elim (Bool-cases (has_separator a)) [
    | inl y ↦
        let (t, q, f) = one_joined res a o s e y in
        let (r', p', t', q', ok', same', set', f') =
          rest-Chosen res rest (record o { replica_args = some a }) t a refl in
        (
          r',
          p',
          t',
          simp (proc_all, q, q'),
          ok',
          subst (λ (b : Bool). p'.replica_args ≡ (if b then some a else first_joined rest)) (sym y)
              same',
          subst
              (λ (b : Bool).
                IsMountAfter o.mountpoint (if b then head rest else some a) p'.mountpoint)
              (sym y) set',
          f' ∙ f,
        )
    | inr z ↦
        let (r, p, t, q, ok, same, set, f) = one_other res a o s (ground arith) in
        let (r', p', t', q', ok', same', set', f') = all-Chosen res rest p t (same ∙ e) in
        (
          r',
          p',
          t',
          simp (proc_all, q, ok, q'),
          ok',
          subst (λ (b : Bool). p'.replica_args ≡ (if b then some a else first_joined rest)) (sym z)
              same',
          subst
              (λ (b : Bool).
                IsMountAfter o.mountpoint (if b then head rest else some a) p'.mountpoint)
              (sym z)
              (IsMountAfter-other o.mountpoint a p.mountpoint (first_other rest) p'.mountpoint set
                set'),
          f' ∙ f,
        )
  ]

  -- Of the arguments that are not options, in whatever order they come, the first one with a '=' is taken for
  -- the replicas, and of the others the first for the mount point, which is the path that realpath finds for
  -- it; there is none if there is no other. No argument is refused, if memory is found, paths can be
  -- resolved, and FUSE takes the mount point.
  pub proc_all-Chosen :
      Resolves sys
      → (args : List Bytes) (s : State W)
      → Chosen
          (proc_all args no_options s)
          (first_joined args)
          (IsMount (first_other args))
          s.config
  proc_all-Chosen res args s = all-Chosen res args no_options s refl

  -- If fuse_opt_parse hands the arguments to chironfs_opt_proc, one after the other, and none of them has a '=',
  -- or there is none but the first with a '=', then main ends with the status 1, and the configuration is
  -- that from before. Memory is found, paths can be resolved, and
  -- FUSE takes the mount point.
  pub main-unusable :
      Resolves sys
      → (args : List Bytes) (strtok : Bytes → List Bytes) (s : State W)
      → (is_unset (first_joined args) || is_unset (first_other args)) ≡ true
      → (t : State W) × (main sys (proc_all args no_options) strtok s ≡ some (stopped (pos 1) t))
        × (t.config ≡ s.config)
  unfolding call
  main-unusable res args strtok s h =
      let u = (call sys (umask (pos 0)) s).1 in
      let (r, o, t, e, ok, rep, mount, f) = proc_all-Chosen res args u in
      let none_left : (is_unset o.replica_args || is_unset o.mountpoint) ≡ true =
        missing (first_joined args) (first_other args) o.replica_args o.mountpoint rep mount h in
      (t, main-refused sys (proc_all args no_options) strtok r o s t e (ground arith), f)
    where
      missing :
          (j m a b : Option Bytes)
          → a ≡ j
          → IsMount m b
          → (is_unset j || is_unset m) ≡ true
          → (is_unset a || is_unset b) ≡ true
      missing none m a b e i h = ground (arith, ap is_unset e)
      missing (some x) none a b e i h = ground (arith, ap is_unset i)
      missing (some x) (some y) a b e i h = cc
