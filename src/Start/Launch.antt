-- ===== src/Start/Launch.antt =====
-- How main starts the file system.
use mathlib.Core.Path.{subst}
use chironfs.Base.{
  ℕ, suc, ◌<◌, ◌^◌, ℤ, pos, is_nonzero, is_minus_one, true, false, ◌||◌, Option, none, some, List,
  [], ◌∷◌, ◌≡◌, refl, sym, ap, inl, inr, arith, Bool-cases, Option-cases, length, ◌>>=◌,
}
use chironfs.Model.{Bytes, Config, Kernel, State, call, umask, fopen}
use chironfs.Invariant.{Sane}
use chironfs.Mount.{Mounting, exited, ready, put_config}
use chironfs.Mount.Joined.{joined, plain, all_plain}
use chironfs.Mount.Ending.{any_high, Ended}
use chironfs.Mount.Startup.{Fresh, Roomy}
use chironfs.Mount.Established.{do_mount_total}
use chironfs.Start.{
  Options, is_unset, initial_config, OptEnd, returned, Running, stopped, running, open_log,
  mount_and_run, checked, main,
}

module _ {W : Type 0} where
  -- If main comes to the loop of FUSE then with `n` replicas, and a configuration as the requests need it.
  abbrev pub Launched : ℕ → Running W → Type 0
  Launched n (stopped e t) = Unit {0}
  Launched n (running t) = (t.config.max_replica ≡ n) × Sane t.config

  abbrev pub Launches : ℕ → Option (Running W) → Type 0
  Launches n o = (r : Running W) × (o ≡ some r) × Launched n r

Fresh-named :
    (c : Config)
    → Fresh c
    → (uid gid : ℕ) (m : Option Bytes) (name : Option Bytes)
    → Fresh (record c { uid = uid; gid = gid; mountpoint = m; ctl_socket_name = name })
Fresh-named c f uid gid m name = record {
  no_high = f.no_high;
  no_low = f.no_low;
  high_start = f.high_start;
  low_start = f.low_start;
  one = f.one;
}

initial_config-Fresh : Fresh initial_config
initial_config-Fresh = record {
  no_high = refl;
  no_low = refl;
  high_start = refl;
  low_start = refl;
  one = refl;
}

module _ {W : Type 0} (sys : Kernel W) where
  -- The replica argument is as do_mount needs it, and there is room for the files.
  pub record Mountable (strtok : Bytes → List Bytes) (token : Bytes) (tokens : List Bytes)
      : Type 0 where
    pub apart : strtok (joined token tokens) ≡ token ∷ tokens
    pub first_plain : plain token ≡ true
    pub rest_plain : all_plain tokens ≡ true
    pub some_high : any_high (token ∷ tokens) ≡ true
    pub few : suc (length tokens) < 2 ^ 31
    pub room : Roomy sys (suc (length tokens))

  launch-Ended :
      (n : ℕ) (o : Option (Mounting W))
      → Ended n o
      → Launches n
          (o >>= λ m. elim m [ exited e t ↦ some (stopped e t) | ready t ↦ some (running t) ])
  launch-Ended n o (exited e t, q, f) = rw q (stopped e t, refl, tt)
  launch-Ended n o (ready t, q, f) = rw q (running t, refl, f)

  mount_and_run_total :
      (strtok : Bytes → List Bytes) (token : Bytes) (tokens : List Bytes) (o : Options)
      (s : State W)
      → Mountable strtok token tokens
      → Fresh s.config
      → Launches (suc (length tokens)) (mount_and_run sys strtok o (joined token tokens) s)
  unfolding mount_and_run
  mount_and_run_total strtok token tokens o s m f = launch-Ended (suc (length tokens)) _ (
      do_mount_total sys strtok token tokens (put_config sys (named o.ctl_socket_name) s) m.apart
        m.first_plain m.rest_plain m.some_high m.few (named-Fresh o.ctl_socket_name) m.room)
    where
      named : Option Bytes → Config
      named none = record (s.config) { uid = s.cred.uid; gid = s.cred.gid }
      named (some name) = record (s.config) {
        uid = s.cred.uid;
        gid = s.cred.gid;
        ctl_socket_name = some name;
      }

      named-Fresh : (name : Option Bytes) → Fresh (named name)
      named-Fresh none =
          Fresh-named s.config f s.cred.uid s.cred.gid s.config.mountpoint s.config.ctl_socket_name
      named-Fresh (some name) =
          Fresh-named s.config f s.cred.uid s.cred.gid s.config.mountpoint (some name)

  open_log_total :
      (n : ℕ) (logname : Bytes) (next : State W → Option (Running W)) (s : State W)
      → ((u : State W) → u.config ≡ s.config → Launches n (next u))
      → Launches n (open_log sys logname next s)
  unfolding open_log call
  open_log_total n logname next s h =
      let (tmpmask, s1) = call sys (umask (pos 91)) s in
      let (logfd, s2) = call sys (fopen logname) s1 in
      let s3 = (call sys (umask tmpmask.ret) s2).1 in
      elim (Bool-cases (is_nonzero logfd.ret)) [
        | inl y ↦ rw y (h (record s3 { logfd = some [] }) refl)
        | inr z ↦ rw z (stopped (pos logfd.errno) s3, refl, tt)
      ]

  checked_total :
      (strtok : Bytes → List Bytes) (token : Bytes) (tokens : List Bytes) (o : Options) (m : Bytes)
      (s : State W)
      → Mountable strtok token tokens
      → Fresh s.config
      → o.replica_args ≡ some (joined token tokens)
      → o.mountpoint ≡ some m
      → Launches (suc (length tokens)) (checked sys strtok o s)
  unfolding checked
  checked_total strtok token tokens o m s mo f e g =
      let n = suc (length tokens) in
      let c : Config = record (s.config) { mountpoint = some m } in
      let s1 = put_config sys c s in
      let fresh =
        Fresh-named s.config f s.config.uid s.config.gid (some m) s.config.ctl_socket_name in
      elim (Option-cases o.logname) [
        | inl z ↦ simp (checked, e, g, z) (mount_and_run_total strtok token tokens o s1 mo fresh)
        | inr (logname, y) ↦
            simp (checked, e, g, y)
              (open_log_total n logname (mount_and_run sys strtok o (joined token tokens)) s1
                (λ u q. mount_and_run_total strtok token tokens o u mo (subst Fresh (sym q) fresh)))
      ]

  -- If fuse_opt_parse accepts the arguments, leaves the configuration as it is initialised, and finds a mount
  -- point and a replica argument that joins by '=' a list of tokens without '=', one of them of high priority,
  -- which strtok takes apart again, and if getrlimit reports at least six files and one for each replica,
  -- fewer than 2^31, then main ends or comes to the loop of FUSE: with one replica for each token, and a
  -- sane configuration (Invariant.Sane): the counters and tables of choose_replica fit the replicas, some
  -- replica is not disabled, and the table of open files has its size and no file that is not usable.
  pub main-Launches :
      (parse : State W → OptEnd W) (strtok : Bytes → List Bytes) (token : Bytes)
      (tokens : List Bytes) (res : ℤ) (o : Options) (m : Bytes) (s t : State W)
      → Mountable strtok token tokens
      → parse (call sys (umask (pos 0)) s).1 ≡ returned res o t
      → is_minus_one res ≡ false
      → t.config ≡ initial_config
      → o.replica_args ≡ some (joined token tokens)
      → o.mountpoint ≡ some m
      → Launches (suc (length tokens)) (main sys parse strtok s)
  unfolding main
  main-Launches parse strtok token tokens res o m s t mo p ok f e g =
      simp (main, p, ok)
        (checked_total strtok token tokens o m t mo (subst Fresh (sym f) initial_config-Fresh) e g)

  -- Without a replica argument, or without a mount point, or where fuse_opt_parse refuses the arguments,
  -- main ends with the status 1, and has mounted nothing: the state is as fuse_opt_parse left it.
  pub main-refused :
      (parse : State W → OptEnd W) (strtok : Bytes → List Bytes) (res : ℤ) (o : Options)
      (s t : State W)
      → parse (call sys (umask (pos 0)) s).1 ≡ returned res o t
      → (is_minus_one res || is_unset o.replica_args || is_unset o.mountpoint) ≡ true
      → main sys parse strtok s ≡ some (stopped (pos 1) t)
  unfolding main checked
  main-refused parse strtok res o s t p h = elim (Bool-cases (is_minus_one res)) [
    | inl y ↦ simp (main, p, y)
    | inr z ↦ elim (Option-cases o.replica_args) [
      | inl r ↦ simp (main, p, z, checked, r)
      | inr (a, r) ↦ elim (Option-cases o.mountpoint) [
        | inl q ↦ simp (main, p, z, checked, r, q)
        | inr (b, q) ↦ absurd (set_twice a b z r q)
      ]
    ]
  ]
    where
      set_twice :
          (a b : Bytes)
          → is_minus_one res ≡ false
          → o.replica_args ≡ some a
          → o.mountpoint ≡ some b
          → ⊥
      set_twice a b z r q =
          let y : is_unset o.replica_args ≡ false = ap is_unset r in
          let w : is_unset o.mountpoint ≡ false = ap is_unset q in ground arith
