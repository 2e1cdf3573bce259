-- ===== src/Start/Owner.antt =====
-- Whose file system main starts, and where.
use chironfs.Base.{
  ℤ, pos, is_nonzero, is_minus_one, Option, none, some, List, [], ◌≡◌, refl, ◌∙◌, inl, inr,
  Bool-cases, Option-cases, ◌>>=◌,
}
use chironfs.Model.{Bytes, Config, Cred, Kernel, State, call, umask, fopen}
use chironfs.Mount.{Mounting, exited, ready, do_mount, put_config}
use chironfs.Mount.Owner.{Belongs, Each, Each-bind, state_of, do_mount-Belongs}
use chironfs.Start.{
  Options, OptEnd, returned, Running, stopped, running, open_log, mount_and_run, checked, main,
}

-- The name of the control socket, if the options have none.
abbrev pub socket_name : Option Bytes → Option Bytes → Option Bytes
socket_name none old = old
socket_name (some name) old = some name

module _ {W : Type 0} where
  -- If main comes to the loop of FUSE then as this user and group, with this mount point and socket.
  abbrev pub Owned : Cred → Option Bytes → Option Bytes → Running W → Type 0
  Owned k point name (stopped e u) = Unit {0}
  Owned k point name (running u) =
      (u.config.uid ≡ k.uid)
      × (u.config.gid ≡ k.gid)
      × (u.config.mountpoint ≡ point)
      × (u.config.ctl_socket_name ≡ name)

  settled :
      (k : Cred) (m : Mounting W) (d : Config)
      → d.uid ≡ k.uid
      → d.gid ≡ k.gid
      → Belongs d (state_of m).config
      → Each
          (Owned k d.mountpoint d.ctl_socket_name)
          (elim m [ exited x t ↦ some (stopped x t) | ready t ↦ some (running t) ])
  settled k (exited x t) d u g b = tt
  settled k (ready t) d u g b = (b.uid ∙ u, b.gid ∙ g, b.mountpoint, b.ctl_socket_name)

module _ {W : Type 0} (sys : Kernel W) where
  mount_and_run-Owned :
      (strtok : Bytes → List Bytes) (o : Options) (args : Bytes) (s : State W)
      → Each
          (Owned s.cred s.config.mountpoint
            (socket_name o.ctl_socket_name s.config.ctl_socket_name))
          (mount_and_run sys strtok o args s)
  unfolding mount_and_run
  mount_and_run-Owned strtok o args s =
      let c : Config = record (s.config) { uid = s.cred.uid; gid = s.cred.gid } in
      elim (Option-cases o.ctl_socket_name) [
        | inl z ↦ rw z (mounted c refl refl)
        | inr (name, z) ↦ rw z (mounted (record c { ctl_socket_name = some name }) refl refl)
      ]
    where
      mounted :
          (d : Config)
          → d.uid ≡ s.cred.uid
          → d.gid ≡ s.cred.gid
          → Each (Owned s.cred d.mountpoint d.ctl_socket_name) (
              do_mount sys strtok args (put_config sys d s) >>= λ m. elim m [
                | exited x t ↦ some (stopped x t)
                | ready t ↦ some (running t)
              ])
      mounted d u g =
          Each-bind (λ m. Belongs d (state_of m).config) _
            (do_mount sys strtok args (put_config sys d s)) _
            (do_mount-Belongs sys strtok args (put_config sys d s))
            (λ m b. settled s.cred m d u g b)

  -- Whatever the options are: if main comes to the loop of FUSE, then its configuration holds the effective
  -- user and group under which it was started, to which each handler comes back, the mount point of the
  -- options, and the name of the control socket if they have one.
  pub main-Owned :
      (parse : State W → OptEnd W) (strtok : Bytes → List Bytes) (res : ℤ) (o : Options)
      (s t : State W)
      → parse (call sys (umask (pos 0)) s).1 ≡ returned res o t
      → Each
          (Owned t.cred o.mountpoint (socket_name o.ctl_socket_name t.config.ctl_socket_name))
          (main sys parse strtok s)
  unfolding main checked open_log call
  main-Owned parse strtok res o s t p = elim (Bool-cases (is_minus_one res)) [
    | inl y ↦ simp (main, p, y) tt
    | inr z ↦ elim (Option-cases o.replica_args) [
      | inl r ↦ simp (main, p, z, checked, r) tt
      | inr (a, r) ↦ elim (Option-cases o.mountpoint) [
        | inl q ↦ simp (main, p, z, checked, r, q) tt
        | inr (b, q) ↦ elim (Option-cases o.logname) [
          | inl l ↦
              simp (main, p, z, checked, r, q, l)
                (mount_and_run-Owned strtok o a
                  (record t { config = record (t.config) { mountpoint = some b } }))
          | inr (n, l) ↦
              let u = put_config sys (record (t.config) { mountpoint = some b }) t in
              let (tmpmask, s1) = call sys (umask (pos 91)) u in
              let (logfd, s2) = call sys (fopen n) s1 in
              let s3 = (call sys (umask tmpmask.ret) s2).1 in
              elim (Bool-cases (is_nonzero logfd.ret)) [
                | inl y ↦
                    simp (main, p, z, checked, r, q, l, y)
                      (mount_and_run-Owned strtok o a (record s3 { logfd = some [] }))
                | inr x ↦ simp (main, p, z, checked, r, q, l, x) tt
              ]
        ]
      ]
    ]
  ]
