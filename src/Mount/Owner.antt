-- ===== src/Mount/Owner.antt =====
-- What do_mount leaves alone: whose program it is, the mount point and the name of the control socket.
use mathlib.Core.Path.{subst}
use chironfs.Base.{
  ℕ, suc, ◌+◌, ℤ, pos, is_nonzero, Bool, true, false, Option, none, some, List, [], ◌∷◌, ◌≡◌, refl,
  sym, ◌∙◌, ◌⊎◌, inl, inr, Bool-cases, Option-cases, ◌>>=◌, if◌then◌else◌, get_elem?, set, length,
  ltb,
}
use chironfs.Model.{
  Bytes, Replica, Config, Kernel, State, call, calloc, getrlimit, setrlimit, realpath,
}
use chironfs.Hash.{u32}
use chironfs.Log.{log}
use chironfs.Policy.Laws.{log_frame}
use chironfs.Mount.{
  Mounting, exited, ready, is_low, path_of, set_priority, rlim_cur, rlim_max, put_config,
  raise_limit, read_limit, allocated, set_path, split_replicas, mount_tables, max_descriptors,
  table_size, mount_limited, do_mount, count_separators,
}

pub record Belongs (c c' : Config) : Type 0 where
  pub uid : c'.uid ≡ c.uid
  pub gid : c'.gid ≡ c.gid
  pub mountpoint : c'.mountpoint ≡ c.mountpoint
  pub ctl_socket_name : c'.ctl_socket_name ≡ c.ctl_socket_name

Belongs-same : (c c' : Config) → c' ≡ c → Belongs c c'
Belongs-same c c' e =
    subst (Belongs c) (sym e)
      (record { uid = refl; gid = refl; mountpoint = refl; ctl_socket_name = refl })

Belongs-trans : (a b c : Config) → Belongs a b → Belongs b c → Belongs a c
Belongs-trans a b c x y = record {
  uid = y.uid ∙ x.uid;
  gid = y.gid ∙ x.gid;
  mountpoint = y.mountpoint ∙ x.mountpoint;
  ctl_socket_name = y.ctl_socket_name ∙ x.ctl_socket_name;
}

-- A result, if there is one, has the property.
abbrev pub Each : {A : Type 0} → (A → Type 0) → Option A → Type 0
Each P none = Unit {0}
Each P (some x) = P x

pub Each-bind :
    {A B : Type 0} (P : A → Type 0) (Q : B → Type 0) (o : Option A) (f : A → Option B)
    → Each P o
    → ((x : A) → P x → Each Q (f x))
    → Each Q (o >>= f)
Each-bind P Q none f p h = tt
Each-bind P Q (some x) f p h = h x p

Each-either :
    {A : Type 0} (P : A → Type 0) (b d e : Bool) (x y : A)
    → P x
    → P y
    → Each P (if b then (if d then some x else none) else (if e then some y else none))
Each-either P true true e x y p q = p
Each-either P true false e x y p q = tt
Each-either P false d true x y p q = q
Each-either P false d false x y p q = tt

set_priority-Belongs :
    (i : ℕ) (token : Bytes) (c : Config) → Each (Belongs c) (set_priority i token c)
unfolding set_priority
set_priority-Belongs i token c =
    Each-bind (λ r. Unit {0}) (Belongs c) (get_elem? c.replicas i) _ (any (get_elem? c.replicas i))
      (λ r u.
        Each-either (Belongs c) (is_low token) _ _ _ _
          (record { uid = refl; gid = refl; mountpoint = refl; ctl_socket_name = refl })
          (record { uid = refl; gid = refl; mountpoint = refl; ctl_socket_name = refl }))
  where
    any : (o : Option Replica) → Each (λ r. Unit {0}) o
    any none = tt
    any (some r) = tt

module _ {W : Type 0} where
  abbrev pub state_of : Mounting W → State W
  state_of (exited e t) = t
  state_of (ready t) = t

  abbrev Mounts : Config → Option (Mounting W) → Type 0
  Mounts c = Each (λ m. Belongs c (state_of m).config)

module _ {W : Type 0} (sys : Kernel W) where
  set_path-Belongs :
      (i : ℕ) (p : Bytes) (s : State W)
      → Each (λ (t : State W). Belongs s.config t.config) (set_path sys i p s)
  unfolding set_path
  set_path-Belongs i p s = elim (Option-cases (get_elem? s.config.replicas i)) [
    | inl e ↦ rw e tt
    | inr (r, e) ↦
        let c : Config = record (s.config) {
          replicas = set s.config.replicas i (record r { path = some p; pathlen = length p });
        } in
        let text = if r.priority then "Replica priority low" else "Replica priority high" in
        let l = (log_frame text (some p) (pos 0) (put_config sys c s)).0 in
        rw e (
          Belongs-trans s.config c (log text (some p) (pos 0) (put_config sys c s)).config
            (record { uid = refl; gid = refl; mountpoint = refl; ctl_socket_name = refl })
            (Belongs-same c _ l))
  ]

  split_replicas-Belongs :
      (ts : List Bytes) (i : ℕ) (c : Config) (s : State W)
      → Belongs c s.config
      → Mounts c (split_replicas sys ts i s)
  unfolding split_replicas call
  split_replicas-Belongs [] i c s b = b
  split_replicas-Belongs (t ∷ ts) i c s b =
      Each-bind (Belongs s.config) _ (set_priority i t s.config) _
        (set_priority-Belongs i t s.config)
        (λ d h.
          let (p, u) = call sys (realpath (path_of t)) (put_config sys d s) in
          let k = Belongs-trans c s.config d b h in
          elim (Bool-cases (is_nonzero p.ret)) [
            | inr z ↦ rw z k
            | inl y ↦ rw y (
                Each-bind (λ (v : State W). Belongs d v.config) _ (set_path sys i p.stored u) _
                  (set_path-Belongs i p.stored u)
                  (λ v q. split_replicas-Belongs ts (suc i) c v (Belongs-trans c d v.config k q)))
          ])

  allocated-Belongs :
      (n size : ℕ) (code : ℕ → ℤ) (next : State W → Option (Mounting W)) (c : Config) (s : State W)
      → Belongs c s.config
      → ((u : State W) → u.config ≡ s.config → Mounts c (next u))
      → Mounts c (allocated sys n size code next s)
  unfolding allocated call
  allocated-Belongs n size code next c s b h =
      let (p, u) = call sys (calloc n size) s in
      elim (Bool-cases (is_nonzero p.ret)) [ inl y ↦ rw y (h u refl) | inr z ↦ rw z b ]

  mount_tables-Belongs :
      (ts : List Bytes) (size : ℕ) (c : Config) (s : State W)
      → Belongs c s.config
      → Mounts c (mount_tables sys ts size s)
  unfolding mount_tables
  mount_tables-Belongs ts size c s b =
      let n = s.config.max_replica in
      allocated-Belongs size 8 _ _ c s b (λ u1 e1.
        let b1 = Belongs-trans c s.config u1.config b (Belongs-same s.config u1.config e1) in
        allocated-Belongs n 40 _ _ c u1 b1 (λ u2 e2.
          let b2 = Belongs-trans c u1.config u2.config b1 (Belongs-same u1.config u2.config e2) in
          allocated-Belongs n 4 _ _ c u2 b2 (λ u3 e3.
            let b3 = Belongs-trans c u2.config u3.config b2 (Belongs-same u2.config u3.config e3) in
            allocated-Belongs n 4 _ _ c u3 b3 (λ u4 e4.
              let b4 =
                Belongs-trans c u3.config u4.config b3 (Belongs-same u3.config u4.config e4) in
              split_replicas-Belongs ts 0 c _ (record {
                uid = b4.uid;
                gid = b4.gid;
                mountpoint = b4.mountpoint;
                ctl_socket_name = b4.ctl_socket_name;
              })))))

  read_limit_config : (s : State W) → (read_limit sys s).1.config ≡ s.config
  unfolding read_limit raise_limit call
  read_limit_config s =
      let (r, s0) = call sys getrlimit s in
      let (q, s1) = call sys (setrlimit (rlim_max r) (rlim_max r)) s0 in
      let (g, s2) = call sys getrlimit s1 in
      elim (Bool-cases (is_nonzero r.ret)) [
        | inl y ↦ rw y refl
        | inr z ↦ elim (Bool-cases (ltb (rlim_cur r) (rlim_max r))) [
          | inr same ↦ rw (z, same) refl
          | inl raised ↦ elim (Bool-cases (is_nonzero q.ret)) [
            | inl y ↦ rw (z, raised, y) refl
            | inr x ↦ elim (Bool-cases (is_nonzero g.ret)) [
              | inl y ↦ rw (z, raised, x, y) refl
              | inr y ↦ rw (z, raised, x, y) refl
            ]
          ]
        ]
      ]

  mount_limited-Belongs :
      (ts : List Bytes) (out : (ℕ ⊎ ℕ) × State W) (c : Config)
      → Belongs c out.1.config
      → Mounts c (mount_limited sys ts out)
  unfolding mount_limited
  mount_limited-Belongs ts (inl e, s) c b = b
  mount_limited-Belongs ts (inr cur, s) c b =
      Each-bind (λ n. Unit {0}) _ (max_descriptors cur s.config.max_replica) _
        (any (max_descriptors cur s.config.max_replica))
        (λ tmpfd u.
          Each-bind (λ n. Unit {0}) _ (table_size s.config.fd_buf_size tmpfd) _
            (any (table_size s.config.fd_buf_size tmpfd))
            (λ size v. mount_tables-Belongs ts size c s b))
    where
      any : (o : Option ℕ) → Each (λ n. Unit {0}) o
      any none = tt
      any (some n) = tt

  -- Whatever do_mount is given, and however it ends, it leaves the user and the group of the program, the
  -- mount point and the name of the control socket alone.
  pub do_mount-Belongs :
      (strtok : Bytes → List Bytes) (filesystems : Bytes) (s : State W)
      → Each (λ m. Belongs s.config (state_of m).config) (do_mount sys strtok filesystems s)
  unfolding do_mount
  do_mount-Belongs strtok filesystems s =
      let c : Config = record (s.config) {
        max_replica = u32 (count_separators 0 filesystems + 1);
      } in
      mount_limited-Belongs (strtok filesystems) (read_limit sys (put_config sys c s)) s.config (
        Belongs-trans s.config c _
          (record { uid = refl; gid = refl; mountpoint = refl; ctl_socket_name = refl })
          (Belongs-same c _ (read_limit_config (put_config sys c s))))
