-- ===== src/FileIo/Served.antt =====
-- What chiron_read answers.
use chironfs.Priv.Laws.{drop_priv_frame}
use mathlib.Core.Path.{subst}
use chironfs.Base.{
  ℕ, ◌<◌, ℤ, neg, is_negative, true, false, ◌||◌, ◌==◌, Option, none, some, List, [], ◌≡◌, refl,
  sym, ap, ◌∙◌, inl, inr, arith, Bool-cases, if◌then◌else◌, length, get_elem?, set,
}
use chironfs.Model.{Replica, pread, Config, Cred, Reply, Kernel, State, call}
use chironfs.Policy.{get_first_error}
use chironfs.Policy.Laws.{marked}
use chironfs.Mirror.{finish}
use chironfs.Mirror.Laws.{started, started_frame, has_err_list}
use chironfs.Scan.{Attempt, passed, missed, served, Scanned}
use chironfs.Scan.Total.{Mounted, get_elem?-lt}
use chironfs.Scan.Reference.{order_of, nothing, walk, Follows, scan_all-walk, LeavesAll, Leaves}
use chironfs.Scan.Result.{result_of, replicas_of, finish-scanned}
use chironfs.FileIo.{
  ReadReply, read_attempt, read_body, chiron_read, put_replica, count_up, served_cnt, served_ret,
  served_bytes,
}

module _ {W : Type 0} (sys : Kernel W) (fds : List ℤ) (size : ℕ) (offset : ℤ) where
  -- A read at one replica, by the caller `k`: one that is disabled or has no descriptor is passed over.
  unfoldable pub read_step : Cred → List Replica → ℕ → W → Attempt × W
  read_step k rs i w = elim (get_elem? rs i) [
    | none ↦ (passed, w)
    | some r ↦ elim (get_elem? fds i) [
      | none ↦ (passed, w)
      | some fd ↦
          let (res, u) = sys k (pread fd size offset) w in
          if is_negative fd || r.disabled
          then (passed, w)
          else if is_negative res.ret
          then (missed (neg res.errno), u)
          else (served res, u)
    ]
  ]

  -- The replicas after a read that was served with `x`: the one whose descriptor was read counts it.
  pub data Counted (k : Cred) (rs : List Replica) (x : Reply) (qs : List Replica) : Type 0 where
    counted :
        (i : ℕ) (r : Replica) (fd : ℤ) (w : W)
        → get_elem? rs i ≡ some r
        → get_elem? fds i ≡ some fd
        → (is_negative fd || r.disabled) ≡ false
        → x ≡ (sys k (pread fd size offset) w).0
        → qs ≡ set rs i (record r { totrd = count_up r.totrd })
        → Counted k rs x qs

  -- An attempt at the replica `i` does what the step says.
  abbrev FollowsAt : Cred → List Replica → ℕ → State W → Attempt × W → Type 0
  FollowsAt k rs i s one =
      (s' : State W) × (read_attempt sys fds size offset i s ≡ some (one.0, s'))
      × (s'.world ≡ one.1)
      × (s'.cred ≡ k)
      × Leaves (Counted k rs) one.0 s.config s'.config

  read_attempt-FollowsAt :
      (i : ℕ) (s : State W)
      → length fds ≡ length s.config.replicas
      → i < length s.config.replicas
      → FollowsAt s.cred s.config.replicas i s (read_step s.cred s.config.replicas i s.world)
  unfolding read_attempt read_step call
  read_attempt-FollowsAt i s same l =
      let rs = s.config.replicas in
      let (r, a) = get_elem?-lt rs i l in
      let (fd, b) = get_elem?-lt fds i (omega arith) in
      let (res, u) = call sys (pread fd size offset) s in
      let at = λ (one : Attempt × W) (e : read_step s.cred rs i s.world ≡ one).
        subst (FollowsAt s.cred rs i s) (sym e) in
      elim (Bool-cases (is_negative fd || r.disabled)) [
        | inl off ↦
            at (passed, s.world) (simp (read_step, a, b, off))
              (s, simp (a, b, off), refl, refl, refl)
        | inr on ↦ elim (Bool-cases (is_negative res.ret)) [
          | inl bad ↦
              at (missed (neg res.errno), u.world) (simp (read_step, a, b, on, bad))
                (u, simp (a, b, on, bad), refl, refl, refl)
          | inr ok ↦
              let r' : Replica = record r { totrd = count_up r.totrd } in
              at (served res, u.world) (simp (read_step, a, b, on, ok))
                (
                  put_replica sys i r' u,
                  simp (a, b, on, ok),
                  refl,
                  refl,
                  counted i r fd s.world a b on refl refl,
                )
        ]
      ]

  read_attempt-Follows :
      (k : Cred) (rs : List Replica)
      → length fds ≡ length rs
      → Follows (read_attempt sys fds size offset) (read_step k rs) k rs (Counted k rs)
  read_attempt-Follows k rs same i s e g l =
      subst (λ x. FollowsAt x rs i s (read_step x rs i s.world)) g
        (subst (λ q. FollowsAt s.cred q i s (read_step s.cred q i s.world)) e
          (read_attempt-FollowsAt i s (same ∙ ap length (sym e)) (omega (arith, ap length e))))

  -- What comes of a walk through the replicas, which is what the loop leaves.
  abbrev pub read_through : Cred → Config → W → Scanned
  read_through k g w = (walk (read_step k g.replicas) (order_of g) (nothing g.max_replica) w).0

  -- How a read ends.
  pub data ReadEnd (k : Cred) (rs : List Replica) (got : Scanned) (out : ReadReply)
      (qs : List Replica) : Type 0 where
    read_served :
        (x : Reply) (rs' : List Replica)
        → got.reply ≡ some x
        → out ≡ record { ret = x.ret; buf = x.stored }
        → Counted k rs x rs'
        → qs ≡ (if got.fail_cnt == 0 then rs' else marked rs' got.err_list)
        → ReadEnd k rs got out qs
    read_refused :
        got.reply ≡ none
        → out ≡ record { ret = get_first_error rs got.err_list; buf = [] }
        → qs ≡ rs
        → ReadEnd k rs got out qs

  ends :
      (k : Cred) (rs rs' : List Replica) (got : Scanned) (ret : ℤ) (qs : List Replica)
      (x : Option Reply) (c : Config)
      → got.reply ≡ x
      → LeavesAll (Counted k rs) x rs c
      → rs' ≡ c.replicas
      → ret ≡ result_of (served_ret x) rs' (record got { reply = x })
      → qs ≡ replicas_of rs' (record got { reply = x })
      → ReadEnd k rs got (record { ret = ret; buf = served_bytes x }) qs
  ends k rs rs' got ret qs none c e left f a b =
      read_refused e
        (ap (λ z. record { ret = z; buf = [] })
          (a ∙ ap (λ z. get_first_error z got.err_list) (f ∙ left)))
        (b ∙ f ∙ left)
  ends k rs rs' got ret qs (some x) c e left f a b =
      read_served x rs' e (ap (λ z. record { ret = z; buf = x.stored }) a)
        (subst (Counted k rs x) (sym f) left) b

  read_body-ReadEnd :
      (g : Config) (s : State W)
      → Mounted g
      → s.config ≡ g
      → length fds ≡ length g.replicas
      → (out : ReadReply) × (t : State W) × (read_body sys fds size offset s ≡ some (out, t))
        × ReadEnd s.cred g.replicas (read_through s.cred g s.world) out t.config.replicas
  unfolding read_body
  read_body-ReadEnd g s m e l =
      let k = s.cred in
      let rs = g.replicas in
      let got = read_through k g s.world in
      let (u, a, b, d, f) =
        scan_all-walk (read_attempt sys fds size offset) (read_step k rs) k rs (Counted k rs)
          (read_attempt-Follows k rs l) s (subst Mounted (sym e) m)
          (ap (λ (z : Config). z.replicas) e) refl in
      let same =
        ap (λ (z : Config). (walk (read_step k rs) (order_of z) (nothing z.max_replica) s.world).0)
          e in
      let left = subst (λ (z : Scanned). LeavesAll (Counted k rs) z.reply rs u.config) same f in
      let fin = finish-scanned sys "read" (served_ret got.reply) got u u.config.replicas refl in
      let out =
        finish sys "read" (served_ret got.reply) (served_cnt got.reply) got.fail_cnt got.err_list
          u in
      (
        record { ret = out.0; buf = served_bytes got.reply },
        out.1,
        rw (a ∙ ap (λ z. some (z, u)) same) refl,
        ends k rs u.config.replicas got out.0 out.1.config.replicas got.reply u.config refl left
            refl fin.0 fin.1,
      )

  -- On a configuration as it is mounted, for the handle of an open file with a descriptor for each replica, and
  -- once it has `err_list`, chiron_read returns, and answers as a walk through the replicas does that goes round
  -- those of high priority and then round those of low priority, passes over the disabled ones and those on
  -- which the file is not open, and ends at the first that serves the read: with what its pread returned and
  -- stored; or, if none does, with the first error. If one does, it is an enabled one, its counter goes up by
  -- one (modulo 2 ^ 64), and exactly the replicas that failed before it are disabled.
  pub chiron_read-ReadEnd :
      (context : Cred) (fh : ℕ) (s : State W)
      → Mounted s.config
      → get_elem? s.config.tab_fd fh ≡ some (some fds)
      → length fds ≡ length s.config.replicas
      → has_err_list sys context s ≡ true
      → let u = started sys context s in
        (out : ReadReply) × (t : State W) × (chiron_read sys context size offset fh s
          ≡ some (out, t))
        × ReadEnd u.cred s.config.replicas
            (read_through u.cred s.config u.world)
            out
            t.config.replicas
  unfolding chiron_read call
  chiron_read-ReadEnd context fh s m g l h =
      let u = started sys context s in
      let same = (started_frame sys context s).0 in
      let at = ap (λ (c : Config). get_elem? c.tab_fd fh) (drop_priv_frame sys context s).0 ∙ g in
      let (out, t, a, b) = read_body-ReadEnd s.config u m same l in
      (out, t, rw (at, chiron_read) (rw h a), b)
