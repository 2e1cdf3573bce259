-- ===== src/FileIo/Survivor.antt =====
-- What chiron_read leaves of the configuration.
use mathlib.Core.Path.{subst}
use chironfs.Base.{
  ℕ, suc, zero, ℤ, neg, is_negative, is_nonzero, ◌||◌, Bool, false, Option, none, some, List, [],
  ◌∷◌, ◌≡◌, refl, sym, ap, ◌∙◌, inl, inr, arith, Bool-cases, length, get_elem?, set,
}
use chironfs.Model.{Replica, Config, Cred, Kernel, State, calloc, pread, call}
use chironfs.Priv.{drop_priv, reacquire_priv}
use chironfs.Priv.Laws.{drop_priv_frame, reacquire_priv_frame}
use chironfs.Mirror.{enomem, einval, finish}
use chironfs.Scan.{passed, missed, served}
use chironfs.Scan.Total.{get_elem?-lt}
use chironfs.Scan.Survivor.{Works, scan_all-Survives}
use chironfs.Scan.Finish.{Able, Kept, Kept-same, Keeps, Kept-scanned}
use chironfs.Evolve.{Fading-set, Evolve-replicas}
use chironfs.FileIo.{
  served_ret, served_bytes, served_cnt, read_attempt, read_body, failed_read, chiron_read,
  put_replica, count_up,
}

get_elem?-set_same :
    (rs : List Replica) (i : ℕ) (r q : Replica)
    → get_elem? rs i ≡ some r
    → get_elem? (set rs i q) i ≡ some q
get_elem?-set_same [] i r q h = cc
get_elem?-set_same (x ∷ rs) zero r q h = refl
get_elem?-set_same (x ∷ rs) (suc i) r q h = get_elem?-set_same rs i r q h

or_false : (a b : Bool) → (a || b) ≡ false → b ≡ false
or_false a b h = ground arith

module _ {W : Type 0} (sys : Kernel W) where
  read_attempt-Works :
      (fds : List ℤ) (size : ℕ) (offset : ℤ) (n : ℕ)
      → length fds ≡ n
      → Works (read_attempt sys fds size offset) n
  unfolding read_attempt call
  read_attempt-Works fds size offset n l r s m e h =
      let (x, g) = get_elem?-lt s.config.replicas r (omega (arith, m.count)) in
      let (fd, k) = get_elem?-lt fds r (omega arith) in
      let (res, u) = call sys (pread fd size offset) s in
      let y : Replica = record x { totrd = count_up x.totrd } in
      elim (Bool-cases (is_negative fd || x.disabled)) [
        | inl off ↦ (passed, s, simp (g, k, off), refl)
        | inr on ↦ elim (Bool-cases (is_negative res.ret)) [
          | inl bad ↦ (missed (neg res.errno), u, simp (g, k, on, bad), refl)
          | inr ok ↦ (
            served res,
            put_replica sys r y u,
            simp (g, k, on, ok),
            (
              Evolve-replicas s.config (set s.config.replicas r y) m
                  (Fading-set s.config.replicas r x y g (λ d. d)),
              (
                y,
                get_elem?-set_same s.config.replicas r x y g,
                or_false (is_negative fd) x.disabled on,
              ),
            ),
          )
        ]
      ]

  read_body-Keeps :
      (fds : List ℤ) (size : ℕ) (offset : ℤ) (s : State W)
      → Able s.config
      → length fds ≡ s.config.max_replica
      → Keeps s.config (read_body sys fds size offset s)
  unfolding read_body
  read_body-Keeps fds size offset s a l =
      let n = s.config.max_replica in
      let (got, u, e, x) =
        scan_all-Survives (read_attempt sys fds size offset) n
          (read_attempt-Works fds size offset n l) s a.mounted a.spread refl in
      let out =
        finish sys "read" (served_ret got.reply) (served_cnt got.reply) got.fail_cnt got.err_list
          u in
      (
        record { ret = out.0; buf = served_bytes got.reply },
        out.1,
        simp e,
        Kept-scanned sys "read" (served_ret got.reply) n s.config got u a.mounted x a.alive,
      )

  -- On every configuration as it is mounted whose tables hold no replica twice and that has a replica which
  -- is not disabled, chiron_read returns for every handle of the table whose slot is empty or holds a
  -- descriptor for each replica. It changes only the counters of choose_replica and the replicas, and
  -- leaves some replica enabled.
  pub chiron_read-Keeps :
      (context : Cred) (size : ℕ) (offset : ℤ) (fh : ℕ) (slot : Option (List ℤ)) (s : State W)
      → Able s.config
      → get_elem? s.config.tab_fd fh ≡ some slot
      → ((fds : List ℤ) → slot ≡ some fds → length fds ≡ s.config.max_replica)
      → Keeps s.config (chiron_read sys context size offset fh s)
  unfolding chiron_read call
  chiron_read-Keeps context size offset fh none s a g l =
      let s1 : State W = (drop_priv sys context s).1 in
      let f = (drop_priv_frame sys context s).0 in
      let t : State W = (reacquire_priv sys s1).1 in
      let e = ap (λ (c : Config). get_elem? c.tab_fd fh) f ∙ g in
      (
        failed_read sys einval,
        t,
        rw (e, chiron_read) refl,
        Kept-same s.config t.config a ((reacquire_priv_frame sys s1).0 ∙ f),
      )
  chiron_read-Keeps context size offset fh (some fds) s a g l =
      let s1 : State W = (drop_priv sys context s).1 in
      let (p, s2) = call sys (calloc s1.config.max_replica 4) s1 in
      let f = (drop_priv_frame sys context s).0 in
      let at = ap (λ (c : Config). get_elem? c.tab_fd fh) f ∙ g in
      elim (Bool-cases (is_nonzero p.ret)) [
        | inl y ↦
            let (r, t, e, k) =
              read_body-Keeps fds size offset s2 (subst Able (sym f) a)
                (l fds refl ∙ ap (λ (c : Config). c.max_replica) (sym f)) in
            (r, t, rw (at, chiron_read) (rw y e), subst (λ c. Kept c t.config) f k)
        | inr n ↦
            let t : State W = (reacquire_priv sys s2).1 in
            (
              failed_read sys enomem,
              t,
              rw (at, chiron_read) (rw n refl),
              Kept-same s.config t.config a ((reacquire_priv_frame sys s2).0 ∙ f),
            )
      ]
