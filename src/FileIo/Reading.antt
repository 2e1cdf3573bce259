-- ===== src/FileIo/Reading.antt =====
-- How a call of chiron_read ends.
use mathlib.Core.Path.{subst}
use chironfs.Base.{
  ℕ, ℤ, neg, is_negative, is_nonzero, ◌||◌, Option, none, some, List, ◌≡◌, refl, sym, ap, ◌∙◌,
  Returns, returns, inl, inr, arith, Bool-cases, length, get_elem?, length-set, set,
}
use chironfs.Model.{Cred, Config, Kernel, State, calloc, pread, call}
use chironfs.Priv.{drop_priv}
use chironfs.Priv.Laws.{drop_priv_frame}
use chironfs.Scan.{passed, missed, served}
use chironfs.Scan.Total.{Mounted, Ends, get_elem?-lt, scan_all_total}
use chironfs.FileIo.{read_attempt, read_body, chiron_read, put_replica, count_up}

Mounted-put :
    (c : Config) (i : ℕ) (r : _) → Mounted c → Mounted (record c { replicas = set c.replicas i r })
Mounted-put c i r m = record {
  choice = record {
    split = m.choice.split;
    some_high = m.choice.some_high;
    small = m.choice.small;
    high_table = m.choice.high_table;
    low_table = m.choice.low_table;
    high_curr = m.choice.high_curr;
    low_curr = m.choice.low_curr;
  };
  count = length-set c.replicas i r ∙ m.count;
  high_in = m.high_in;
  low_in = m.low_in;
}

module _ {W : Type 0} (sys : Kernel W) where
  read_attempt-Ends :
      (fds : List ℤ) (size : ℕ) (offset : ℤ) (n : ℕ)
      → length fds ≡ n
      → Ends (read_attempt sys fds size offset) n
  unfolding read_attempt call
  read_attempt-Ends fds size offset n l r s m e h =
      let (x, g) = get_elem?-lt s.config.replicas r (omega (arith, m.count)) in
      let (fd, k) = get_elem?-lt fds r (omega arith) in
      let (res, u) = call sys (pread fd size offset) s in
      elim (Bool-cases (is_negative fd || x.disabled)) [
        | inl off ↦ (passed, s, simp (g, k, off), m, e)
        | inr on ↦ elim (Bool-cases (is_negative res.ret)) [
          | inl bad ↦ (missed (neg res.errno), u, simp (g, k, on, bad), m, e)
          | inr ok ↦ (
            served res,
            put_replica sys r (record x { totrd = count_up x.totrd }) u,
            simp (g, k, on, ok),
            Mounted-put s.config r _ m,
            e,
          )
        ]
      ]

  read_body_total :
      (fds : List ℤ) (size : ℕ) (offset : ℤ) (s : State W)
      → Mounted s.config
      → length fds ≡ s.config.max_replica
      → Returns (read_body sys fds size offset s)
  unfolding read_body
  read_body_total fds size offset s m l =
      let d =
        scan_all_total (read_attempt sys fds size offset) s.config.max_replica
          (read_attempt-Ends fds size offset s.config.max_replica l) s m refl in
      rw d.2 (returns _)

  -- On a configuration as it is mounted chiron_read returns for every handle of the table whose slot
  -- is empty or holds a descriptor for each replica.
  pub chiron_read_total :
      (context : Cred) (size : ℕ) (offset : ℤ) (fh : ℕ) (slot : Option (List ℤ)) (s : State W)
      → Mounted s.config
      → get_elem? s.config.tab_fd fh ≡ some slot
      → ((fds : List ℤ) → slot ≡ some fds → length fds ≡ s.config.max_replica)
      → Returns (chiron_read sys context size offset fh s)
  unfolding chiron_read call
  chiron_read_total context size offset fh none s m g l =
      rw ((drop_priv_frame sys context s).0, g, chiron_read) (returns _)
  chiron_read_total context size offset fh (some fds) s m g l =
      let s1 : State W = (drop_priv sys context s).1 in
      let (p, s2) = call sys (calloc s1.config.max_replica 4) s1 in
      let f = (drop_priv_frame sys context s).0 in
      let at = ap (λ (c : Config). get_elem? c.tab_fd fh) f ∙ g in
      elim (Bool-cases (is_nonzero p.ret)) [
        | inl y ↦
            rw (at, chiron_read)
              (rw y (
                read_body_total fds size offset s2 (subst Mounted (sym f) m)
                  (l fds refl ∙ ap (λ (c : Config). c.max_replica) (sym f))))
        | inr n ↦ rw (at, chiron_read) (rw n (returns _))
      ]
