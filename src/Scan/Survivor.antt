-- ===== src/Scan/Survivor.antt =====
-- What the loop over the tries leaves of the replicas: the one that served the request had not failed
-- in the same run.
use mathlib.Core.Path.{subst}
use chironfs.Base.{
  ℕ, zero, suc, ◌+◌, ◌<◌, ℤ, pos, is_nonzero, false, Option, none, some, ◌≡◌, refl, sym, ap, ◌∙◌,
  ◌⊎◌, inl, inr, arith, length, get_elem?, get_or, set, length-set, replicate, length-replicate,
}
use chironfs.Model.{Config, Replica, State}
use chironfs.Choose.Valid.{turned, chosen, turned-ChoiceFits, choose_replica_lem}
use chironfs.Choose.Spread.{Spread}
use chironfs.Scan.{Attempt, passed, missed, served, Scanned, scan, scan_all}
use chironfs.Scan.Total.{Mounted, onward, scan-onward, turned-Mounted, chosen-lt}
use chironfs.Scan.Seen.{Seen, Seen-turned, Seen-missed, turned-Spread, unseen, clash}
use chironfs.Evolve.{Evolve, Evolve-refl, Evolve-trans, Fading-refl}

-- What an attempt at replica `r` may do to the configuration. Only one that is not disabled serves.
abbrev pub Did : Attempt → ℕ → Config → Config → Type 0
Did (served x) r c c' =
    Evolve c c' × ((q : Replica) × (get_elem? c'.replicas r ≡ some q) × (q.disabled ≡ false))
Did _ r c c' = c' ≡ c

-- An attempt that leaves the configuration alone, at a replica that is not disabled.
pub Did-same :
    (a : Attempt) (r : ℕ) (q : Replica) (c c' : Config)
    → Mounted c
    → get_elem? c.replicas r ≡ some q
    → q.disabled ≡ false
    → c' ≡ c
    → Did a r c c'
Did-same passed r q c c' m h d e = e
Did-same (missed x) r q c c' m h d e = e
Did-same (served x) r q c c' m h d e = (
  subst (Evolve c) (sym e) (Evolve-refl c m),
  (q, ap (λ (z : Config). get_elem? z.replicas r) e ∙ h, d),
)

module _ {W : Type 0} (attempt : ℕ → State W → Option (Attempt × State W)) (n : ℕ) where
  -- An attempt at one of `n` replicas ends, and does no more than it may.
  abbrev pub Works : Type 0
  Works =
      (r : ℕ) (s : State W)
      → Mounted s.config
      → s.config.max_replica ≡ n
      → r < n
      → (a : Attempt) × (s' : State W) × (attempt r s ≡ some (a, s')) × Did a r s.config s'.config

-- How a run ends: every error is in its place, and if a replica served the request it is not disabled
-- and has no error.
pub record ScanEnd (n : ℕ) (c : Config) (out : Scanned) (c' : Config) : Type 0 where
  pub evolve : Evolve c c'
  pub len : length out.err_list ≡ n
  pub survivor :
      ((out.reply ≡ none) × (c'.replicas ≡ c.replicas))
      ⊎ ((r : ℕ) × (q : Replica) × (get_elem? c'.replicas r ≡ some q)
          × (q.disabled ≡ false)
          × (is_nonzero (get_or out.err_list r (pos 0)) ≡ false))

turned-Evolve : (t : ℕ) (c : Config) → Mounted c → t < c.max_replica → Evolve c (turned t c)
turned-Evolve t c m h =
    let f = turned-ChoiceFits t c m.choice h in
    record {
      high = (turned t c).curr_replica_high;
      low = (turned t c).curr_replica_low;
      rs = c.replicas;
      high_small = f.high_curr;
      low_small = f.low_curr;
      fading = Fading-refl c.replicas;
      same = refl;
    }

ScanEnd-after :
    (n t : ℕ) (c : Config) (out : Scanned) (c' : Config)
    → Evolve c (turned t c)
    → ScanEnd n (turned t c) out c'
    → ScanEnd n c out c'
ScanEnd-after n t c out c' e x = record {
  evolve = Evolve-trans c (turned t c) c' e x.evolve;
  len = x.len;
  survivor = x.survivor;
}

module _ {W : Type 0} (attempt : ℕ → State W → Option (Attempt × State W)) (n : ℕ) where
  abbrev pub Survives : Config → Option (Scanned × State W) → Type 0
  Survives c o = (out : Scanned) × (s' : State W) × (o ≡ some (out, s')) × ScanEnd n c out s'.config

  -- What is known before try `t`.
  record Ready (t : ℕ) (c : Config) (acc : Scanned) : Type 0 where
    pub mounted : Mounted c
    pub spread : Spread c
    pub max : c.max_replica ≡ n
    pub len : length acc.err_list ≡ n
    pub empty : acc.reply ≡ none
    pub seen : Seen t c acc.err_list

  Ready-passed :
      (t : ℕ) (c : Config) (acc : Scanned) → Ready t c acc → t < n → Ready (t + 1) (turned t c) acc
  Ready-passed t c acc r h = record {
    mounted = turned-Mounted t c r.mounted (omega (arith, r.max));
    spread = turned-Spread t c r.spread;
    max = r.max;
    len = r.len;
    empty = r.empty;
    seen = Seen-turned t c acc.err_list r.seen;
  }

  Ready-missed :
      (t : ℕ) (c : Config) (acc : Scanned) (e : ℤ)
      → Ready t c acc
      → t < n
      → Ready (t + 1) (turned t c) (record acc {
        err_list = set acc.err_list (chosen t (turned t c)) e;
        fail_cnt = suc acc.fail_cnt;
      })
  Ready-missed t c acc e r h = record {
    mounted = turned-Mounted t c r.mounted (omega (arith, r.max));
    spread = turned-Spread t c r.spread;
    max = r.max;
    len = length-set acc.err_list (chosen t (turned t c)) e ∙ r.len;
    empty = r.empty;
    seen = Seen-missed t c acc.err_list e r.seen;
  }

  Survives-onward :
      (k t : ℕ) (acc : Scanned) (c : Config) (s : State W) (a : Attempt)
      → ((acc' : Scanned) (u : State W)
          → Ready (t + 1) u.config acc'
          → Survives u.config (scan attempt k (t + 1) acc' u))
      → Ready t c acc
      → t < n
      → Did a (chosen t (turned t c)) (turned t c) s.config
      → Survives (turned t c) (onward attempt n k t acc (chosen t (turned t c)) s a)
  Survives-onward k t acc c s passed ih r h did =
      subst (λ d. Survives d (scan attempt k (t + 1) acc s)) did
        (ih acc s (subst (λ d. Ready (t + 1) d acc) (sym did) (Ready-passed t c acc r h)))
  Survives-onward k t acc c s (missed e) ih r h did =
      let acc' : Scanned = record acc {
        err_list = set acc.err_list (chosen t (turned t c)) e;
        fail_cnt = suc acc.fail_cnt;
      } in
      subst (λ d. Survives d (scan attempt k (t + 1) acc' s)) did
        (ih acc' s (subst (λ d. Ready (t + 1) d acc') (sym did) (Ready-missed t c acc e r h)))
  Survives-onward k t acc c s (served x) ih r h did = (
    record acc { reply = some x },
    s,
    refl,
    record {
      evolve = did.0;
      len = r.len;
      survivor = inr (
        chosen t (turned t c),
        did.1.0,
        did.1.1,
        did.1.2,
        unseen t c acc.err_list r.mounted r.spread (omega (arith, r.max)) r.seen,
      );
    },
  )

  scan-Survives :
      Works attempt n
      → (k t : ℕ) (acc : Scanned) (s : State W) → Ready t s.config acc
      → t + k ≡ n
      → Survives s.config (scan attempt k t acc s)
  unfolding scan
  scan-Survives works zero t acc s r e = (
    acc,
    s,
    refl,
    record { evolve = Evolve-refl s.config r.mounted; len = r.len; survivor = inl (r.empty, refl) },
  )
  scan-Survives works (suc k) t acc s r e =
      let c = s.config in
      let h : t < c.max_replica = omega (arith, r.max) in
      let j = chosen t (turned t c) in
      let m = turned-Mounted t c r.mounted h in
      let at =
        works j (record s { config = turned t c }) m r.max
          (omega (arith, chosen-lt t (turned t c) m h, r.max)) in
      let rest =
        Survives-onward k t acc c at.1 at.0
          (λ acc' u r'. scan-Survives works k (t + 1) acc' u r' (omega arith)) r (omega arith)
          at.3 in
      rw
        (scan-onward attempt n k t acc s j (turned t c) at.0 at.1
          (choose_replica_lem t c r.mounted.choice h) at.2)
        (
          rest.0,
          rest.1,
          rest.2,
          ScanEnd-after n t c rest.0 rest.1.config (turned-Evolve t c r.mounted h) rest.3,
        )

  zeros : (m j : ℕ) → is_nonzero (get_or (replicate m (pos 0)) j (pos 0)) ≡ false
  zeros zero j = refl
  zeros (suc m) zero = refl
  zeros (suc m) (suc j) = zeros m j

  -- The whole loop, from a configuration as it is mounted whose tables hold no replica twice.
  pub scan_all-Survives :
      Works attempt n
      → (s : State W) → Mounted s.config
      → Spread s.config
      → s.config.max_replica ≡ n
      → Survives s.config (scan_all attempt s)
  unfolding scan_all
  scan_all-Survives works s m sp e =
      scan-Survives works s.config.max_replica 0 _ s
        (record {
          mounted = m;
          spread = sp;
          max = e;
          len = length-replicate s.config.max_replica (pos 0) ∙ e;
          empty = refl;
          seen = λ j y. absurd (clash _ y (zeros s.config.max_replica j));
        })
        (omega (arith, e))
