-- ===== src/Scan/Finish.antt =====
-- The end of a handler that asks one replica after the other.
use mathlib.Core.Path.{subst}
use chironfs.Base.{
  ℕ, zero, suc, ℤ, pos, is_nonzero, Bool, true, false, not, ◌&&◌, ◌==◌, String, Option, some, List,
  [], ◌∷◌, ◌≡◌, refl, sym, ap, ◌∙◌, inl, inr, arith, Bool-cases, get_elem?, get_or, if◌then◌else◌,
}
use chironfs.Model.{Config, Replica, Cred, Kernel, State}
use chironfs.Policy.Laws.{marked, disable_faulty_replicas_lem}
use chironfs.Choose.Spread.{Spread}
use chironfs.Priv.{reacquire_priv}
use chironfs.Priv.Laws.{reacquire_priv_frame}
use chironfs.Mirror.Laws.{started, started_frame, has_err_list}
use chironfs.Mirror.{finish}
use chironfs.Mirror.Outcome.{finish_lem}
use chironfs.Mirror.Survivor.{any_enabled}
use chironfs.Scan.{Scanned}
use chironfs.Scan.Total.{Mounted}
use chironfs.Scan.Survivor.{ScanEnd}
use chironfs.FileIo.{served_cnt}
use chironfs.Evolve.{
  Fading, Fading-marked, Fading-refl, Evolve, Evolve-trans, Evolve-replicas, Evolve-Mounted,
  Evolve-Spread, Evolve-refl,
}

any_enabled-at :
    (rs : List Replica) (r : ℕ) (q : Replica)
    → get_elem? rs r ≡ some q
    → q.disabled ≡ false
    → any_enabled rs ≡ true
any_enabled-at [] r q h d = cc
any_enabled-at (x ∷ rs) zero q h d = ground arith
any_enabled-at (x ∷ rs) (suc r) q h d = ground (arith, any_enabled-at rs r q h d)

-- A replica that is not disabled and has no error is not disabled afterwards.
any_enabled-marked_at :
    (rs : List Replica) (es : List ℤ) (r : ℕ) (q : Replica)
    → get_elem? rs r ≡ some q
    → q.disabled ≡ false
    → is_nonzero (get_or es r (pos 0)) ≡ false
    → any_enabled (marked rs es) ≡ true
any_enabled-marked_at [] es r q h d z = cc
any_enabled-marked_at (x ∷ rs) [] zero q h d z = ground arith
any_enabled-marked_at (x ∷ rs) [] (suc r) q h d z = any_enabled-at (x ∷ rs) (suc r) q h d
any_enabled-marked_at (x ∷ rs) (e ∷ es) zero q h d z = ground arith
any_enabled-marked_at (x ∷ rs) (e ∷ es) (suc r) q h d z =
    ground (arith, any_enabled-marked_at rs es r q h d z)

module _ {W : Type 0} (sys : Kernel W) where
  -- The end of a handler changes replicas only by marking them.
  pub finish_config :
      (op : String) (value : ℤ) (sc fc : ℕ) (es : List ℤ) (s : State W)
      → (finish sys op value sc fc es s).1.config ≡ record (s.config) {
        replicas =
            if not (fc == 0) && not (sc == 0)
            then marked s.config.replicas es
            else s.config.replicas;
      }
  finish_config op value sc fc es s = elim (finish_lem sys op value sc fc es s) [
    | inl h ↦ h.2 ∙ (disable_faulty_replicas_lem op sc fc es s).0
    | inr h ↦ h.2 ∙ (disable_faulty_replicas_lem op sc fc es s).0
  ]

  pub Evolve-finish :
      (op : String) (value : ℤ) (sc fc : ℕ) (es : List ℤ) (s : State W)
      → Mounted s.config
      → Evolve s.config (finish sys op value sc fc es s).1.config
  Evolve-finish op value sc fc es s m =
      subst (Evolve s.config) (sym (finish_config op value sc fc es s)) (
        Evolve-replicas s.config _ m (either (not (fc == 0) && not (sc == 0)) s.config.replicas es))
    where
      either :
          (b : Bool) (rs : List Replica) (es : List ℤ) → Fading rs (if b then marked rs es else rs)
      either true rs es = Fading-marked rs es
      either false rs es = Fading-refl rs

-- A configuration as it is mounted, whose tables hold no replica twice, with a replica that is not
-- disabled.
pub record Able (c : Config) : Type 0 where
  pub mounted : Mounted c
  pub spread : Spread c
  pub alive : any_enabled c.replicas ≡ true

-- Only the counters and the replicas change, and some replica is still enabled.
abbrev pub Kept : Config → Config → Type 0
Kept c c' = Evolve c c' × (any_enabled c'.replicas ≡ true)

module _ {W : Type 0} (sys : Kernel W) where
  any_enabled-scanned :
      (op : String) (value : ℤ) (n : ℕ) (c : Config) (got : Scanned) (s : State W)
      → ScanEnd n c got s.config
      → any_enabled c.replicas ≡ true
      → any_enabled
          (finish sys op value (served_cnt got.reply) got.fail_cnt got.err_list s).1.config.replicas
        ≡ true
  any_enabled-scanned op value n c got s x alive =
      subst (λ (d : Config). any_enabled d.replicas ≡ true)
        (sym (finish_config sys op value (served_cnt got.reply) got.fail_cnt got.err_list s))
        (elim x.survivor [
          | inl (e, same) ↦
              either_none (served_cnt got.reply) got.fail_cnt s.config.replicas got.err_list
                (ap served_cnt e) (ap any_enabled same ∙ alive)
          | inr (r, q, at, on, clean) ↦
              either_some (not (got.fail_cnt == 0) && not (served_cnt got.reply == 0))
                s.config.replicas got.err_list
                (any_enabled-marked_at s.config.replicas got.err_list r q at on clean)
                (any_enabled-at s.config.replicas r q at on)
        ])
    where
      either_none :
          (sc fc : ℕ) (rs : List Replica) (es : List ℤ)
          → sc ≡ 0
          → any_enabled rs ≡ true
          → any_enabled (if not (fc == 0) && not (sc == 0) then marked rs es else rs) ≡ true
      either_none sc fc rs es e h = ground arith

      either_some :
          (b : Bool) (rs : List Replica) (es : List ℤ)
          → any_enabled (marked rs es) ≡ true
          → any_enabled rs ≡ true
          → any_enabled (if b then marked rs es else rs) ≡ true
      either_some true rs es h k = h
      either_some false rs es h k = k

  -- The end of a handler after a run of tries.
  pub Kept-scanned :
      (op : String) (value : ℤ) (n : ℕ) (c : Config) (got : Scanned) (s : State W)
      → Mounted c
      → ScanEnd n c got s.config
      → any_enabled c.replicas ≡ true
      → Kept c (finish sys op value (served_cnt got.reply) got.fail_cnt got.err_list s).1.config
  Kept-scanned op value n c got s m x alive = (
    Evolve-trans c s.config _ x.evolve (
        Evolve-finish sys op value (served_cnt got.reply) got.fail_cnt got.err_list s
          (Evolve-Mounted c s.config x.evolve m)),
    any_enabled-scanned op value n c got s x alive,
  )

pub Kept-same : (c c' : Config) → Able c → c' ≡ c → Kept c c'
Kept-same c c' a e = subst (Kept c) (sym e) (Evolve-refl c a.mounted, a.alive)

pub Kept-Able : (c c' : Config) → Kept c c' → Able c → Able c'
Kept-Able c c' k a = record {
  mounted = Evolve-Mounted c c' k.0 a.mounted;
  spread = Evolve-Spread c c' k.0 a.spread;
  alive = k.1;
}

module _ {W : Type 0} where
  -- The code returns, and keeps the configuration as it should.
  abbrev pub Keeps : {A : Type 0} → Config → Option (A × State W) → Type 0
  Keeps {A} c o = (ret : A) × (t : State W) × (o ≡ some (ret, t)) × Kept c t.config

module _ {W : Type 0} (sys : Kernel W) (context : Cred) where
  -- A handler keeps the configuration if its body does, and also where it gets no memory.
  pub Keeps-started :
      {A : Type 0} (s : State W) (no_memory : A) (body : State W → Option (A × State W))
      → ((u : State W) → u.config ≡ s.config → Able u.config → Keeps u.config (body u))
      → Able s.config
      → Keeps s.config (
          if has_err_list sys context s
          then body (started sys context s)
          else some (no_memory, (reacquire_priv sys (started sys context s)).1))
  Keeps-started s no_memory body h a =
      let u = started sys context s in
      let f = (started_frame sys context s).0 in
      elim (Bool-cases (has_err_list sys context s)) [
        | inl y ↦
            let (r, t, e, k) = h u f (subst Able (sym f) a) in
            rw y (r, t, e, subst (λ c. Kept c t.config) f k)
        | inr z ↦
            let t = (reacquire_priv sys u).1 in
            rw z (
              no_memory,
              t,
              refl,
              Kept-same s.config t.config a ((reacquire_priv_frame sys u).0 ∙ f),
            )
      ]
