-- ===== src/Evolve.antt =====
-- How a request may change the configuration: the counters of choose_replica, and the replicas.
use mathlib.Core.Path.{subst}
use mathlib.Core.Option.{some-injective}
use chironfs.Base.{
  ℕ, zero, suc, ◌^◌, ◌<◌, ℤ, Bool, true, false, some, List, [], ◌∷◌, ◌≡◌, refl, sym, ap, ◌∙◌, arith,
  length, get_elem?, set,
}
use chironfs.Model.{Replica, Config}
use chironfs.Policy.Laws.{marked}
use chironfs.Choose.Spread.{Spread}
use chironfs.Scan.Total.{Mounted}
use chironfs.OpenFiles.Usable.{Usable}

-- No replica comes back: one that was disabled still is.
abbrev pub Fading : List Replica → List Replica → Type 0
Fading [] [] = Unit {0}
Fading [] (q ∷ qs) = ⊥
Fading (r ∷ rs) [] = ⊥
Fading (r ∷ rs) (q ∷ qs) = (r.disabled ≡ true → q.disabled ≡ true) × Fading rs qs

pub Fading-refl : (rs : List Replica) → Fading rs rs
Fading-refl [] = tt
Fading-refl (r ∷ rs) = (λ h. h, Fading-refl rs)

pub Fading-trans : (rs qs ps : List Replica) → Fading rs qs → Fading qs ps → Fading rs ps
Fading-trans [] [] [] f g = tt
Fading-trans [] [] (p ∷ ps) f g = absurd g
Fading-trans [] (q ∷ qs) ps f g = absurd f
Fading-trans (r ∷ rs) [] ps f g = absurd f
Fading-trans (r ∷ rs) (q ∷ qs) [] f g = absurd g
Fading-trans (r ∷ rs) (q ∷ qs) (p ∷ ps) f g = (λ h. g.0 (f.0 h), Fading-trans rs qs ps f.1 g.1)

pub Fading-marked : (rs : List Replica) (es : List ℤ) → Fading rs (marked rs es)
Fading-marked [] es = tt
Fading-marked (r ∷ rs) [] = Fading-refl (r ∷ rs)
Fading-marked (r ∷ rs) (e ∷ es) = (λ h. ground arith, Fading-marked rs es)

pub Fading-set :
    (rs : List Replica) (i : ℕ) (r q : Replica)
    → get_elem? rs i ≡ some r
    → (r.disabled ≡ true → q.disabled ≡ true)
    → Fading rs (set rs i q)
Fading-set [] i r q h f = tt
Fading-set (x ∷ rs) zero r q h f =
    (λ d. f (ap (λ (y : Replica). y.disabled) (sym (some-injective x r h)) ∙ d), Fading-refl rs)
Fading-set (x ∷ rs) (suc i) r q h f = (λ d. d, Fading-set rs i r q h f)

pub Fading-length : (rs qs : List Replica) → Fading rs qs → length qs ≡ length rs
Fading-length [] [] f = refl
Fading-length [] (q ∷ qs) f = absurd f
Fading-length (r ∷ rs) [] f = absurd f
Fading-length (r ∷ rs) (q ∷ qs) f = ap suc (Fading-length rs qs f.1)

still_on : (a b : Bool) → (a ≡ true → b ≡ true) → b ≡ false → a ≡ false
still_on a b h k = ground arith

-- A file that was usable still is.
pub Usable-Fading :
    (rs qs : List Replica) (fd : List ℤ) → Fading rs qs → Usable rs fd → Usable qs fd
Usable-Fading [] [] fd f u = u
Usable-Fading [] (q ∷ qs) fd f u = absurd f
Usable-Fading (r ∷ rs) [] fd f u = absurd f
Usable-Fading (r ∷ rs) (q ∷ qs) [] f u = absurd u
Usable-Fading (r ∷ rs) (q ∷ qs) (x ∷ fd) f u =
    (λ h. u.0 (still_on r.disabled q.disabled f.0 h), Usable-Fading rs qs fd f.1 u.1)

-- Nothing but the counters and the replicas changes.
pub record Evolve (c c' : Config) : Type 0 where
  pub high : ℕ
  pub low : ℕ
  pub rs : List Replica
  pub high_small : high < 2 ^ 31
  pub low_small : low < 2 ^ 31
  pub fading : Fading c.replicas rs
  pub same : c' ≡ record c { curr_replica_high = high; curr_replica_low = low; replicas = rs }

pub Evolve-Mounted : (c c' : Config) → Evolve c c' → Mounted c → Mounted c'
Evolve-Mounted c c' e m = subst Mounted (sym e.same) (record {
  choice = record {
    split = m.choice.split;
    some_high = m.choice.some_high;
    small = m.choice.small;
    high_table = m.choice.high_table;
    low_table = m.choice.low_table;
    high_curr = e.high_small;
    low_curr = e.low_small;
  };
  count = Fading-length c.replicas e.rs e.fading ∙ m.count;
  high_in = m.high_in;
  low_in = m.low_in;
})

pub Evolve-Spread : (c c' : Config) → Evolve c c' → Spread c → Spread c'
Evolve-Spread c c' e m =
    subst Spread (sym e.same)
      (record { high_distinct = m.high_distinct; low_distinct = m.low_distinct; apart = m.apart })

pub Evolve-max : (c c' : Config) → Evolve c c' → c'.max_replica ≡ c.max_replica
Evolve-max c c' e = ap (λ (x : Config). x.max_replica) e.same

pub Evolve-tab : (c c' : Config) → Evolve c c' → c'.tab_fd ≡ c.tab_fd
Evolve-tab c c' e = ap (λ (x : Config). x.tab_fd) e.same

pub Evolve-size : (c c' : Config) → Evolve c c' → c'.fd_buf_size ≡ c.fd_buf_size
Evolve-size c c' e = ap (λ (x : Config). x.fd_buf_size) e.same

pub Evolve-Fading : (c c' : Config) → Evolve c c' → Fading c.replicas c'.replicas
Evolve-Fading c c' e =
    subst (Fading c.replicas) (ap (λ (x : Config). x.replicas) (sym e.same)) e.fading

-- Replicas that fade, and nothing else.
pub Evolve-replicas :
    (c : Config) (rs : List Replica)
    → Mounted c
    → Fading c.replicas rs
    → Evolve c (record c { replicas = rs })
Evolve-replicas c rs m f = record {
  high = c.curr_replica_high;
  low = c.curr_replica_low;
  rs = rs;
  high_small = m.choice.high_curr;
  low_small = m.choice.low_curr;
  fading = f;
  same = refl;
}

pub Evolve-refl : (c : Config) → Mounted c → Evolve c c
Evolve-refl c m = Evolve-replicas c c.replicas m (Fading-refl c.replicas)

pub Evolve-trans : (a b c : Config) → Evolve a b → Evolve b c → Evolve a c
Evolve-trans a b c e f = record {
  high = f.high;
  low = f.low;
  rs = f.rs;
  high_small = f.high_small;
  low_small = f.low_small;
  fading =
      Fading-trans a.replicas e.rs f.rs e.fading
        (subst (λ (x : Config). Fading x.replicas f.rs) e.same f.fading);
  same =
      f.same
      ∙ ap
          (λ (x : Config). record x {
            curr_replica_high = f.high;
            curr_replica_low = f.low;
            replicas = f.rs;
          })
          e.same;
}
