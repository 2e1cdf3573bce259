-- ===== src/Invariant.antt =====
-- The configuration between requests: what every handler needs and keeps.
use mathlib.Core.Option.{some-injective}
use chironfs.Base.{
  ℕ, zero, suc, ◌<◌, ℤ, Option, some, List, [], ◌∷◌, ◌≡◌, refl, sym, ap, ◌∙◌, ◌⊎◌, inl, inr, arith,
  length, length-set, get_elem?, set,
}
use chironfs.Model.{Config, Replica, FdTable}
use chironfs.FdTable.Slots.{TableFits}
use chironfs.OpenFiles.Usable.{Usable}
use chironfs.Evolve.{Evolve-tab, Evolve-size, Evolve-Fading, Usable-Fading}
use chironfs.Scan.Finish.{Able, Kept, Kept-Able}

-- Each open file has an entry for each replica, and a descriptor for each that is not disabled.
abbrev pub AllUsable : Config → Type 0
AllUsable c =
    (i : ℕ) (fds : List ℤ) → get_elem? c.tab_fd i ≡ some (some fds) → Usable c.replicas fds

-- The tries of choose_replica stay inside the replicas, the table of open files fits, its files are usable, and some replica is not
-- disabled.
pub record Sane (c : Config) : Type 0 where
  pub able : Able c
  pub table : TableFits c
  pub files : AllUsable c

-- A request that leaves the open files alone.
pub record Quiet (c c' : Config) : Type 0 where
  pub sane : Sane c'
  pub size : c'.fd_buf_size ≡ c.fd_buf_size
  pub tab : c'.tab_fd ≡ c.tab_fd

pub Kept-Quiet : (c c' : Config) → Sane c → Kept c c' → Quiet c c'
Kept-Quiet c c' a k = record {
  sane = record {
    able = Kept-Able c c' k a.able;
    table = record {
      slots = ap length (Evolve-tab c c' k.0) ∙ a.table.slots ∙ sym (Evolve-size c c' k.0);
      some_slot = omega (arith, a.table.some_slot, Evolve-size c c' k.0);
      numbered = omega (arith, a.table.numbered, Evolve-size c c' k.0);
    };
    files = λ i fds g.
        Usable-Fading c.replicas c'.replicas fds (Evolve-Fading c c' k.0)
          (a.files i fds (ap (λ (t : FdTable). get_elem? t i) (sym (Evolve-tab c c' k.0)) ∙ g));
  };
  size = Evolve-size c c' k.0;
  tab = Evolve-tab c c' k.0;
}

-- An open file after one slot has been set was there before, or has been put there.
get_elem?-set_open :
    (t : FdTable) (k i : ℕ) (v : Option (List ℤ)) (fds : List ℤ)
    → k < length t
    → get_elem? (set t k v) i ≡ some (some fds)
    → (v ≡ some fds) ⊎ (get_elem? t i ≡ some (some fds))
get_elem?-set_open [] k i v fds h g = absurd (omega arith)
get_elem?-set_open (x ∷ t) zero zero v fds h g = inl (some-injective v (some fds) g)
get_elem?-set_open (x ∷ t) zero (suc i) v fds h g = inr g
get_elem?-set_open (x ∷ t) (suc k) zero v fds h g = inr g
get_elem?-set_open (x ∷ t) (suc k) (suc i) v fds h g =
    get_elem?-set_open t k i v fds (omega arith) g

-- A slot may be emptied, and a slot may get a usable file.
pub Sane-set :
    (c : Config) (k : ℕ) (v : Option (List ℤ))
    → Sane c
    → k < c.fd_buf_size
    → ((fds : List ℤ) → v ≡ some fds → Usable c.replicas fds)
    → Sane (record c { tab_fd = set c.tab_fd k v })
Sane-set c k v a h u = record {
  able = record {
    mounted = record {
      choice = record {
        split = a.able.mounted.choice.split;
        some_high = a.able.mounted.choice.some_high;
        small = a.able.mounted.choice.small;
        high_table = a.able.mounted.choice.high_table;
        low_table = a.able.mounted.choice.low_table;
        high_curr = a.able.mounted.choice.high_curr;
        low_curr = a.able.mounted.choice.low_curr;
      };
      count = a.able.mounted.count;
      high_in = a.able.mounted.high_in;
      low_in = a.able.mounted.low_in;
    };
    spread = record {
      high_distinct = a.able.spread.high_distinct;
      low_distinct = a.able.spread.low_distinct;
      apart = a.able.spread.apart;
    };
    alive = a.able.alive;
  };
  table = record {
    slots = length-set c.tab_fd k v ∙ a.table.slots;
    some_slot = a.table.some_slot;
    numbered = a.table.numbered;
  };
  files = λ i fds g. elim (get_elem?-set_open c.tab_fd k i v fds (omega (arith, a.table.slots)) g) [
    | inl e ↦ u fds e
    | inr e ↦ a.files i fds e
  ];
}

pub Usable-length : (rs : List Replica) (fds : List ℤ) → Usable rs fds → length fds ≡ length rs
Usable-length [] [] u = refl
Usable-length [] (f ∷ fds) u = absurd u
Usable-length (r ∷ rs) [] u = absurd u
Usable-length (r ∷ rs) (f ∷ fds) u = ap suc (Usable-length rs fds u.1)
