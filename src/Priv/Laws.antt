-- ===== src/Priv/Laws.antt =====
-- What the changes of the effective user and group leave alone, and what they reach.
use chironfs.Base.{ℕ, pos, is_minus_one, false, ◌≡◌, arith}
use chironfs.Model.{Cred, seteuid, setegid, Kernel, State, call}
use chironfs.Priv.{drop_priv, reacquire_priv}

-- The calls of seteuid and setegid succeed: the program is run by the super-user.
abbrev pub Privileged : {W : Type 0} → Kernel W → Type 0
Privileged {W} sys =
    (k : Cred) (n : ℕ) (w : W)
    → (is_minus_one (sys k (seteuid n) w).0.ret ≡ false)
      × (is_minus_one (sys k (setegid n) w).0.ret ≡ false)

module _ {W : Type 0} (sys : Kernel W) where
  pub drop_priv_frame :
      (context : Cred) (s : State W)
      → let t = (drop_priv sys context s).1 in (t.config ≡ s.config) × (t.logfd ≡ s.logfd)
  unfolding drop_priv call
  drop_priv_frame context s = ground arith

  pub reacquire_priv_frame :
      (s : State W)
      → let t = (reacquire_priv sys s).1 in (t.config ≡ s.config) × (t.logfd ≡ s.logfd)
  unfolding reacquire_priv call
  reacquire_priv_frame s = ground arith

  pub drop_priv-cred :
      Privileged sys
      → (context : Cred) (s : State W)
      → ((drop_priv sys context s).0 ≡ pos 0) × ((drop_priv sys context s).1.cred ≡ context)
  unfolding drop_priv call
  drop_priv-cred p context s = grind (arith, p)

  pub reacquire_priv-cred :
      Privileged sys
      → (s : State W)
      → ((reacquire_priv sys s).0 ≡ pos 0)
        × ((reacquire_priv sys s).1.cred ≡ record { uid = s.config.uid; gid = s.config.gid })
  unfolding reacquire_priv call
  reacquire_priv-cred p s = grind (arith, p)
