-- ===== src/FileIo/Keeping.antt =====
-- What chiron_write leaves of the configuration.
use mathlib.Core.Path.{subst}
use chironfs.Base.{
  ℕ, ℤ, pos, is_nonzero, not, ◌||◌, Option, none, some, List, [], ◌∷◌, ◌≡◌, refl, sym, ap, ◌∙◌, inl,
  inr, Bool-cases, length, get_elem?,
}
use chironfs.Model.{Bytes, Replica, Config, Cred, Kernel, Posix, State, call, calloc}
use chironfs.Priv.{drop_priv, reacquire_priv}
use chironfs.Priv.Laws.{drop_priv_frame, reacquire_priv_frame}
use chironfs.Mirror.{
  Visit, skipped, failed, succeeded, succ_cnt, fail_cnt, err_list, finish, enomem, einval,
}
use chironfs.Mirror.Survivor.{any_enabled}
use chironfs.Mirror.Outcome.{Outcome-any_enabled}
use chironfs.Scan.Total.{Mounted}
use chironfs.Evolve.{Fading, Fading-refl, Evolve, Evolve-replicas, Evolve-trans, Evolve-Mounted}
use chironfs.Scan.Finish.{Able, Kept, Kept-same, Keeps, Evolve-finish}
use chironfs.FileIo.{write_all, write_body, chiron_write}
use chironfs.FileIo.Writing.{counted, Agrees-counted, write_all_lem, write_body-WriteEnd}

Fading-counted : (rs : List Replica) (vs : List Visit) → Fading rs (counted rs vs)
Fading-counted [] vs = tt
Fading-counted (r ∷ rs) [] = Fading-refl (r ∷ rs)
Fading-counted (r ∷ rs) (skipped ∷ vs) = (λ d. d, Fading-counted rs vs)
Fading-counted (r ∷ rs) (failed e ∷ vs) = (λ d. d, Fading-counted rs vs)
Fading-counted (r ∷ rs) (succeeded ∷ vs) = (λ d. d, Fading-counted rs vs)

any_enabled-counted :
    (rs : List Replica) (vs : List Visit) → any_enabled (counted rs vs) ≡ any_enabled rs
any_enabled-counted [] vs = refl
any_enabled-counted (r ∷ rs) [] = refl
any_enabled-counted (r ∷ rs) (skipped ∷ vs) =
    ap (λ b. not r.disabled || b) (any_enabled-counted rs vs)
any_enabled-counted (r ∷ rs) (failed e ∷ vs) =
    ap (λ b. not r.disabled || b) (any_enabled-counted rs vs)
any_enabled-counted (r ∷ rs) (succeeded ∷ vs) =
    ap (λ b. not r.disabled || b) (any_enabled-counted rs vs)

module _ {W : Type 0} (sys : Kernel W) (buf : Bytes) (offset : ℤ) where
  write_body-Evolve :
      (fds : List ℤ) (s : State W)
      → Mounted s.config
      → (vs : List Visit)
      → (write_all sys buf offset s.config.replicas fds (pos 0) s).0.2
        ≡ counted s.config.replicas vs
      → (write_all sys buf offset s.config.replicas fds (pos 0) s).1.config ≡ s.config
      → Evolve s.config (write_body sys buf offset fds s).1.config
  unfolding write_body
  write_body-Evolve fds s m vs e f =
      let c = s.config in
      let d : Config = record c { replicas = counted c.replicas vs } in
      let (all, t) = write_all sys buf offset c.replicas fds (pos 0) s in
      let u : State W = record t { config = record (t.config) { replicas = all.2 } } in
      let same : u.config ≡ d =
        ap (λ (x : Config). record x { replicas = all.2 }) f
        ∙ ap (λ rs. record c { replicas = rs }) e in
      let first =
        subst (Evolve c) (sym same) (Evolve-replicas c _ m (Fading-counted c.replicas vs)) in
      let out = finish sys "write" all.1 (succ_cnt all.0) (fail_cnt all.0) (err_list all.0) u in
      Evolve-trans c u.config out.1.config first (
        Evolve-finish sys "write" all.1 (succ_cnt all.0) (fail_cnt all.0) (err_list all.0) u
          (Evolve-Mounted c u.config first m))

  write_body-Kept :
      Posix sys
      → (fds : List ℤ) (s : State W) → Able s.config
      → length fds ≡ length s.config.replicas
      → Kept s.config (write_body sys buf offset fds s).1.config
  write_body-Kept posix fds s a l =
      let h = write_all_lem sys buf offset posix s.config.replicas fds (pos 0) s l refl in
      (
        write_body-Evolve fds s a.mounted _ h.replicas h.frame.0,
        Outcome-any_enabled (write_body-WriteEnd sys buf offset posix fds s l).outcome
            (Agrees-counted s.config.replicas _ h.fits)
            (any_enabled-counted s.config.replicas _ ∙ a.alive),
      )

  pub chiron_write-Keeps :
      Posix sys
      → (context : Cred) (fh : ℕ) (slot : Option (List ℤ)) (s : State W) → Able s.config
      → get_elem? s.config.tab_fd fh ≡ some slot
      → ((fds : List ℤ) → slot ≡ some fds → length fds ≡ length s.config.replicas)
      → Keeps s.config (chiron_write sys context buf offset fh s)
  unfolding chiron_write call
  chiron_write-Keeps posix context fh none s a g l =
      let s1 : State W = (drop_priv sys context s).1 in
      let f = (drop_priv_frame sys context s).0 in
      let t : State W = (reacquire_priv sys s1).1 in
      let e = ap (λ (c : Config). get_elem? c.tab_fd fh) f ∙ g in
      (
        einval,
        t,
        rw (e, chiron_write) refl,
        Kept-same s.config t.config a ((reacquire_priv_frame sys s1).0 ∙ f),
      )
  chiron_write-Keeps posix context fh (some fds) s a g l =
      let s1 : State W = (drop_priv sys context s).1 in
      let (p, s2) = call sys (calloc s1.config.max_replica 4) s1 in
      let f = (drop_priv_frame sys context s).0 in
      let at = ap (λ (c : Config). get_elem? c.tab_fd fh) f ∙ g in
      elim (Bool-cases (is_nonzero p.ret)) [
        | inl y ↦
            let out = write_body sys buf offset fds s2 in
            let k =
              write_body-Kept posix fds s2 (subst Able (sym f) a)
                (l fds refl ∙ ap (λ (c : Config). length c.replicas) (sym f)) in
            (out.0, out.1, rw (at, chiron_write) (rw y refl), subst (λ c. Kept c out.1.config) f k)
        | inr n ↦
            let t : State W = (reacquire_priv sys s2).1 in
            (
              enomem,
              t,
              rw (at, chiron_write) (rw n refl),
              Kept-same s.config t.config a ((reacquire_priv_frame sys s2).0 ∙ f),
            )
      ]
