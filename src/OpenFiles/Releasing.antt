-- ===== src/OpenFiles/Releasing.antt =====
-- What chiron_release leaves in the table of open files.
use mathlib.Core.Path.{subst}
use chironfs.Base.{
  ℕ, ℤ, negsuc, Bool, true, false, not, ◌&&◌, if◌then◌else◌, String, none, some, List, [], ◌∷◌, ◌≡◌,
  refl, ap, ◌∙◌, arith, get_elem?, get_elem?-set_self, set,
}
use chironfs.Model.{Bytes, Replica, Config, Cred, Call, Kernel, Posix, State, call, close}
use chironfs.Priv.{drop_priv, reacquire_priv}
use chironfs.Priv.Laws.{drop_priv_frame, reacquire_priv_frame}
use chironfs.FdTable.{put_slot}
use chironfs.FdTable.Slots.{TableFits, set-set_free}
use chironfs.Mirror.Survivor.{any_enabled}
use chironfs.OpenFiles.{is_positive, and_int, release_loop, chiron_release, open_file}
use chironfs.OpenFiles.Opening.{opened, not_opened, open_file-OpenEnd}

module _ {W : Type 0} (sys : Kernel W) where
  either_config :
      (b : Bool) (s t : State W) → s.config ≡ t.config → (if b then s else t).config ≡ t.config
  either_config true s t e = e
  either_config false s t e = refl

  release_loop_config :
      (rs : List Replica) (fd : List ℤ) (r : ℤ) (s : State W)
      → (release_loop sys rs fd r s).1.config ≡ s.config
  unfolding release_loop call
  release_loop_config [] fd r s = refl
  release_loop_config (x ∷ rs) [] r s = refl
  release_loop_config (x ∷ rs) (f ∷ fd) r s =
      let hit = is_positive f && not x.disabled in
      let (closed, s') = call sys (close f) s in
      release_loop_config rs fd (if hit then and_int r closed.ret else r) (if hit then s' else s)
      ∙ either_config hit s' s refl

  -- chiron_release returns for the handle of an open file; then its slot is free, and nothing else of
  -- the configuration changes.
  pub chiron_release_lem :
      (context : Cred) (fh : ℕ) (fd : List ℤ) (s : State W)
      → get_elem? s.config.tab_fd fh ≡ some (some fd)
      → (ret : ℤ) × (t : State W) × (chiron_release sys context fh s ≡ some (ret, t))
        × (t.config ≡ record (s.config) { tab_fd = set s.config.tab_fd fh none })
  unfolding chiron_release put_slot
  chiron_release_lem context fh fd s g =
      let s1 : State W = (drop_priv sys context s).1 in
      let f = (drop_priv_frame sys context s).0 in
      let (r, s2) = release_loop sys s1.config.replicas fd (negsuc 0) s1 in
      let t = put_slot fh none s2 in
      let e = release_loop_config s1.config.replicas fd (negsuc 0) s1 ∙ f in
      (
        r,
        (reacquire_priv sys t).1,
        rw (ap (λ (c : Config). get_elem? c.tab_fd fh) f ∙ g, chiron_release) refl,
        (reacquire_priv_frame sys t).0
            ∙ ap (λ (c : Config). record c { tab_fd = set c.tab_fd fh none }) e,
      )

  -- Releasing a file, whoever asks for it, after it has been opened by chiron_open or chiron_create
  -- gives the table of open files back as it was before. The table fits, some replica is not
  -- disabled, and failed calls set errno.
  pub open_file-release :
      Posix sys
      → (op : String) (c : Bytes → Call) (context closer : Cred) (path : Bytes) (s : State W)
        (fh : ℕ)
      → TableFits s.config
      → any_enabled s.config.replicas ≡ true
      → (open_file sys op c context path s).0.1 ≡ some fh
      → let u = (open_file sys op c context path s).1 in
        (ret : ℤ) × (t : State W) × (chiron_release sys closer fh u ≡ some (ret, t))
        × (t.config ≡ record (u.config) { tab_fd = s.config.tab_fd })
  open_file-release posix op c context closer path s fh v h q =
      elim (open_file-OpenEnd sys posix op c context path s v h) [
        | not_opened es b e a k ↦ cc
        | opened j fd es r e l free usable a k ↦
            let u : State W = (open_file sys op c context path s).1 in
            let tab = ap (λ (x : Config). x.tab_fd) k in
            let at : get_elem? u.config.tab_fd j ≡ some (some fd) =
              ap (λ t. get_elem? t j) tab
              ∙ get_elem?-set_self s.config.tab_fd j (some fd) (omega (arith, v.slots)) in
            let same : j ≡ fh = cc in
            let d = chiron_release_lem closer j fd u at in
            subst
              (λ i.
                (ret : ℤ) × (t : State W) × (chiron_release sys closer i u ≡ some (ret, t))
                × (t.config ≡ record (u.config) { tab_fd = s.config.tab_fd }))
              same
              (
                d.0,
                d.1,
                d.2,
                d.3
                    ∙ ap (λ t. record (u.config) { tab_fd = t })
                        (ap (λ t. set t j none) tab
                          ∙ set-set_free s.config.tab_fd j (some fd) free),
              )
      ]
