-- ===== src/Session/Opened.antt =====
-- How a request may change the table of open files.
use mathlib.Core.Path.{subst}
use mathlib.Core.Option.{some-injective}
use chironfs.Base.{
  ℕ, ◌<◌, ℤ, true, String, Option, none, some, List, ◌≡◌, ◌≢◌, refl, sym, ap, ◌∙◌, get_elem?, set,
  get_elem?-set_ne,
}
use chironfs.Model.{Bytes, Call, Cred, Config, FdTable, Kernel, Posix, State}
use chironfs.Policy.Laws.{marked}
use chironfs.Priv.{drop_priv, reacquire_priv}
use chironfs.Priv.Laws.{drop_priv_frame, reacquire_priv_frame}
use chironfs.Mirror.{einval}
use chironfs.Mirror.Survivor.{any_enabled}
use chironfs.FdTable.{is_free}
use chironfs.FdTable.Slots.{is_free-get}
use chironfs.Scan.Finish.{Kept-same}
use chironfs.Evolve.{Fading-marked, Evolve-replicas}
use chironfs.OpenFiles.{open_file, chiron_release}
use chironfs.OpenFiles.Usable.{Usable}
use chironfs.OpenFiles.Opening.{OpenEnd, opened, not_opened, open_file-OpenEnd}
use chironfs.OpenFiles.Releasing.{chiron_release_lem}
use chironfs.Invariant.{Sane, Quiet, Kept-Quiet, Sane-set}

-- The configuration is sane again, the table has its size, and every open file but `fh` stays open
-- with the same descriptors.
pub record Holds (closing : Option ℕ) (c c' : Config) : Type 0 where
  pub sane : Sane c'
  pub size : c'.fd_buf_size ≡ c.fd_buf_size
  pub open_files :
      (i : ℕ) (fds : List ℤ)
      → closing ≢ some i
      → get_elem? c.tab_fd i ≡ some (some fds)
      → get_elem? c'.tab_fd i ≡ some (some fds)

pub Holds-Quiet : (closing : Option ℕ) (c c' : Config) → Quiet c c' → Holds closing c c'
Holds-Quiet closing c c' q = record {
  sane = q.sane;
  size = q.size;
  open_files = λ i fds n g. ap (λ (t : FdTable). get_elem? t i) q.tab ∙ g;
}

-- The replicas are marked.
marked-Quiet :
    (c : Config) (es : List ℤ)
    → Sane c
    → any_enabled (marked c.replicas es) ≡ true
    → Quiet c (record c { replicas = marked c.replicas es })
marked-Quiet c es a h =
    Kept-Quiet c (record c { replicas = marked c.replicas es }) a
      (Evolve-replicas c _ a.able.mounted (Fading-marked c.replicas es), h)

free-other :
    (t : FdTable) (k i : ℕ) (fds : List ℤ)
    → is_free t k ≡ true
    → get_elem? t i ≡ some (some fds)
    → k ≢ i
free-other t k i fds f g e = let at = is_free-get t k f in let same = ap (get_elem? t) e in cc

pub OpenEnd-Holds :
    (c : Config) (ret : ℤ) (fh : Option ℕ) (c' : Config)
    → Sane c
    → OpenEnd c ret fh c'
    → Holds none c c'
OpenEnd-Holds c ret fh c' a (not_opened es b e h k) =
    subst (Holds none c) (sym k) (Holds-Quiet none c _ (marked-Quiet c es a h))
OpenEnd-Holds c ret fh c' a (opened j fd es r e l free usable h k) =
    let d : Config = record c { replicas = marked c.replicas es } in
    let q = marked-Quiet c es a h in
    subst (Holds none c) (sym k) (record {
      sane =
          Sane-set d j (some fd) q.sane l
            (λ fds p. subst (Usable d.replicas) (some-injective fd fds p) usable);
      size = refl;
      open_files =
          λ i fds n g. get_elem?-set_ne c.tab_fd (some fd) (free-other c.tab_fd j i fds free g) ∙ g;
    })

-- The slot of a file is emptied.
pub released-Holds :
    (c : Config) (fh : ℕ)
    → Sane c
    → fh < c.fd_buf_size
    → Holds (some fh) c (record c { tab_fd = set c.tab_fd fh none })
released-Holds c fh a h = record {
  sane = Sane-set c fh none a h (λ fds e. cc);
  size = refl;
  open_files = λ i fds n g. get_elem?-set_ne c.tab_fd none (λ e. n (ap some e)) ∙ g;
}

module _ {W : Type 0} (sys : Kernel W) where
  pub open_file-Holds :
      Posix sys
      → (op : String) (c : Bytes → Call) (context : Cred) (path : Bytes) (s : State W)
      → Sane s.config
      → Holds none s.config (open_file sys op c context path s).1.config
  open_file-Holds posix op c context path s a =
      OpenEnd-Holds s.config _ _ _ a
        (open_file-OpenEnd sys posix op c context path s a.table a.able.alive)

  pub chiron_release-Holds :
      (context : Cred) (fh : ℕ) (slot : Option (List ℤ)) (s : State W)
      → Sane s.config
      → fh < s.config.fd_buf_size
      → get_elem? s.config.tab_fd fh ≡ some slot
      → (ret : ℤ) × (t : State W) × (chiron_release sys context fh s ≡ some (ret, t))
        × Holds (some fh) s.config t.config
  unfolding chiron_release
  chiron_release-Holds context fh none s a h g =
      let s1 : State W = (drop_priv sys context s).1 in
      let f = (drop_priv_frame sys context s).0 in
      let t : State W = (reacquire_priv sys s1).1 in
      let e = ap (λ (c : Config). get_elem? c.tab_fd fh) f ∙ g in
      (
        einval,
        t,
        rw (e, chiron_release) refl,
        Holds-Quiet (some fh) s.config t.config (
            Kept-Quiet s.config t.config a
              (Kept-same s.config t.config a.able ((reacquire_priv_frame sys s1).0 ∙ f))),
      )
  chiron_release-Holds context fh (some fd) s a h g =
      let (ret, t, e, k) = chiron_release_lem sys context fh fd s g in
      (ret, t, e, subst (Holds (some fh) s.config) (sym k) (released-Holds s.config fh a h))
