-- ===== src/Session/Answered.antt =====
-- Every request is answered, and leaves the configuration as the next one needs it.
use mathlib.Core.Path.{subst}
use chironfs.Lookup.Links.{Links, chiron_readlink-lookup}
use mathlib.Core.Option.{some-injective}
use chironfs.Base.{
  ℕ, suc, ◌<◌, ℤ, String, Option, none, some, List, ◌≡◌, refl, sym, ap, ◌∙◌, arith, length,
  get_elem?, set, get_elem?-set_self, is_nonzero, is_minus_one, ◌≤◌,
}
use chironfs.Model.{
  Bytes, Call, Cred, Config, Kernel, Posix, State, lstat, access, readlink, open_path, creat,
}
use chironfs.Scan.Total.{get_elem?-lt}
use chironfs.Scan.Finish.{Kept, Keeps}
use chironfs.Changes.Keeping.{run_change-Kept, run_move-Kept}
use chironfs.Changes.Nodes.{chiron_mknod-Kept}
use chironfs.Lookup.{chiron_getattr, chiron_access}
use chironfs.Lookup.Survivor.{lookup-Keeps}
use chironfs.Directory.Proofs.{Listing, chiron_readdir-Keeps}
use chironfs.FileIo.Survivor.{chiron_read-Keeps}
use chironfs.FileIo.Keeping.{chiron_write-Keeps}
use chironfs.OpenFiles.{open_file, chiron_open, chiron_create}
use chironfs.OpenFiles.Opening.{OpenEnd, opened, not_opened, open_file-OpenEnd}
use chironfs.Invariant.{Sane, Kept-Quiet, Usable-length}
use chironfs.Session.{
  Request, change, move, mknod, getattr, readdir, open_existing, create, read, write, release,
  Answer, only, with_buf, with_fh, answered, handle, handle_all,
}
use chironfs.Session
use chironfs.Session.Opened.{Holds, Holds-Quiet, open_file-Holds, chiron_release-Holds}

-- A handle is the index of a slot: FUSE gives back only what it got. It has room for a path of PATH_MAX bytes.
abbrev pub Proper : ℕ → Request → Type 0
Proper size (read n offset fh) = fh < size
Proper size (write buf offset fh) = fh < size
Proper size (release fh) = fh < size
Proper size (Session.readlink path n) = 4096 ≤ n
Proper size _ = Unit {0}

-- The file that a request closes.
abbrev pub closes : Request → Option ℕ
closes (release fh) = some fh
closes _ = none

-- A handle that is given out is the index of an open file.
abbrev pub GivesOpen : Answer → Config → Type 0
GivesOpen a c = (i : ℕ) → a.fh ≡ some i → (fds : List ℤ) × (get_elem? c.tab_fd i ≡ some (some fds))

no_handle : (c : Config) (a : Answer) → a.fh ≡ none → GivesOpen a c
no_handle c a e i h = cc

open_handle :
    (c c' : Config) (ret : ℤ) (fh : Option ℕ)
    → Sane c
    → OpenEnd c ret fh c'
    → GivesOpen (with_fh (ret, fh)) c'
open_handle c c' ret fh a (not_opened es b e h k) i p = cc
open_handle c c' ret fh a (opened j fd es r e l free usable h k) i p =
    let same : j ≡ i = some-injective j i (sym e ∙ p) in
    (
      fd,
      ap (λ (x : Config). get_elem? x.tab_fd i) k
          ∙ ap (get_elem? (set c.tab_fd j (some fd))) (sym same)
          ∙ get_elem?-set_self c.tab_fd j (some fd) (omega (arith, a.table.slots)),
    )

-- The entry of a handle, and what a file in it has.
entry :
    (c : Config) (fh : ℕ)
    → Sane c
    → fh < c.fd_buf_size
    → (slot : Option (List ℤ)) × (get_elem? c.tab_fd fh ≡ some slot)
      × ((fds : List ℤ) → slot ≡ some fds → length fds ≡ length c.replicas)
entry c fh a h =
    let (slot, g) = get_elem?-lt c.tab_fd fh (omega (arith, a.table.slots)) in
    (slot, g, λ fds e. Usable-length c.replicas fds (a.files fh fds (g ∙ ap (λ x. some x) e)))

module _ {W : Type 0} where
  -- The request is answered.
  abbrev pub Answered : Option ℕ → Config → Option (Answer × State W) → Type 0
  Answered closing c o =
      (a : Answer) × (t : State W) × (o ≡ some (a, t))
      × Holds closing c t.config
      × GivesOpen a t.config

  Answered-Keeps :
      {A : Type 0} (f : A → Answer) (c : Config) (o : Option (A × State W))
      → Sane c
      → ((x : A) → (f x).fh ≡ none)
      → Keeps c o
      → Answered none c (answered f o)
  Answered-Keeps f c o a n (x, t, e, k) = (
    f x,
    t,
    ap (answered f) e,
    Holds-Quiet none c t.config (Kept-Quiet c t.config a k),
    no_handle t.config (f x) (n x),
  )

  Answered-Kept :
      (c : Config) (o : ℤ × State W)
      → Sane c
      → Kept c o.1.config
      → Answered none c (answered only (some o))
  Answered-Kept c o a k = Answered-Keeps only c (some o) a (λ x. refl) (o.0, o.1, refl, k)

module _ {W : Type 0} (sys : Kernel W) (posix : Posix sys) where
  open_file-Answered :
      (op : String) (c : Bytes → Call) (context : Cred) (path : Bytes) (s : State W)
      → Sane s.config
      → Answered none s.config (answered with_fh (some (open_file sys op c context path s)))
  open_file-Answered op c context path s a =
      let o = open_file sys op c context path s in
      (
        with_fh o.0,
        o.1,
        refl,
        open_file-Holds sys posix op c context path s a,
        open_handle s.config o.1.config o.0.0 o.0.1 a
            (open_file-OpenEnd sys posix op c context path s a.table a.able.alive),
      )

  -- Every request that comes to a sane configuration is answered, with a fuel for readdir of one name more
  -- than a directory has, if failed calls set errno, directories have an end, targets of links have fewer than
  -- PATH_MAX bytes, a handle in it is the index of a slot, and a readlink has room for PATH_MAX bytes. The configuration is sane again, every open file but the one that is released keeps
  -- its descriptors, and a handle that is given out is that of an open file.
  pub handle-Answered :
      (most : ℕ)
      → Listing sys most
      → Links sys
      → (context : Cred) (q : Request) (s : State W) → Sane s.config
      → Proper s.config.fd_buf_size q
      → Answered (closes q) s.config (handle sys (suc most) context q s)
  unfolding handle chiron_getattr chiron_access chiron_open chiron_create
  handle-Answered most ls ln context (change ch) s a h =
      Answered-Kept s.config _ a (run_change-Kept sys posix context ch s a.able)
  handle-Answered most ls ln context (move mv) s a h =
      Answered-Kept s.config _ a (run_move-Kept sys context posix mv s a.able)
  handle-Answered most ls ln context (mknod path mode) s a h =
      Answered-Kept s.config _ a (chiron_mknod-Kept sys context posix path mode s a.able)
  handle-Answered most ls ln context (getattr path) s a h =
      Answered-Keeps with_buf s.config _ a (λ x. refl)
        (lookup-Keeps sys is_nonzero lstat "getattr" _ context path s a.able)
  handle-Answered most ls ln context (Session.access path mask) s a h =
      Answered-Keeps with_buf s.config _ a (λ x. refl)
        (lookup-Keeps sys is_nonzero (λ f. access f mask) "access" _ context path s a.able)
  handle-Answered most ls ln context (Session.readlink path size) s a h =
      Answered-Keeps with_buf s.config _ a (λ x. refl)
        (subst (Keeps s.config)
          (sym (chiron_readlink-lookup sys ln context path size s a.able.mounted h))
          (lookup-Keeps sys is_minus_one (λ f. readlink f size) "readlink" _ context path s a.able))
  handle-Answered most ls ln context (readdir path offset) s a h =
      Answered-Keeps only s.config _ a (λ x. refl)
        (chiron_readdir-Keeps sys most ls context path offset s a.able)
  handle-Answered most ls ln context (open_existing path flags) s a h =
      open_file-Answered "open" (λ f. open_path f flags) context path s a
  handle-Answered most ls ln context (create path mode) s a h =
      open_file-Answered "create" (λ f. creat f mode) context path s a
  handle-Answered most ls ln context (read size offset fh) s a h =
      let (slot, g, l) = entry s.config fh a h in
      Answered-Keeps with_buf s.config _ a (λ x. refl)
        (chiron_read-Keeps sys context size offset fh slot s a.able g
          (λ fds e. l fds e ∙ a.able.mounted.count))
  handle-Answered most ls ln context (write buf offset fh) s a h =
      let (slot, g, l) = entry s.config fh a h in
      Answered-Keeps only s.config _ a (λ x. refl)
        (chiron_write-Keeps sys buf offset posix context fh slot s a.able g l)
  handle-Answered most ls ln context (release fh) s a h =
      let (slot, g, l) = entry s.config fh a h in
      let (ret, t, e, k) = chiron_release-Holds sys context fh slot s a h g in
      (only ret, t, ap (answered only) e, k, no_handle t.config (only ret) refl)
