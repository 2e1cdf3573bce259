-- ===== src/Session/Served.antt =====
-- Requests one after the other.
use mathlib.Core.Option.{some-injective}
use chironfs.Lookup.Links.{Links}
use chironfs.Base.{ℕ, suc, some, List, [], ◌∷◌, ◌≡◌, ◌≢◌, refl, sym, ap, ◌∙◌, length, get_elem?, ℤ}
use mathlib.Core.Path.{subst}
use chironfs.Model.{Cred, Config, Kernel, Posix, State}
use chironfs.Directory.Proofs.{Listing}
use chironfs.Invariant.{Sane}
use chironfs.Session.{Request, Answer, handle_all}
use chironfs.Session.Opened.{Holds}
use chironfs.Session.Answered.{Proper, closes, handle-Answered}

abbrev pub AllProper : ℕ → List (Cred × Request) → Type 0
AllProper size [] = Unit {0}
AllProper size ((k, q) ∷ qs) = Proper size q × AllProper size qs

-- No request closes the file of slot `i`.
abbrev pub Untouched : ℕ → List (Cred × Request) → Type 0
Untouched i [] = Unit {0}
Untouched i ((k, q) ∷ qs) = (closes q ≢ some i) × Untouched i qs

-- What a run of requests leaves.
pub record Served (qs : List (Cred × Request)) (c c' : Config) : Type 0 where
  pub sane : Sane c'
  pub size : c'.fd_buf_size ≡ c.fd_buf_size
  pub open_files :
      (i : ℕ) (fds : List ℤ)
      → Untouched i qs
      → get_elem? c.tab_fd i ≡ some (some fds)
      → get_elem? c'.tab_fd i ≡ some (some fds)

Served-cons :
    (k : Cred) (q : Request) (qs : List (Cred × Request)) (c d e : Config)
    → Holds (closes q) c d
    → Served qs d e
    → Served ((k, q) ∷ qs) c e
Served-cons k q qs c d e h v = record {
  sane = v.sane;
  size = v.size ∙ h.size;
  open_files = λ i fds u g. v.open_files i fds u.1 (h.open_files i fds u.0 g);
}

module _ {W : Type 0} (sys : Kernel W) where
  pub handle_all-Answers :
      Posix sys
      → (most : ℕ) → Listing sys most
      → Links sys
      → (qs : List (Cred × Request)) (s : State W) → Sane s.config
      → AllProper s.config.fd_buf_size qs
      → (answers : List Answer) × (t : State W) × (handle_all sys (suc most) qs s
          ≡ some (answers, t))
        × (length answers ≡ length qs)
        × Served qs s.config t.config
  unfolding handle_all
  handle_all-Answers posix most ls ln [] s a p =
      ([], s, refl, refl, record { sane = a; size = refl; open_files = λ i fds u g. g })
  handle_all-Answers posix most ls ln ((k, q) ∷ qs) s a p =
      let (x, u, e, h, o) = handle-Answered sys posix most ls ln k q s a p.0 in
      let (xs, t, f, l, v) =
        handle_all-Answers posix most ls ln qs u h.sane
          (subst (λ n. AllProper n qs) (sym h.size) p.1) in
      (x ∷ xs, t, simp (e, f), ap suc l, Served-cons k q qs s.config u.config t.config h v)

  -- If requests that come one after the other to a sane configuration are answered, with a fuel for readdir of
  -- one name more than a directory has, then there are as many answers as requests, the configuration is sane
  -- again, and a file that was open and that none of the requests releases is still open, in its slot and with
  -- its descriptors. Failed calls set errno, directories have an end, targets of links have fewer than PATH_MAX
  -- bytes, a handle in a request is the index of a slot, and each readlink has room for PATH_MAX bytes.
  pub handle_all-Served :
      Posix sys
      → (most : ℕ) → Listing sys most
      → Links sys
      → (qs : List (Cred × Request)) (s t : State W) (answers : List Answer) → Sane s.config
      → AllProper s.config.fd_buf_size qs
      → handle_all sys (suc most) qs s ≡ some (answers, t)
      → (length answers ≡ length qs) × Served qs s.config t.config
  handle_all-Served posix most ls ln qs s t answers a p e =
      let (xs, u, f, l, v) = handle_all-Answers posix most ls ln qs s a p in
      let same = some-injective (xs, u) (answers, t) (sym f ∙ e) in
      (
        ap (λ (z : List Answer × State W). length z.0) (sym same) ∙ l,
        subst (λ (z : List Answer × State W). Served qs s.config z.1.config) same v,
      )
