-- ===== src/FileIo/Writing.antt =====
-- How a call of chiron_write ends.
use mathlib.Core.Path.{subst}
use chironfs.Base.{
  ℕ, ◌<◌, ℤ, pos, is_negative, true, false, ◌||◌, some, List, [], ◌∷◌, ◌≡◌, refl, sym, ap, ◌∙◌, inl,
  inr, arith, Bool-cases, get_elem?, length,
}
use chironfs.Model.{Bytes, Replica, Config, Cred, Kernel, Posix, State, call, pwrite}
use chironfs.Priv.{drop_priv}
use chironfs.Priv.Laws.{drop_priv_frame}
use chironfs.Mirror.{Visit, skipped, failed, succeeded, succ_cnt}
use chironfs.Mirror.Laws.{
  VisitOf, Agrees, SameButWorld, SameButWorld-trans, is_nonzero-neg, started, started_frame,
  has_err_list,
}
use chironfs.Mirror.Outcome.{Outcome, finish-Outcome_at}
use chironfs.FileIo.Largest.{
  Results, ends, AllAtMost, Reached, Reached-zero, AtMost-refl, grown, grown-nonnegative, Peak,
  Peak-grown,
}
use chironfs.FileIo.{count_up, write_visit, write_all, write_body, chiron_write}

-- The replicas after the loop: those that wrote have counted it.
abbrev pub counted : List Replica → List Visit → List Replica
counted [] vs = []
counted (r ∷ rs) [] = r ∷ rs
counted (r ∷ rs) (succeeded ∷ vs) = record r { totwr = count_up r.totwr } ∷ counted rs vs
counted (r ∷ rs) (v ∷ vs) = r ∷ counted rs vs

-- Counting a write does not disable a replica.
pub Agrees-counted :
    (rs : List Replica) (vs : List Visit) → Agrees rs vs → Agrees (counted rs vs) vs
Agrees-counted [] vs a = a
Agrees-counted (r ∷ rs) [] a = absurd a
Agrees-counted (r ∷ rs) (skipped ∷ vs) a = (a.0, Agrees-counted rs vs a.1)
Agrees-counted (r ∷ rs) (failed e ∷ vs) a = (a.0, Agrees-counted rs vs a.1)
Agrees-counted (r ∷ rs) (succeeded ∷ vs) a = (a.0, Agrees-counted rs vs a.1)

counted-cons :
    (r q : Replica) (v : Visit) (rs : List Replica) (vs : List Visit)
    → counted (r ∷ []) (v ∷ []) ≡ q ∷ []
    → counted (r ∷ rs) (v ∷ vs) ≡ q ∷ counted rs vs
counted-cons r q skipped rs vs h = cc
counted-cons r q (failed e) rs vs h = cc
counted-cons r q succeeded rs vs h = cc

-- How a write ends that has `err_list`, from the replicas before and the results of the loop.
pub record WriteEnd (rs : List Replica) (xs : Results) (ret : ℤ) (after : List Replica)
    : Type 0 where
  pub w_max : ℤ
  pub largest : AllAtMost xs w_max
  pub reached : 0 < succ_cnt (ends xs) → Reached xs w_max
  pub outcome : Outcome w_max (counted rs (ends xs)) (ends xs) ret after

module _ {W : Type 0} (sys : Kernel W) (buf : Bytes) (offset : ℤ) where
  -- The results of the loop, one after the other.
  unfoldable pub results : List Replica → List ℤ → State W → Results
  results [] fds s = []
  results (r ∷ rs) [] s = []
  results (r ∷ rs) (fd ∷ fds) s =
      let (one, s1) = write_visit sys buf offset r fd s in (one.0, one.1) ∷ results rs fds s1

  -- One iteration fits its replica, counts a success, and wrote a number of bytes.
  write_visit_lem :
      Posix sys
      → (r : Replica) (fd : ℤ) (s : State W)
      → let (p, t) = write_visit sys buf offset r fd s in
        VisitOf r p.0
        × SameButWorld s t
        × (counted (r ∷ []) (p.0 ∷ []) ≡ p.2 ∷ [])
        × (p.0 ≡ succeeded → is_negative p.1 ≡ false)
  unfolding write_visit call
  write_visit_lem posix r fd s =
      let res = (sys s.cred (pwrite fd buf offset) s.world).0 in
      elim (Bool-cases (r.disabled || is_negative fd)) [
        | inl off ↦ rw off (tt, (refl, refl, refl), refl, λ h. cc)
        | inr on ↦ elim (Bool-cases (is_negative res.ret)) [
          | inl bad ↦
              rw (on, bad)
                (
                  (
                    ground (arith, on),
                    is_nonzero-neg res.errno (posix.sets_errno s.cred _ s.world bad),
                  ),
                  (refl, refl, refl),
                  refl,
                  λ h. cc,
                )
          | inr ok ↦ rw (on, ok) (ground (arith, on), (refl, refl, refl), refl, λ h. ok)
        ]
      ]

  -- What the loop leaves, from `w` on.
  pub record Written (rs : List Replica) (xs : Results) (w : ℤ) (s : State W)
      (out : (List Visit × ℤ × List Replica) × State W) : Type 0 where
    pub visits : out.0.0 ≡ ends xs
    pub replicas : out.0.2 ≡ counted rs (ends xs)
    pub fits : Agrees rs (ends xs)
    pub frame : SameButWorld s out.1
    pub peak : Peak xs w out.0.1

  pub write_all_lem :
      Posix sys
      → (rs : List Replica) (fds : List ℤ) (w : ℤ) (s : State W) → length fds ≡ length rs
      → is_negative w ≡ false
      → Written rs (results rs fds s) w s (write_all sys buf offset rs fds w s)
  unfolding write_all results
  write_all_lem posix [] fds w s l k = record {
    visits = refl;
    replicas = refl;
    fits = tt;
    frame = (refl, refl, refl);
    peak = (AtMost-refl w k, tt, inl refl);
  }
  write_all_lem posix (r ∷ rs) [] w s l k = absurd (omega arith)
  write_all_lem posix (r ∷ rs) (fd ∷ fds) w s l k =
      let (one, t) = write_visit sys buf offset r fd s in
      let v = write_visit_lem posix r fd s in
      let w' = grown one.0 one.1 w in
      let ih =
        write_all_lem posix rs fds w' t (omega arith) (grown-nonnegative one.0 one.1 w v.3 k) in
      record {
        visits = ap (λ vs. one.0 ∷ vs) ih.visits;
        replicas =
            ap (λ qs. one.2 ∷ qs) ih.replicas
            ∙ sym (counted-cons r one.2 one.0 rs (ends (results rs fds t)) v.2);
        fits = (v.0, ih.fits);
        frame = SameButWorld-trans s t (write_all sys buf offset rs fds w' t).1 v.1 ih.frame;
        peak = Peak-grown one.0 one.1 w _ (results rs fds t) v.3 k ih.peak;
      }

  drop_tab :
      (context : Cred) (fh : ℕ) (s : State W)
      → get_elem? (drop_priv sys context s).1.config.tab_fd fh ≡ get_elem? s.config.tab_fd fh
  drop_tab context fh s = rw (drop_priv_frame sys context s).0 refl

  pub write_body-WriteEnd :
      Posix sys
      → (fds : List ℤ) (s : State W) → length fds ≡ length s.config.replicas
      → let out = write_body sys buf offset fds s in
        WriteEnd s.config.replicas (results s.config.replicas fds s) out.0 out.1.config.replicas
  unfolding write_body
  write_body-WriteEnd posix fds s l =
      let rs = s.config.replicas in
      let (all, t) = write_all sys buf offset rs fds (pos 0) s in
      let u : State W = record t { config = record (t.config) { replicas = all.2 } } in
      let xs = results rs fds s in
      let h = write_all_lem posix rs fds (pos 0) s l refl in
      record {
        w_max = all.1;
        largest = h.peak.1;
        reached = λ c. elim h.peak.2 [
          | inl e ↦ subst (Reached xs) (sym e) (Reached-zero xs (subst (AllAtMost xs) e h.peak.1) c)
          | inr r ↦ r
        ];
        outcome = rw h.visits (
            finish-Outcome_at sys "write" all.1 (ends xs) u (counted rs (ends xs)) h.replicas
              (Agrees-counted rs (ends xs) h.fits));
      }

  -- If failed calls set errno, then a write to an open file, whose slot has an entry for each
  -- replica, returns once it has `err_list`. If some replica could be written, its result
  -- is the largest number of bytes that a replica wrote, every replica that was written counts it,
  -- and exactly the replicas whose write failed are disabled, even if one of the others wrote fewer
  -- bytes; otherwise its result is the first error, and no replica changes.
  pub chiron_write-WriteEnd :
      Posix sys
      → (context : Cred) (fh : ℕ) (fds : List ℤ) (s : State W)
      → get_elem? s.config.tab_fd fh ≡ some (some fds)
      → length fds ≡ length s.config.replicas
      → has_err_list sys context s ≡ true
      → (ret : ℤ) × (t : State W) × (chiron_write sys context buf offset fh s ≡ some (ret, t))
        × WriteEnd s.config.replicas
            (results s.config.replicas fds (started sys context s))
            ret
            t.config.replicas
  unfolding chiron_write
  chiron_write-WriteEnd posix context fh fds s g l h =
      let u = started sys context s in
      let f = (started_frame sys context s).0 in
      let rf = ap (λ (c : Config). c.replicas) f in
      let out = write_body sys buf offset fds u in
      (
        out.0,
        out.1,
        rw (drop_tab context fh s ∙ g, chiron_write) (rw h refl),
        subst (λ rs. WriteEnd rs (results rs fds u) out.0 out.1.config.replicas) rf
            (write_body-WriteEnd posix fds u (l ∙ ap length (sym rf))),
      )
