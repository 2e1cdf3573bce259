-- ===== src/OpenFiles/Opening.antt =====
-- What chiron_open and chiron_create return, and what they leave in the table of open files.
use mathlib.Core.Path.{subst}
use chironfs.Base.{
  ℕ, zero, suc, ◌<◌, ℤ, pos, is_nonzero, true, String, Option, none, some, List, [], ◌∷◌, ◌≡◌, refl,
  sym, ap, ◌∙◌, ◌⊎◌, inl, inr, arith, Bool-cases, set,
}
use chironfs.Model.{Bytes, Replica, Config, Cred, Call, calloc, Kernel, Posix, State, call}
use chironfs.Priv.{drop_priv, reacquire_priv}
use chironfs.Priv.Laws.{drop_priv_frame, reacquire_priv_frame}
use chironfs.Policy.{disable_faulty_replicas, get_first_error}
use chironfs.Policy.Laws.{marked, disable_faulty_replicas_lem}
use chironfs.FdTable.{is_free, fd_hashset}
use chironfs.FdTable.Slots.{TableFits, Stored, stored, nothing_open, no_room, fd_hashset-Stored}
use chironfs.Mirror.{Visit, err_list, succ_cnt, fail_cnt, enomem}
use chironfs.Mirror.Survivor.{any_enabled, any_enabled-marked}
use chironfs.Mirror.Outcome.{replicas_after}
use chironfs.OpenFiles.{close_open, store_fds, open_all, open_end, open_body, open_file}
use chironfs.OpenFiles.Usable.{
  Usable, AgreesOpen, Agrees-AgreesOpen, marked-Usable, first_fd-ne-none, get_first_error-open,
  open_all_lem,
}

-- How an open ends, from the configuration before and after. It stores usable descriptors in a slot
-- that was free; or it reports an error, and the table stays as it was.
pub data OpenEnd (c : Config) (ret : ℤ) (fh : Option ℕ) (c' : Config) : Type 0 where
  opened :
      (k : ℕ) (fd es : List ℤ)
      → ret ≡ pos 0
      → fh ≡ some k
      → k < c.fd_buf_size
      → is_free c.tab_fd k ≡ true
      → Usable (marked c.replicas es) fd
      → any_enabled (marked c.replicas es) ≡ true
      → c' ≡ record c { replicas = marked c.replicas es; tab_fd = set c.tab_fd k (some fd) }
      → OpenEnd c ret fh c'
  not_opened :
      (es : List ℤ)
      → is_nonzero ret ≡ true
      → fh ≡ none
      → any_enabled (marked c.replicas es) ≡ true
      → c' ≡ record c { replicas = marked c.replicas es }
      → OpenEnd c ret fh c'

pub marked-nil : (rs : List Replica) → marked rs [] ≡ rs
marked-nil [] = refl
marked-nil (r ∷ rs) = refl

zero_or_pos : (n : ℕ) → (n ≡ 0) ⊎ (0 < n)
zero_or_pos zero = inl refl
zero_or_pos (suc n) = inr (omega arith)

TableFits-frame :
    (c c' : Config) → c' ≡ record c { replicas = c'.replicas } → TableFits c → TableFits c'
TableFits-frame c c' e v = ground arith

module _ {W : Type 0} (sys : Kernel W) where
  close_open_config :
      (rs : List Replica) (fd : List ℤ) (s : State W) → (close_open sys rs fd s).config ≡ s.config
  unfolding close_open call
  close_open_config [] fd s = refl
  close_open_config (r ∷ rs) [] s = refl
  close_open_config (r ∷ rs) (f ∷ fd) s = close_open_config rs fd _ ∙ ground arith

  store_fds_end :
      (c : Config) (es fd : List ℤ) (s : State W) (ret : ℤ)
      → s.config ≡ record c { replicas = marked c.replicas es }
      → Usable s.config.replicas fd
      → any_enabled s.config.replicas ≡ true
      → (fd_hashset fd s).0 ≡ ret
      → Stored fd s.config ret (fd_hashset fd s).1.config
      → let out = store_fds sys fd s in OpenEnd c out.0.0 out.0.1 out.1.config
  unfolding store_fds
  store_fds_end c es fd s ret e u a q (stored k r lt free c') =
      simp (store_fds, q ∙ r)
        (opened k fd es refl refl (subst (λ (g : Config). k < g.fd_buf_size) e lt)
          (subst (λ (g : Config). is_free g.tab_fd k ≡ true) e free)
          (subst (λ (g : Config). Usable g.replicas fd) e u)
          (subst (λ (g : Config). any_enabled g.replicas ≡ true) e a)
          ((reacquire_priv_frame sys (fd_hashset fd s).1).0
            ∙ c'
            ∙ ap (λ (g : Config). record g { tab_fd = set g.tab_fd k (some fd) }) e))
  store_fds_end c es fd s ret e u a q (nothing_open n r c') =
      absurd (first_fd-ne-none s.config.replicas fd u a n)
  store_fds_end c es fd s ret e u a q (no_room full r c') =
      let t : State W = (fd_hashset fd s).1 in
      simp (store_fds, q ∙ r)
        (not_opened es refl refl (subst (λ (g : Config). any_enabled g.replicas ≡ true) e a) (
          (reacquire_priv_frame sys (close_open sys t.config.replicas fd t)).0
          ∙ close_open_config t.config.replicas fd t
          ∙ c'
          ∙ e))

  module _ (op : String) (vs : List Visit) (fd : List ℤ) (s : State W) where
    -- The state once the replicas that failed are disabled.
    abbrev settled : State W
    settled = disable_faulty_replicas op (succ_cnt vs) (fail_cnt vs) (err_list vs) s

    settled_config : settled.config ≡ record (s.config) { replicas = settled.config.replicas }
    settled_config =
        ground (arith, disable_faulty_replicas_lem op (succ_cnt vs) (fail_cnt vs) (err_list vs) s)

    open_end_zero :
        succ_cnt vs ≡ 0
        → open_end sys op vs fd s ≡ (
          (get_first_error settled.config.replicas (err_list vs), none),
          (reacquire_priv sys settled).1,
        )
    unfolding open_end
    open_end_zero z = ground arith

    open_end_pos : 0 < succ_cnt vs → open_end sys op vs fd s ≡ store_fds sys fd settled
    unfolding open_end
    open_end_pos z = ground arith

  open_end-OpenEnd :
      (op : String) (vs : List Visit) (fd : List ℤ) (s : State W)
      → TableFits s.config
      → AgreesOpen s.config.replicas vs fd
      → any_enabled s.config.replicas ≡ true
      → let out = open_end sys op vs fd s in OpenEnd s.config out.0.0 out.0.1 out.1.config
  open_end-OpenEnd op vs fd s v a h =
      let rep = replicas_after sys op vs s (Agrees-AgreesOpen s.config.replicas vs fd a) in
      let t : State W = settled op vs fd s in
      let tc = settled_config op vs fd s in
      elim (zero_or_pos (succ_cnt vs)) [
        | inl z ↦ rw (open_end_zero op vs fd s z) (
            not_opened [] (rw (rep.1 z) (get_first_error-open s.config.replicas vs fd a h z)) refl
              (rw marked-nil h)
              ((reacquire_priv_frame sys t).0
                ∙ tc
                ∙ ap (λ rs. record (s.config) { replicas = rs })
                    (rep.1 z ∙ sym (marked-nil s.config.replicas))))
        | inr z ↦
            let m : t.config.replicas ≡ marked s.config.replicas (err_list vs) = rep.0 z in
            rw (open_end_pos op vs fd s z) (
              store_fds_end s.config (err_list vs) fd t _
                (tc ∙ ap (λ rs. record (s.config) { replicas = rs }) m)
                (rw m (marked-Usable s.config.replicas vs fd a))
                (rw m (
                  any_enabled-marked s.config.replicas vs
                    (Agrees-AgreesOpen s.config.replicas vs fd a) z))
                refl (fd_hashset-Stored fd t (TableFits-frame s.config t.config tc v)))
      ]

  no_memory :
      (c : Config) (s : State W)
      → s.config ≡ c
      → any_enabled c.replicas ≡ true
      → OpenEnd c enomem none (reacquire_priv sys s).1.config
  no_memory c s e h = not_opened [] refl refl (rw marked-nil h) (
      (reacquire_priv_frame sys s).0
      ∙ e
      ∙ ap (λ rs. record c { replicas = rs }) (sym (marked-nil c.replicas)))

  open_body-OpenEnd :
      Posix sys
      → (op : String) (c : Bytes → Call) (path : Bytes) (g : Config) (s : State W) → s.config ≡ g
      → TableFits g
      → any_enabled g.replicas ≡ true
      → let out = open_body sys op c path s in OpenEnd g out.0.0 out.0.1 out.1.config
  unfolding open_body
  open_body-OpenEnd posix op c path g s e v h =
      let run = open_all sys c path s.config.replicas s in
      let all = open_all_lem sys posix c path s.config.replicas s in
      let f : run.1.config ≡ s.config = all.1.0 in
      let out = open_end sys op run.0.0 run.0.1 run.1 in
      subst (λ q. OpenEnd q out.0.0 out.0.1 out.1.config) (f ∙ e)
        (open_end-OpenEnd op run.0.0 run.0.1 run.1 (subst TableFits (sym (f ∙ e)) v)
          (subst (λ (q : Config). AgreesOpen q.replicas run.0.0 run.0.1) (sym f) all.0)
          (subst (λ (q : Config). any_enabled q.replicas ≡ true) (sym (f ∙ e)) h))

  -- chiron_open and chiron_create, on a table that fits, with a replica that is not disabled and a
  -- system whose failed calls set errno. On success they return 0 and, as the file's handle, the index of a slot that was free, which now
  -- holds a descriptor for each replica that is not disabled; on failure they return an error that is
  -- not 0 and leave the table alone. Some replica stays enabled, and nothing else changes.
  pub open_file-OpenEnd :
      Posix sys
      → (op : String) (c : Bytes → Call) (context : Cred) (path : Bytes) (s : State W)
      → TableFits s.config
      → any_enabled s.config.replicas ≡ true
      → let out = open_file sys op c context path s in OpenEnd s.config out.0.0 out.0.1 out.1.config
  unfolding open_file call
  open_file-OpenEnd posix op c context path s v h =
      let s1 : State W = (drop_priv sys context s).1 in
      let (p, s2) = call sys (calloc s1.config.max_replica 4) s1 in
      let (q, s3) = call sys (calloc s1.config.max_replica 4) s2 in
      let e = (drop_priv_frame sys context s).0 in
      elim (Bool-cases (is_nonzero p.ret)) [
        | inr p0 ↦ simp p0 (no_memory s.config s2 e h)
        | inl p1 ↦ elim (Bool-cases (is_nonzero q.ret)) [
          | inr q0 ↦ simp (p1, q0) (no_memory s.config s3 e h)
          | inl q1 ↦ simp (p1, q1) (open_body-OpenEnd posix op c path s.config s3 e v h)
        ]
      ]
