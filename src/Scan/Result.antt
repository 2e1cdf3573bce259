-- ===== src/Scan/Result.antt =====
-- The end of a handler whose request one replica serves.
use chironfs.Base.{
  ℕ, ℤ, Bool, true, false, not, ◌&&◌, ◌==◌, String, Option, none, some, List, ◌≡◌, refl, ap, ◌∙◌,
  inl, inr, arith, if◌then◌else◌,
}
use chironfs.Model.{Replica, Config, Reply, Kernel, State}
use chironfs.Policy.{get_first_error}
use chironfs.Policy.Laws.{marked}
use chironfs.Mirror.{finish}
use chironfs.Mirror.Outcome.{finish_lem}
use chironfs.Policy.{disable_faulty_replicas}
use chironfs.Policy.Laws.{disable_faulty_replicas_lem}
use chironfs.Scan.{Scanned}
use chironfs.FileIo.{served_cnt}

-- What a handler returns after a run of tries, `value` if a replica has served it, and the replicas after it.
abbrev pub result_of : ℤ → List Replica → Scanned → ℤ
result_of value rs got = elim got.reply [ none ↦ get_first_error rs got.err_list | some x ↦ value ]

abbrev pub replicas_of : List Replica → Scanned → List Replica
replicas_of rs got = elim got.reply [
  | none ↦ rs
  | some x ↦ if got.fail_cnt == 0 then rs else marked rs got.err_list
]

module _ {W : Type 0} (sys : Kernel W) where
  -- The end of a handler after a run of tries that left the replicas alone.
  pub finish-scanned :
      (op : String) (value : ℤ) (got : Scanned) (s : State W) (rs : List Replica)
      → s.config.replicas ≡ rs
      → let out = finish sys op value (served_cnt got.reply) got.fail_cnt got.err_list s in
        (out.0 ≡ result_of value rs got) × (out.1.config.replicas ≡ replicas_of rs got)
  finish-scanned op value got s rs e = either got.reply
    where
      no_success :
          (fc : ℕ)
          → (if not (fc == 0) && false
              then marked s.config.replicas got.err_list
              else s.config.replicas)
            ≡ s.config.replicas
      no_success fc = ground arith

      some_success :
          (b : Bool)
          → (if not b && true then marked rs got.err_list else rs)
            ≡ (if b then rs else marked rs got.err_list)
      some_success true = refl
      some_success false = refl

      either :
          (x : Option Reply)
          → let out = finish sys op value (served_cnt x) got.fail_cnt got.err_list s in
            (out.0 ≡ result_of value rs (record got { reply = x }))
            × (out.1.config.replicas ≡ replicas_of rs (record got { reply = x }))
      either none =
          let t = disable_faulty_replicas op 0 got.fail_cnt got.err_list s in
          let d = disable_faulty_replicas_lem op 0 got.fail_cnt got.err_list s in
          let same : t.config.replicas ≡ rs =
            ap (λ (c : Config). c.replicas) d.0 ∙ no_success got.fail_cnt ∙ e in
          elim (finish_lem sys op value 0 got.fail_cnt got.err_list s) [
            | inl h ↦ absurd (omega (arith, h.0))
            | inr h ↦ (
              h.1 ∙ ap (λ q. get_first_error q got.err_list) same,
              ap (λ (c : Config). c.replicas) h.2 ∙ same,
            )
          ]
      either (some x) =
          let t = disable_faulty_replicas op 1 got.fail_cnt got.err_list s in
          let d = disable_faulty_replicas_lem op 1 got.fail_cnt got.err_list s in
          let same : t.config.replicas
              ≡ (if got.fail_cnt == 0 then rs else marked rs got.err_list) =
            ap (λ (c : Config). c.replicas) d.0
            ∙ ap (λ q. if not (got.fail_cnt == 0) && true then marked q got.err_list else q) e
            ∙ some_success (got.fail_cnt == 0) in
          elim (finish_lem sys op value 1 got.fail_cnt got.err_list s) [
            | inl h ↦ (h.1, ap (λ (c : Config). c.replicas) h.2 ∙ same)
            | inr h ↦ absurd (omega (arith, h.0))
          ]
