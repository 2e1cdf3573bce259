-- ===== src/OneCopy/Views.antt =====
-- What chiron_getattr, chiron_access and chiron_readlink show of the one tree that the replicas hold.
use chironfs.Lookup.Links.{Links}
use chironfs.Priv.{drop_priv}
use mathlib.Core.Path.{subst}
use mathlib.Core.Option.{some-injective}
use chironfs.Base.{
  ℕ, ℤ, pos, is_nonzero, true, ◌==◌, Option, none, some, List, [], ◌∷◌, ◌≡◌, refl, sym, ap, ◌∙◌,
  arith, inl, inr, Bool-cases,
}
use chironfs.Model.{Bytes, Replica, Cred, Config, Reply, Kernel, Posix, State, call}
use chironfs.Priv.Laws.{Privileged}
use chironfs.Policy.{get_first_error}
use chironfs.Policy.Laws.{marked}
use chironfs.Mirror.{finish}
use chironfs.Mirror.Calls.{Allocates, started_calls, finish_calls}
use chironfs.Mirror.Laws.{started, started_frame, has_err_list}
use chironfs.OpenFiles.Opening.{marked-nil}
use chironfs.Scan.{Scanned}
use chironfs.Scan.Reference.{order_of, nothing}
use chironfs.Scan.Result.{result_of, replicas_of, finish-scanned}
use chironfs.Scan.Finish.{Able, Kept}
use chironfs.FileIo.{ReadReply, served_cnt}
use chironfs.Lookup.{lookup, lookup_body, kept}
use chironfs.Lookup.Served.{looked, lookup_body-walked}
use chironfs.Lookup.Survivor.{lookup-Keeps}
use chironfs.OneCopy.{Disks, Rooted, Same}
use chironfs.OneCopy.Request.{Same-world, started-disk, restored-disk}
use chironfs.OneCopy.Looks.{
  Look, look_path, look_call, look_failed, look_kept, look_name, Shows, run_look, run_look-lookup,
  FaithfulAll, walk-Honest, Roomy,
}
use chironfs.OneCopy.Refusal.{refused-nonzero}

module _ {W : Type 0} {sys : Kernel W} {D : Type 0} (ds : Disks sys D) where
  -- To disable some replicas takes nothing away.
  pub Same-marked :
      (d : D) (rs : List Replica) (es : List ℤ) (w : W)
      → Same ds d rs w
      → Same ds d (marked rs es) w
  Same-marked d [] es w s = s
  Same-marked d (r ∷ rs) [] w s = s
  Same-marked d (r ∷ rs) (e ∷ es) w s =
      (λ on p f. s.0 (ground arith) p f, Same-marked d rs es w s.1)

Allocates-has_err_list :
    {W : Type 0} (sys : Kernel W)
    → Allocates sys
    → (context : Cred) (s : State W) → has_err_list sys context s ≡ true
unfolding call
Allocates-has_err_list sys al context s =
    let t = (drop_priv sys context s).1 in (al t.cred t.config.max_replica 4 t.world).1

module _ {W : Type 0} {sys : Kernel W} {D : Type 0} {ds : Disks sys D} {V : Type 0}
    (sh : Shows ds V) where
  -- How a request that only looks ends, on the tree `d`: with what there is to see of it, or with an error.
  pub data LookEnd (k : Cred) (l : Look) (d : D) (out : ReadReply) : Type 0 where
    seen : out.ret ≡ pos 0 → sh.view l out.buf ≡ sh.shown k l d → LookEnd k l d out
    unseen : is_nonzero out.ret ≡ true → out.buf ≡ [] → LookEnd k l d out

  reply-LookEnd :
      (k : Cred) (l : Look) (d : D) (rs : List Replica) (got : Scanned) (ret : ℤ)
      → FaithfulAll sh k l d got.reply
      → (got.reply ≡ none → is_nonzero (get_first_error rs got.err_list) ≡ true)
      → ret ≡ result_of (pos 0) rs got
      → LookEnd k l d (record { ret = ret; buf = kept (look_kept l) got.reply })
  reply-LookEnd k l d rs got ret f n e = either got.reply f n e
    where
      either :
          (x : Option Reply)
          → FaithfulAll sh k l d x
          → (x ≡ none → is_nonzero (get_first_error rs got.err_list) ≡ true)
          → ret ≡ result_of (pos 0) rs (record got { reply = x })
          → LookEnd k l d (record { ret = ret; buf = kept (look_kept l) x })
      either none f n e = unseen (ap is_nonzero e ∙ n refl) refl
      either (some x) f n e = seen e f

  module _ (posix : Posix sys) (al : Allocates sys) (priv : Privileged sys) where
    -- The body of such a handler.
    body-LookEnd :
        (l : Look) (d : D) (s : State W)
        → Able s.config
        → Rooted ds s.config.replicas
        → Same ds d s.config.replicas s.world
        → (out : ReadReply) × (t : State W) × (lookup_body sys
              (look_name l)
              (look_failed l)
              (look_call l)
              (look_kept l)
              (look_path l)
              s
            ≡ some (out, t))
          × LookEnd s.cred l d out
          × ((es : List ℤ) × (t.config.replicas ≡ marked s.config.replicas es))
          × ((q : Bytes) → ds.disk q t.world ≡ ds.disk q s.world)
    body-LookEnd l d s a t same =
        let k = s.cred in
        let g = s.config in
        let rs = g.replicas in
        let (u, w, left, e) =
          lookup_body-walked sys (look_failed l) (look_call l) (look_path l) (look_name l)
            (look_kept l) g s a.mounted refl in
        let got = looked sys (look_failed l) (look_call l) (look_path l) k g s.world in
        let h = walk-Honest sh k l rs d (order_of g) (nothing g.max_replica) s.world t same refl in
        let out =
          finish sys (look_name l) (pos 0) (served_cnt got.reply) got.fail_cnt got.err_list u in
        let fin = finish-scanned sys (look_name l) (pos 0) got u rs left in
        let end =
          (finish_calls sys priv (look_name l) (pos 0) (served_cnt got.reply) got.fail_cnt
            got.err_list u).0 in
        (
          record { ret = out.0; buf = kept (look_kept l) got.reply },
          out.1,
          e,
          reply-LookEnd k l d rs got out.0 h.0
              (refused-nonzero sys posix ds al k l g s.world a.mounted a.spread a.alive t) fin.0,
          marks got.reply rs got.fail_cnt got.err_list out.1.config.replicas fin.1,
          λ q.
              ap (ds.disk q) end
              ∙ restored-disk ds u.cred u.config q u.world
              ∙ ap (ds.disk q) w
              ∙ h.1 q,
        )
      where
        marks :
            (x : Option Reply) (rs : List Replica) (fc : ℕ) (es : List ℤ) (qs : List Replica)
            → qs ≡ replicas_of rs (record { err_list = es; fail_cnt = fc; reply = x })
            → (es' : List ℤ) × (qs ≡ marked rs es')
        marks none rs fc es qs e = ([], e ∙ sym (marked-nil rs))
        marks (some x) rs fc es qs e = elim (Bool-cases (fc == 0)) [
          | inl y ↦ ([], e ∙ simp y (sym (marked-nil rs)))
          | inr n ↦ (es, e ∙ simp n)
        ]

    -- If memory is found, the program may change its effective user and group, failed calls set errno, targets
    -- of links have fewer than PATH_MAX bytes, and calls on the trees of the replicas do what `Disks` and
    -- `Shows` say, then on a configuration that can serve, whose replicas have each a tree of its own, the
    -- same one if they are not disabled, a request that only looks, with room for PATH_MAX bytes where it is
    -- readlink, returns. Its result is 0 and bytes that show that tree, as far as they speak of it
    -- (`view`), or an error and nothing. The trees are not changed, the configuration can still serve, and
    -- the replicas are those from before, some of them perhaps disabled.
    pub run_look-LookEnd :
        Links sys
        → (context : Cred) (l : Look) (d : D) (s : State W) → Roomy l
        → Able s.config
        → Rooted ds s.config.replicas
        → Same ds d s.config.replicas s.world
        → (out : ReadReply) × (t : State W) × (run_look sys context l s ≡ some (out, t))
          × LookEnd context l d out
          × Same ds d t.config.replicas t.world
          × ((es : List ℤ) × (t.config.replicas ≡ marked s.config.replicas es))
          × Kept s.config t.config
    unfolding lookup
    run_look-LookEnd ln context l d s h a t same =
        let u = started sys context s in
        let f = (started_frame sys context s).0 in
        let has = Allocates-has_err_list sys al context s in
        let here =
          Same-world ds d s.config.replicas s.world u.world (started-disk ds priv context s) same in
        let (out, v, e, b, (es, m), w) =
          body-LookEnd l d u (subst Able (sym f) a)
            (subst (λ (c : Config). Rooted ds c.replicas) (sym f) t)
            (subst (λ (c : Config). Same ds d c.replicas u.world) (sym f) here) in
        let m' = m ∙ ap (λ (c : Config). marked c.replicas es) f in
        let run : run_look sys context l s ≡ some (out, v) =
          run_look-lookup sys ln context l s a.mounted h ∙ rw has e in
        let (out', v', e', k) =
          lookup-Keeps sys (look_failed l) (look_call l) (look_name l) (look_kept l) context
            (look_path l) s a in
        let same_end = some-injective (out', v') (out, v) (sym e' ∙ rw has e) in
        (
          out,
          v,
          run,
          subst (λ c. LookEnd c l d out) (started_calls sys priv context s).1 b,
          subst (λ q. Same ds d q v.world) (sym m')
              (Same-marked ds d s.config.replicas es v.world
                (Same-world ds d s.config.replicas u.world v.world w here)),
          (es, m'),
          subst (λ (z : ReadReply × State W). Kept s.config z.1.config) same_end k,
        )
