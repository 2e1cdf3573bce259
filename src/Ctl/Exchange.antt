-- ===== src/Ctl/Exchange.antt =====
-- What chironctl and the control server say to each other, from one end to the other.
use mathlib.Core.Path.{subst}
use mathlib.Core.List.{append-nil}
use mathlib.Core.Option.{some-injective}
use chironfs.Base.{
  ℕ, suc, ◌^◌, ◌<◌, ℤ, is_nonzero, some, List, [], ◌∷◌, ◌++◌, map, ◌≡◌, refl, sym, ap, ◌∙◌, length,
}
use chironfs.Model.{Bytes, Replica, Config, Cred, Kernel, State}
use chironfs.Wire.{bytes_of, flag}
use chironfs.Wire.Stream.{Stream}
use chironfs.Wire.Questions.{
  Field, status, path, total_read, total_write, priority, how_many, about, encode, text,
}
use chironfs.Control.{serve}
use chironfs.Control.Script.{encodes, Answerable, serve-replies}
use chironfs.Ctl.{
  long_long, get_path, get_status, get_priority, get_total_read, get_total_write, show_replica,
  show_replicas, report,
}
use chironfs.Ctl.Asking.{
  flag_back, shown, Printable, Got, Did-trans, get_path_lem, get_status_lem, get_priority_lem,
  get_total_read_lem, get_total_write_lem, get_max_replica_lem,
}
use chironfs.Ctl.Script.{
  questions, script, replies_of, all_replies, all_replies_of, Answerable-script, AllPrintable,
  AllPrintable-AllNamed,
}

module _ {W : Type 0} (sys : Kernel W) (me : Cred) (fd : ℤ) (st : Stream sys fd) where
  show_replica_at :
      (i : ℕ) (p : Bytes) (b d : ℤ) (rd wr : ℕ) (w w1 w2 w3 w4 w5 : W)
      → get_path sys me fd i w ≡ some (p, w1)
      → get_status sys me fd i w1 ≡ some (b, w2)
      → get_priority sys me fd i w2 ≡ some (d, w3)
      → get_total_read sys me fd i w3 ≡ some (rd, w4)
      → get_total_write sys me fd i w4 ≡ some (wr, w5)
      → show_replica sys me fd i w
        ≡ some (
          record {
            path = p;
            disabled = is_nonzero b;
            low = is_nonzero d;
            read = long_long rd;
            written = long_long wr;
          },
          w5,
        )
  unfolding show_replica
  show_replica_at i p b d rd wr w w1 w2 w3 w4 w5 e1 e2 e3 e4 e5 = simp (e1, e2, e3, e4, e5)

  show_replica_lem :
      (i : ℕ) (r : Replica) (rest : Bytes) (w : W)
      → Printable r
      → st.inbox w ≡ replies_of r rest
      → Got sys me fd st (shown r) w (encodes (questions i 1)) rest (show_replica sys me fd i w)
  show_replica_lem i r rest w ok h =
      let l : r.pathlen ≡ length (text r.path) =
        ok.named.2 ∙ ap (λ q. length (text q)) (sym ok.named.1) in
      let t5 = bytes_of 8 r.totwr ++ rest in
      let t4 = bytes_of 8 r.totrd ++ t5 in
      let t3 = flag r.priority ++ t4 in
      let t2 = flag r.disabled ++ t3 in
      let (w1, e1, d1) = get_path_lem sys me fd st i r.pathlen (text r.path) t2 w ok.len l h in
      let (w2, e2, d2) = get_status_lem sys me fd st i r.disabled t3 w1 d1.0 in
      let (w3, e3, d3) = get_priority_lem sys me fd st i r.priority t4 w2 d2.0 in
      let (w4, e4, d4) = get_total_read_lem sys me fd st i r.totrd t5 w3 ok.rd d3.0 in
      let (w5, e5, d5) = get_total_write_lem sys me fd st i r.totwr rest w4 ok.wr d4.0 in
      let run =
        show_replica_at i (text r.path) _ _ r.totrd r.totwr w w1 w2 w3 w4 w5 e1 e2 e3 e4 e5 in
      let q = λ (x : Field). encode (about x i) in
      let d45 = Did-trans sys me fd st w3 w4 w5 (q total_read) (q total_write) t5 rest d4 d5 in
      let d35 = Did-trans sys me fd st w2 w3 w5 (q priority) _ t4 rest d3 d45 in
      let d25 = Did-trans sys me fd st w1 w2 w5 (q status) _ t3 rest d2 d35 in
      (
        w5,
        run ∙ rw (flag_back r.disabled, flag_back r.priority) refl,
        Did-trans sys me fd st w w1 w5 (q path) _ t2 rest d1 d25,
      )

  show_replicas_lem :
      (i : ℕ) (rs : List Replica) (w : W)
      → AllPrintable rs
      → st.inbox w ≡ all_replies rs
      → Got sys me fd st
          (map shown rs)
          w
          (encodes (questions i (length rs)))
          []
          (show_replicas sys me fd i (length rs) w)
  unfolding show_replicas
  show_replicas_lem i [] w ok h = (w, refl, (h, sym (append-nil (st.outbox w))))
  show_replicas_lem i (r ∷ rs) w (ok, oks) h =
      let (w1, e, d) = show_replica_lem i r (all_replies rs) w ok h in
      let (w2, f, k) = show_replicas_lem (suc i) rs w1 oks d.0 in
      (
        w2,
        simp (e, f),
        Did-trans sys me fd st w w1 w2 (encodes (questions i 1)) _ (all_replies rs) [] d k,
      )

  -- chironctl finds the replies to its questions on its connection, and nothing else. Then it gets
  -- the number of replicas and every replica as it is, and has asked its questions in order. The path
  -- of a replica is there with its length, its numbers fit their types, and an `unsigned int` counts
  -- the replicas.
  pub report_lem :
      (c : Config) (w : W)
      → length c.replicas ≡ c.max_replica
      → c.max_replica < 2 ^ 32
      → AllPrintable c.replicas
      → st.inbox w ≡ all_replies_of c
      → Got sys me fd st
          (c.max_replica, map shown c.replicas)
          w
          (encodes (script c.max_replica))
          []
          (report sys me fd w)
  unfolding report
  report_lem c w l b ok h =
      let (w1, e, d) =
        get_max_replica_lem sys me fd st c.max_replica (all_replies c.replicas) w b h in
      let (w2, f, k) =
        subst
          (λ n.
            Got sys me fd st (map shown c.replicas) w1 (encodes (questions 0 n)) []
              (show_replicas sys me fd 0 n w1))
          l (show_replicas_lem 0 c.replicas w1 ok d.0) in
      (w2, simp (e, f), Did-trans sys me fd st w w1 w2 (encode how_many) _ _ [] d k)

module _ {V W : Type 0} (server : Kernel V) (cfd : ℤ) (sv : Stream server cfd) (client : Kernel W)
    (me : Cred) (fd : ℤ) (cl : Stream client fd) where
  -- If the control server has been asked what chironctl asks, on a connection on which it had not
  -- written before, and has ended with it, and if what it wrote is what waits for chironctl, then
  -- chironctl gets the number of replicas and of each replica the bytes of the path, the status, the
  -- priority and the counters that the server has in its configuration, in their order, and has written
  -- what the server was asked. How printf shows them is not stated. The path of a replica is there with its
  -- length, its numbers fit their types, and an `unsigned int` counts the replicas.
  pub report-serve :
      (s t : State V) (w : W)
      → length s.config.replicas ≡ s.config.max_replica
      → s.config.max_replica < 2 ^ 32
      → AllPrintable s.config.replicas
      → sv.inbox s.world ≡ encodes (script s.config.max_replica)
      → sv.outbox s.world ≡ []
      → serve server cfd (suc (length (script s.config.max_replica))) s ≡ some t
      → cl.inbox w ≡ sv.outbox t.world
      → (v : W) × (report client me fd w
          ≡ some ((s.config.max_replica, map shown s.config.replicas), v))
        × (cl.outbox v ≡ cl.outbox w ++ sv.inbox s.world)
  report-serve s t w l b ok asked fresh ran link =
      let c = s.config in
      let a : Answerable c (script c.max_replica) (all_replies_of c) = Answerable-script c l b in
      let (u, e, o, k) =
        serve-replies server cfd sv (script c.max_replica) (all_replies_of c) s a l
          (AllPrintable-AllNamed c.replicas ok) asked in
      let same : u ≡ t = some-injective u t (sym e ∙ ran) in
      let q : cl.inbox w ≡ all_replies_of c =
        link
        ∙ ap (λ (x : State V). sv.outbox x.world) (sym same)
        ∙ o
        ∙ ap (λ x. x ++ all_replies_of c) fresh in
      let (v, f, d) = report_lem client me fd cl c w l b ok q in
      (v, f, d.1 ∙ ap (λ x. cl.outbox w ++ x) (sym asked))
