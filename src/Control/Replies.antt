-- ===== src/Control/Replies.antt =====
-- What process_request sends back, question by question.
use chironfs.Base.{
  ℕ, ◌^◌, ◌<◌, ℤ, pos, negsuc, is_negative, true, Option, none, some, [], ◌∷◌, ◌++◌, ◌≡◌, refl, sym,
  ap, ◌∙◌, arith, length, get_elem?, Option-cases, inl, inr,
}
use mathlib.Core.List.{append_assoc}
use mathlib.Core.Path.{subst}
use chironfs.Model.{Bytes, Replica, Kernel, State, call, read_fd}
use chironfs.Mirror.Laws.{SameButWorld, SameButWorld-trans}
use chironfs.Wire.{flag, bytes_of, number_of, is_count}
use chironfs.Wire.Stream.{Stream, number_of-bytes_of, length-bytes_of, is_count_self}
use chironfs.Wire.Questions.{
  Field, status, path, total_read, total_write, priority, Question, how_many, about, bye, code,
  action, operand, encode, answer, reply, reply_none, reply_some, Fits32, Named, AllNamed,
  AllNamed-get, outside, inside,
}
use chironfs.Control.{send, send_path, about_replica, run_action, process_request}

-- The handler of an action about a replica.
module _ {W : Type 0} (sys : Kernel W) (cfd : ℤ) where
  abbrev pub send_answer : Field → Replica → State W → ℤ × State W
  send_answer status r = send sys cfd (some (flag r.disabled)) 4
  send_answer path r = send_path sys cfd r
  send_answer total_read r = send sys cfd (some (bytes_of 8 r.totrd)) 8
  send_answer total_write r = send sys cfd (some (bytes_of 8 r.totwr)) 8
  send_answer priority r = send sys cfd (some (flag r.priority)) 4

  run_action-about :
      (f : Field) (s : State W)
      → run_action sys cfd (code f) s ≡ about_replica sys cfd (send_answer f) s
  unfolding run_action
  run_action-about status s = refl
  run_action-about path s = refl
  run_action-about total_read s = refl
  run_action-about total_write s = refl
  run_action-about priority s = refl

module _ {W : Type 0} (sys : Kernel W) (cfd : ℤ) (st : Stream sys cfd) where
  -- What is on the wire, and that nothing but the world has changed since `s`.
  abbrev pub Now : State W → State W → Bytes → Bytes → Type 0
  Now s t i o = (st.inbox t.world ≡ i) × (st.outbox t.world ≡ o) × SameButWorld s t

  send-Now :
      (b : Bytes) (n : ℕ) (s : State W)
      → length b ≡ n
      → let out = send sys cfd (some b) n s in
        (out.0 ≡ pos 0) × Now s out.1 (st.inbox s.world) (st.outbox s.world ++ b)
  unfolding send call
  send-Now b n s e =
      let w = st.writes s.cred s.world b in
      rw (← e) (rw (w.0, is_count_self (length b)) (refl, (w.1, w.2, (refl, refl, refl))))

  -- A read, and then an answer.
  Now-then :
      (s t u : State W) (rest b : Bytes)
      → Now s t rest (st.outbox s.world)
      → Now t u (st.inbox t.world) (st.outbox t.world ++ b)
      → Now s u rest (st.outbox s.world ++ b)
  Now-then s t u rest b x y =
      (y.0 ∙ x.0, y.1 ∙ ap (λ o. o ++ b) x.1, SameButWorld-trans s t u x.2 y.2)

  read-Now :
      (a rest : Bytes) (n : ℕ) (s : State W)
      → st.inbox s.world ≡ a ++ rest
      → length a ≡ n
      → let (r, t) = call sys (read_fd cfd n) s in
        (r.ret ≡ pos n) × (r.stored ≡ a) × Now s t rest (st.outbox s.world)
  unfolding call
  read-Now a rest n s h e =
      let w = st.reads s.cred s.world a rest h in
      rw (← e) (w.0, w.1, (w.2, w.3, (refl, refl, refl)))

  send_path-Now :
      (r : Replica) (s : State W)
      → Named r
      → let out = send_path sys cfd r s in
        (out.0 ≡ pos 0) × Now s out.1 (st.inbox s.world) (st.outbox s.world ++ answer path r)
  unfolding send_path
  send_path-Now r s (p, e, l) =
      let a = send-Now (bytes_of 8 r.pathlen) 8 s (length-bytes_of 8 r.pathlen) in
      let t = (send sys cfd (some (bytes_of 8 r.pathlen)) 8 s).1 in
      let b = send-Now p r.pathlen t (sym l) in
      let q : send_path sys cfd r s ≡ send sys cfd r.path r.pathlen t = simp (ap is_negative a.0) in
      rw (q, e)
        (
          b.0,
          (
            b.1.0 ∙ a.1.0,
            b.1.1
                ∙ ap (λ x. x ++ p) a.1.1
                ∙ append_assoc (st.outbox s.world) (bytes_of 8 r.pathlen) p,
            SameButWorld-trans s t (send sys cfd (some p) r.pathlen t).1 a.1.2 b.1.2,
          ),
        )

  send_answer-Now :
      (f : Field) (r : Replica) (s : State W)
      → Named r
      → let out = send_answer sys cfd f r s in
        (out.0 ≡ pos 0) × Now s out.1 (st.inbox s.world) (st.outbox s.world ++ answer f r)
  send_answer-Now status r s n = send-Now (flag r.disabled) 4 s refl
  send_answer-Now path r s n = send_path-Now r s n
  send_answer-Now total_read r s n = send-Now (bytes_of 8 r.totrd) 8 s refl
  send_answer-Now total_write r s n = send-Now (bytes_of 8 r.totwr) 8 s refl
  send_answer-Now priority r s n = send-Now (flag r.priority) 4 s refl

  -- The server has replied with these bytes, or has ended the connection.
  abbrev pub After : Option Bytes → State W → Bytes → ℤ → State W → Type 0
  After (some b) s rest ret t = (ret ≡ pos 0) × Now s t rest (st.outbox s.world ++ b)
  After none s rest ret t = (ret ≡ negsuc 0) × Now s t rest (st.outbox s.world)

  -- Where the code ends with what `After` says.
  abbrev pub Replied : Option Bytes → State W → Bytes → Option (ℤ × State W) → Type 0
  Replied b s rest o = (ret : ℤ) × (t : State W) × (o ≡ some (ret, t)) × After b s rest ret t

  about_replica-Replied :
      (f : Field) (i : ℕ) (rest : Bytes) (s : State W)
      → i < 2 ^ 32
      → length s.config.replicas ≡ s.config.max_replica
      → AllNamed s.config.replicas
      → st.inbox s.world ≡ bytes_of 4 i ++ rest
      → Replied
          (reply s.config (about f i))
          s
          rest
          (about_replica sys cfd (send_answer sys cfd f) s)
  unfolding about_replica call
  about_replica-Replied f i rest s small l named h =
      let (res, t) = call sys (read_fd cfd 4) s in
      let (four, got, now) = read-Now (bytes_of 4 i) rest 4 s h refl in
      let e : number_of res.stored ≡ i = ap number_of got ∙ number_of-bytes_of 4 i (omega arith) in
      let c : is_count 4 res.ret ≡ true = ap (is_count 4) four in
      elim (Option-cases (get_elem? s.config.replicas i)) [
        | inl z ↦
            subst (λ b. Replied b s rest (about_replica sys cfd (send_answer sys cfd f) s))
              (sym (reply_none s.config f i z))
              (negsuc 0, t, simp (c, e, outside i s.config l z), (refl, now))
        | inr (r, z) ↦
            let a = send_answer-Now f r t (AllNamed-get s.config.replicas i r named z) in
            let out = send_answer sys cfd f r t in
            subst (λ b. Replied b s rest (about_replica sys cfd (send_answer sys cfd f) s))
              (sym (reply_some s.config f i r z))
              (
                out.0,
                out.1,
                simp (c, e, inside i s.config r l z, z),
                (a.0, Now-then s t out.1 rest (answer f r) now a.1),
              )
      ]

  -- The number after an action of one byte.
  run_action-Replied :
      (q : Question) (rest : Bytes) (s : State W)
      → Fits32 q
      → length s.config.replicas ≡ s.config.max_replica
      → AllNamed s.config.replicas
      → st.inbox s.world ≡ operand q ++ rest
      → Replied (reply s.config q) s rest (run_action sys cfd (action q) s)
  unfolding run_action
  run_action-Replied how_many rest s small l named h =
      let m = bytes_of 4 s.config.max_replica in
      let a = send-Now m 4 s refl in
      let out = send sys cfd (some m) 4 s in (out.0, out.1, refl, (a.0, (a.1.0 ∙ h, a.1.1, a.1.2)))
  run_action-Replied (about f i) rest s small l named h =
      subst (Replied (reply s.config (about f i)) s rest) (sym (run_action-about sys cfd f s))
        (about_replica-Replied f i rest s small l named h)
  run_action-Replied bye rest s small l named h =
      (negsuc 0, s, refl, (refl, (h, refl, (refl, refl, refl))))

  After-then :
      (b : Option Bytes) (s t : State W) (rest : Bytes) (ret : ℤ) (u : State W)
      → st.outbox t.world ≡ st.outbox s.world
      → SameButWorld s t
      → After b t rest ret u
      → After b s rest ret u
  After-then none s t rest ret u o e a = (a.0, (a.1.0, a.1.1 ∙ o, SameButWorld-trans s t u e a.1.2))
  After-then (some b) s t rest ret u o e a =
      (a.0, (a.1.0, a.1.1 ∙ ap (λ x. x ++ b) o, SameButWorld-trans s t u e a.1.2))

  -- process_request takes the bytes of one question off the connection and leaves those that follow.
  -- It sends the reply, and returns 0; or, for a replica that there is not, and for `bye`, it sends
  -- nothing and returns -1. There are as many replicas as the configuration says, and each has a path.
  pub process_request-Replied :
      (q : Question) (rest : Bytes) (s : State W)
      → Fits32 q
      → length s.config.replicas ≡ s.config.max_replica
      → AllNamed s.config.replicas
      → st.inbox s.world ≡ encode q ++ rest
      → Replied (reply s.config q) s rest (process_request sys cfd s)
  unfolding process_request call
  process_request-Replied q rest s small l named h =
      let (res, t) = call sys (read_fd cfd 1) s in
      let (one, got, now) = read-Now (action q ∷ []) (operand q ++ rest) 1 s h refl in
      let r = run_action-Replied q rest t small l named now.0 in
      let e : number_of res.stored ≡ action q = ap number_of got ∙ omega arith in
      let c : is_count 1 res.ret ≡ true = ap (is_count 1) one in
      (r.0, r.1, simp (c, e, r.2), After-then (reply s.config q) s t rest r.0 r.1 now.1 now.2 r.3)
