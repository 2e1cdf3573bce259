-- ===== src/Control/Script.antt =====
-- A connection on which a client has asked a list of questions.
use mathlib.Core.Path.{subst}
use mathlib.Core.List.{append_assoc, append-nil}
use chironfs.Base.{
  suc, ℤ, pos, negsuc, false, some, List, [], ◌∷◌, ◌++◌, ◌≡◌, refl, sym, ap, ◌∙◌, arith, length,
}
use chironfs.Model.{Bytes, Config, Kernel, State, call, read_fd}
use chironfs.Wire.{is_count}
use chironfs.Wire.Stream.{Stream}
use chironfs.Wire.Questions.{Question, encode, reply, Fits32, AllNamed}
use chironfs.Control.{process_request, serve}
use chironfs.Control.Replies.{Replied, process_request-Replied}

-- The questions of a client, one after the other, and what the server sends back.
abbrev pub encodes : List Question → Bytes
encodes [] = []
encodes (q ∷ qs) = encode q ++ encodes qs

-- Each question has a reply.
abbrev pub Answerable : Config → List Question → Bytes → Type 0
Answerable c [] bs = bs ≡ []
Answerable c (q ∷ qs) bs =
    (b : Bytes) × (rest : Bytes) × Fits32 q
    × (reply c q ≡ some b)
    × (bs ≡ b ++ rest)
    × Answerable c qs rest

module _ {W : Type 0} (sys : Kernel W) (cfd : ℤ) (st : Stream sys cfd) where
  -- Where nothing waits the request fails.
  process_request-closed :
      (s : State W)
      → st.inbox s.world ≡ []
      → (u : State W) × (process_request sys cfd s ≡ some (negsuc 0, u))
        × (st.outbox u.world ≡ st.outbox s.world)
        × (u.config ≡ s.config)
  unfolding process_request call
  process_request-closed s h =
      let (res, u) = call sys (read_fd cfd 1) s in
      let r = st.ends s.cred s.world 1 (omega (arith, ap length h)) in
      let c : is_count 1 res.ret ≡ false = ap (is_count 1) (r.0 ∙ ap (λ b. pos (length b)) h) in
      (u, simp c, r.2, refl)

  -- A question with a reply.
  process_request-reply :
      (q : Question) (b rest : Bytes) (s : State W)
      → Fits32 q
      → reply s.config q ≡ some b
      → length s.config.replicas ≡ s.config.max_replica
      → AllNamed s.config.replicas
      → st.inbox s.world ≡ encode q ++ rest
      → (t : State W) × (process_request sys cfd s ≡ some (pos 0, t))
        × (st.inbox t.world ≡ rest)
        × (st.outbox t.world ≡ st.outbox s.world ++ b)
        × (t.config ≡ s.config)
  process_request-reply q b rest s small r l named h =
      let x =
        subst (λ o. Replied sys cfd st o s rest (process_request sys cfd s)) r
          (process_request-Replied sys cfd st q rest s small l named h) in
      (x.1, x.2 ∙ ap (λ z. some (z, x.1)) x.3.0, x.3.1.0, x.3.1.1, x.3.1.2.0)

  -- A server that finds nothing but questions that have a reply on a connection, closed by the client
  -- after them, sends the replies in the order of the questions, and ends with the connection.
  pub serve-replies :
      (qs : List Question) (bs : Bytes) (s : State W)
      → Answerable s.config qs bs
      → length s.config.replicas ≡ s.config.max_replica
      → AllNamed s.config.replicas
      → st.inbox s.world ≡ encodes qs
      → (t : State W) × (serve sys cfd (suc (length qs)) s ≡ some t)
        × (st.outbox t.world ≡ st.outbox s.world ++ bs)
        × (t.config ≡ s.config)
  unfolding serve
  serve-replies [] bs s a l named h =
      let (u, e, o, c) = process_request-closed s h in
      (
        u,
        simp e,
        o ∙ sym (append-nil (st.outbox s.world)) ∙ ap (λ z. st.outbox s.world ++ z) (sym a),
        c,
      )
  serve-replies (q ∷ qs) bs s (b, rest, small, r, e, a) l named h =
      let (t, p, i, o, c) = process_request-reply q b (encodes qs) s small r l named h in
      let (v, d, w, k) =
        serve-replies qs rest t (subst (λ z. Answerable z qs rest) (sym c) a)
          (subst (λ (z : Config). length z.replicas ≡ z.max_replica) (sym c) l)
          (subst (λ (z : Config). AllNamed z.replicas) (sym c) named) i in
      (
        v,
        simp (p, d),
        w
            ∙ ap (λ z. z ++ rest) o
            ∙ append_assoc (st.outbox s.world) b rest
            ∙ ap (λ z. st.outbox s.world ++ z) (sym e),
        k ∙ c,
      )
