-- ===== src/Ctl/Asking.antt =====
-- What the functions of chironctl make of the replies that wait for them.
use mathlib.Core.List.{append_assoc}
use chironfs.Base.{
  ℕ, ◌*◌, ◌^◌, ◌<◌, ℤ, is_nonzero, Bool, true, false, Option, some, [], ◌∷◌, ◌++◌, ◌≡◌, refl, sym,
  ap, ◌∙◌, arith, length,
}
use chironfs.Model.{Bytes, Replica, Cred, Kernel, malloc, read_fd, write_fd}
use chironfs.FdTable.{to_int}
use chironfs.Wire.{bytes_of, number_of, is_count, flag}
use chironfs.Wire
use chironfs.Wire.Stream.{Stream, number_of-bytes_of, is_count_self}
use chironfs.Wire.Questions.{
  status, path, total_read, total_write, priority, how_many, about, code, encode, text, Named,
}
use chironfs.Ctl.{
  Shown, long_long, put, get, ask, get_path, get_priority, get_total_read, get_total_write,
  get_status, get_max_replica,
}

-- An int that is 0 or 1 comes back.
pub flag_back : (b : Bool) → is_nonzero (to_int (number_of (flag b))) ≡ b
flag_back true = refl
flag_back false = refl

-- What chironctl should have of a replica.
abbrev pub shown : Replica → Shown
shown r = record {
  path = text r.path;
  disabled = r.disabled;
  low = r.priority;
  read = long_long r.totrd;
  written = long_long r.totwr;
}

-- The numbers of a replica fit their types, and its path is there.
pub record Printable (r : Replica) : Type 0 where
  pub named : Named r
  pub len : r.pathlen < 2 ^ 64
  pub rd : r.totrd < 2 ^ 64
  pub wr : r.totwr < 2 ^ 64

module _ {W : Type 0} (sys : Kernel W) (me : Cred) (fd : ℤ) (st : Stream sys fd) where
  -- From one world to another `rest` is left to read, and `q` has been written.
  abbrev pub Did : W → W → Bytes → Bytes → Type 0
  Did w v q rest = (st.inbox v ≡ rest) × (st.outbox v ≡ st.outbox w ++ q)

  -- Code that returns `a` and does so much.
  abbrev pub Got : {A : Type 0} → A → W → Bytes → Bytes → Option (A × W) → Type 0
  Got a w q rest o = (v : W) × (o ≡ some (a, v)) × Did w v q rest

  pub Did-trans :
      (w v u : W) (p q i rest : Bytes) → Did w v p i → Did v u q rest → Did w u (p ++ q) rest
  Did-trans w v u p q i rest a b =
      (b.0, b.1 ∙ ap (λ x. x ++ q) a.1 ∙ append_assoc (st.outbox w) p q)

  put_lem :
      (b : Bytes) (n : ℕ) (w : W)
      → length b ≡ n
      → (v : W) × (put sys me fd b n w ≡ some v) × Did w v b (st.inbox w)
  unfolding put
  put_lem b n w e =
      let r = st.writes me w b in
      rw (← e) (
        (sys me (write_fd fd (some b) (length b)) w).1,
        rw (r.0, is_count_self (length b)) refl,
        (r.1, r.2),
      )

  pub get_lem :
      (a rest : Bytes) (n : ℕ) (w : W)
      → st.inbox w ≡ a ++ rest
      → length a ≡ n
      → (v : W) × (get sys me fd n w ≡ some (a, v))
        × (st.inbox v ≡ rest)
        × (st.outbox v ≡ st.outbox w)
  unfolding get
  get_lem a rest n w h e =
      let r = st.reads me w a rest h in
      rw (← e) (
        (sys me (read_fd fd (length a)) w).1,
        rw (r.0, is_count_self (length a), r.1) refl,
        r.2,
        r.3,
      )

  ask_lem :
      (c i n : ℕ) (a rest : Bytes) (w : W)
      → st.inbox w ≡ a ++ rest
      → length a ≡ n
      → Got a w (c ∷ bytes_of 4 i) rest (ask sys me c fd i n w)
  unfolding ask
  ask_lem c i n a rest w h e =
      let (w1, p, d1) = put_lem (c ∷ []) 1 w refl in
      let (w2, q, d2) = put_lem (bytes_of 4 i) 4 w1 refl in
      let (w3, g, i3, o3) = get_lem a rest n w2 (d2.0 ∙ d1.0 ∙ h) e in
      (w3, simp (p, q, g), (i3, o3 ∙ (Did-trans w w1 w2 (c ∷ []) (bytes_of 4 i) _ _ d1 d2).1))

  pub get_status_lem :
      (i : ℕ) (b : Bool) (rest : Bytes) (w : W)
      → st.inbox w ≡ flag b ++ rest
      → Got
          (to_int (number_of (flag b)))
          w
          (encode (about status i))
          rest
          (get_status sys me fd i w)
  unfolding get_status
  get_status_lem i b rest w h =
      let (v, e, d) = ask_lem (code status) i 4 (flag b) rest w h refl in (v, simp e, d)

  pub get_priority_lem :
      (i : ℕ) (b : Bool) (rest : Bytes) (w : W)
      → st.inbox w ≡ flag b ++ rest
      → Got
          (to_int (number_of (flag b)))
          w
          (encode (about priority i))
          rest
          (get_priority sys me fd i w)
  unfolding get_priority
  get_priority_lem i b rest w h =
      let (v, e, d) = ask_lem (code priority) i 4 (flag b) rest w h refl in (v, simp e, d)

  pub get_total_read_lem :
      (i n : ℕ) (rest : Bytes) (w : W)
      → n < 2 ^ 64
      → st.inbox w ≡ bytes_of 8 n ++ rest
      → Got n w (encode (about total_read i)) rest (get_total_read sys me fd i w)
  unfolding get_total_read
  get_total_read_lem i n rest w b h =
      let (v, e, d) = ask_lem (code total_read) i 8 (bytes_of 8 n) rest w h refl in
      (v, rw e (ap (λ m. some (m, v)) (number_of-bytes_of 8 n (omega arith))), d)

  pub get_total_write_lem :
      (i n : ℕ) (rest : Bytes) (w : W)
      → n < 2 ^ 64
      → st.inbox w ≡ bytes_of 8 n ++ rest
      → Got n w (encode (about total_write i)) rest (get_total_write sys me fd i w)
  unfolding get_total_write
  get_total_write_lem i n rest w b h =
      let (v, e, d) = ask_lem (code total_write) i 8 (bytes_of 8 n) rest w h refl in
      (v, rw e (ap (λ m. some (m, v)) (number_of-bytes_of 8 n (omega arith))), d)

  pub get_max_replica_lem :
      (n : ℕ) (rest : Bytes) (w : W)
      → n < 2 ^ 32
      → st.inbox w ≡ bytes_of 4 n ++ rest
      → Got n w (encode how_many) rest (get_max_replica sys me fd w)
  unfolding get_max_replica
  get_max_replica_lem n rest w b h =
      let (w1, p, d) = put_lem (Wire.get_max_replica ∷ []) 1 w refl in
      let (w2, g, i, o) = get_lem (bytes_of 4 n) rest 4 w1 (d.0 ∙ h) refl in
      (w2, rw (p, g) (ap (λ m. some (m, w2)) (number_of-bytes_of 4 n (omega arith))), (i, o ∙ d.1))

  pub get_path_lem :
      (i n : ℕ) (p rest : Bytes) (w : W)
      → n < 2 ^ 64
      → n ≡ length p
      → st.inbox w ≡ bytes_of 8 n ++ (p ++ rest)
      → Got p w (encode (about path i)) rest (get_path sys me fd i w)
  unfolding get_path
  get_path_lem i n p rest w b l h =
      let (w1, e, d) = ask_lem (code path) i 8 (bytes_of 8 n) (p ++ rest) w h refl in
      let back : number_of (bytes_of 8 n) ≡ n = number_of-bytes_of 8 n (omega arith) in
      let m = st.allocates me w1 (n * 2) in
      let w2 = (sys me (malloc (n * 2)) w1).1 in
      let (w3, g, i3, o3) = get_lem p rest n w2 (m.0 ∙ d.0) (sym l) in
      (
        w3,
        rw e (ap (λ m. get sys me fd m (sys me (malloc (m * 2)) w1).1) back ∙ g),
        (i3, o3 ∙ m.1 ∙ d.1),
      )
