-- ===== src/Tests/Wired.antt =====
-- A connection that is nothing but the bytes that wait and those that have been written.
use mathlib.Core.List.{append-nil}
use chironfs.Base.{
  ℕ, zero, suc, ◌<◌, ℤ, pos, Option, some, none, [], ◌∷◌, ◌++◌, ◌≡◌, refl, sym, ap, ◌∙◌, arith,
  length, take,
}
use chironfs.Model.{Bytes, Cred, Kernel, Reply, read_fd, write_fd}
use chironfs.Wire.Stream.{Stream}

abbrev pub Wires : Type 0
Wires = Bytes × Bytes

abbrev rest_of : ℕ → Bytes → Bytes
rest_of zero xs = xs
rest_of (suc n) [] = []
rest_of (suc n) (x ∷ xs) = rest_of n xs

abbrev said : ℕ → Bytes → Reply
said n b = record { ret = pos n; errno = 0; stored = b }

abbrev pub wired : Kernel Wires
wired k (read_fd fd n) w = (said (length (take n w.0)) (take n w.0), (rest_of n w.0, w.1))
wired k (write_fd fd (some b) n) w = (said n [], (w.0, w.1 ++ take n b))
wired k _ w = (said 3 [], w)

pub take-append : (a rest : Bytes) → take (length a) (a ++ rest) ≡ a
take-append [] rest = refl
take-append (x ∷ a) rest = ap (λ ys. x ∷ ys) (take-append a rest)

pub rest_of-append : (a rest : Bytes) → rest_of (length a) (a ++ rest) ≡ rest
rest_of-append [] rest = refl
rest_of-append (x ∷ a) rest = rest_of-append a rest

pub take-all : (n : ℕ) (a : Bytes) → length a < n → take n a ≡ a
take-all zero a h = absurd (omega arith)
take-all (suc n) [] h = refl
take-all (suc n) (x ∷ a) h = ap (λ ys. x ∷ ys) (take-all n a (omega arith))

pub rest_of-all : (n : ℕ) (a : Bytes) → length a < n → rest_of n a ≡ []
rest_of-all zero a h = absurd (omega arith)
rest_of-all (suc n) [] h = refl
rest_of-all (suc n) (x ∷ a) h = rest_of-all n a (omega arith)

pub write_keeps :
    (k : Cred) (fd : ℤ) (w : Wires) (b : Option Bytes) (n : ℕ)
    → (wired k (write_fd fd b n) w).1.0 ≡ w.0
write_keeps k fd w none n = refl
write_keeps k fd w (some b) n = refl

abbrev pub wired-Stream : (fd : ℤ) → Stream wired fd
wired-Stream fd = record {
  inbox = λ w. w.0;
  outbox = λ w. w.1;
  reads = λ k w a rest h. rw h (
    ap (λ x. pos (length x)) (take-append a rest),
    take-append a rest,
    rest_of-append a rest,
    refl,
  );
  ends = λ k w n h. (ap (λ x. pos (length x)) (take-all n w.0 h), rest_of-all n w.0 h, refl);
  writes = λ k w b. (
    refl,
    refl,
    ap (λ x. w.1 ++ x) (ap (take (length b)) (sym (append-nil b)) ∙ take-append b []),
  );
  keeps = λ k w b n. write_keeps k fd w b n;
  allocates = λ k w n. (refl, refl);
}
