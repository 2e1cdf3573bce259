-- ===== src/Wire/Stream.antt =====
-- A connection as a stream of bytes in each direction, and numbers sent over it.
use chironfs.Base.{
  ℕ, zero, suc, ◌/◌, ◌^◌, ◌<◌, ℤ, pos, true, Option, some, [], ◌++◌, ◌≡◌, refl, ap, arith, length,
}
use chironfs.Model.{Bytes, Cred, Kernel, malloc, read_fd, write_fd}
use chironfs.Wire.{bytes_of, number_of, is_count}

-- The bytes of a number that fits say which number it is.
pub number_of-bytes_of : (size n : ℕ) → n < 256 ^ size → number_of (bytes_of size n) ≡ n
number_of-bytes_of zero n h = omega arith
number_of-bytes_of (suc size) n h = omega (arith, number_of-bytes_of size (n / 256) (omega arith))

pub length-bytes_of : (size n : ℕ) → length (bytes_of size n) ≡ size
length-bytes_of zero n = refl
length-bytes_of (suc size) n = ap suc (length-bytes_of size (n / 256))

-- A stream socket. A read returns what it asks for if that much waits, and all that waits if the
-- other side has closed before; a write takes all that it is given. `inbox` is what waits to be read,
-- `outbox` what has been written.
pub record Stream {W : Type 0} (sys : Kernel W) (fd : ℤ) : Type 0 where
  pub inbox : W → Bytes
  pub outbox : W → Bytes
  pub reads :
      (k : Cred) (w : W) (a rest : Bytes)
      → inbox w ≡ a ++ rest
      → let (r, v) = sys k (read_fd fd (length a)) w in
        (r.ret ≡ pos (length a)) × (r.stored ≡ a) × (inbox v ≡ rest) × (outbox v ≡ outbox w)
  pub ends :
      (k : Cred) (w : W) (n : ℕ)
      → length (inbox w) < n
      → let (r, v) = sys k (read_fd fd n) w in
        (r.ret ≡ pos (length (inbox w))) × (inbox v ≡ []) × (outbox v ≡ outbox w)
  pub writes :
      (k : Cred) (w : W) (b : Bytes)
      → let (r, v) = sys k (write_fd fd (some b) (length b)) w in
        (r.ret ≡ pos (length b)) × (inbox v ≡ inbox w) × (outbox v ≡ outbox w ++ b)
  pub keeps :
      (k : Cred) (w : W) (b : Option Bytes) (n : ℕ) → inbox (sys k (write_fd fd b n) w).1 ≡ inbox w
  pub allocates :
      (k : Cred) (w : W) (n : ℕ)
      → let v = (sys k (malloc n) w).1 in (inbox v ≡ inbox w) × (outbox v ≡ outbox w)

pub is_count_self : (n : ℕ) → is_count n (pos n) ≡ true
is_count_self n = ground arith
