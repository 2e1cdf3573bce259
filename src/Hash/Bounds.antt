-- ===== src/Hash/Bounds.antt =====
-- The range of the hash of a descriptor.
use Prim.Native.Nat.{min, digits, bit_and, bit_and-bitwise}
use chironfs.Base.{ℕ, zero, suc, ◌+◌, ◌-◌, ◌/◌, ◌^◌, ◌≤◌, ◌<◌, arith}
use chironfs.Hash.{u64, hash, hash64shift, hash_fd}

digits-le : (n a b : ℕ) → digits (λ c. zero) min n a b ≤ b
digits-le zero a b = omega arith
digits-le (suc n) zero b = omega arith
digits-le (suc n) (suc a) b = omega (arith, digits-le n (suc a / 2) (b / 2))

-- A masked number is at most the mask.
bit_and-le : (a b : ℕ) → bit_and a b ≤ b
bit_and-le a b = omega (arith, bit_and-bitwise a b, digits-le a a b)

-- `hash_fd` stays inside every table that is not empty and has at most 2^32 slots, whatever the
-- descriptor.
pub hash_fd-lt : (size fd : ℕ) → 0 < size → size ≤ 2 ^ 32 → hash_fd size fd < size
unfolding hash_fd
hash_fd-lt size fd h b = ground (
  arith,
  bit_and-le (hash64shift fd) (u64 (size + 2 ^ 64 - 1)),
  bit_and-le (hash fd) (u64 (size + 2 ^ 64 - 1)),
)
