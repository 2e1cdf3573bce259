-- ===== src/Hash.antt =====
-- src/hash.c, and `hash_fd` of src/fs.c.
pub mod Bounds
use Prim.Native.Nat.{bit_and, bit_xor}
use chironfs.Base.{ℕ, ◌+◌, ◌-◌, ◌*◌, ◌/◌, ◌%◌, ◌^◌, if◌then◌else◌, ltb}

abbrev pub u32 : ℕ → ℕ
u32 n = n % 2 ^ 32

abbrev pub u64 : ℕ → ℕ
u64 n = n % 2 ^ 64

-- `hash`: Robert Jenkins' 32 bit integer hash function. Each line is one of its assignments to `a`.
unfoldable pub hash : ℕ → ℕ
hash a0 =
    let a1 = u32 (a0 + 0x7ed55d16 + u32 (a0 * 2 ^ 12)) in
    let a2 = bit_xor (bit_xor a1 0xc761c23c) (a1 / 2 ^ 19) in
    let a3 = u32 (a2 + 0x165667b1 + u32 (a2 * 2 ^ 5)) in
    let a4 = bit_xor (u32 (a3 + 0xd3a2646c)) (u32 (a3 * 2 ^ 9)) in
    let a5 = u32 (a4 + 0xfd7046c5 + u32 (a4 * 2 ^ 3)) in
    bit_xor (bit_xor a5 0xb55a4f09) (a5 / 2 ^ 16)

-- `hash64shift`: the 64 bit mix function, likewise. `~key` is 2^64 - 1 - key.
unfoldable pub hash64shift : ℕ → ℕ
hash64shift k0 =
    let k1 = u64 (2 ^ 64 - 1 - k0 + u64 (k0 * 2 ^ 21)) in
    let k2 = bit_xor k1 (k1 / 2 ^ 24) in
    let k3 = u64 (k2 + u64 (k2 * 2 ^ 3) + u64 (k2 * 2 ^ 8)) in
    let k4 = bit_xor k3 (k3 / 2 ^ 14) in
    let k5 = u64 (k4 + u64 (k4 * 2 ^ 2) + u64 (k4 * 2 ^ 4)) in
    let k6 = bit_xor k5 (k5 / 2 ^ 28) in u64 (k6 + u64 (k6 * 2 ^ 31))

-- `hash_fd`. The mask is computed in 64 bits, and the result is an `unsigned`.
unfoldable pub hash_fd : ℕ → ℕ → ℕ
hash_fd fd_buf_size fd_main =
    let mask = u64 (fd_buf_size + 2 ^ 64 - 1) in
    if ltb (2 ^ 32 - 1) fd_buf_size
    then u32 (bit_and (hash64shift fd_main) mask)
    else u32 (bit_and (hash fd_main) mask)
