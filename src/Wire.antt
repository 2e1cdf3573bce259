-- ===== src/Wire.antt =====
-- What goes over the control socket: the actions of src/fs.h, and numbers as the machine stores them,
-- with the low byte first.
pub mod Stream
pub mod Questions
use chironfs.Base.{
  ℕ, zero, suc, ◌+◌, ◌*◌, ◌/◌, ◌%◌, ℤ, pos, negsuc, Bool, false, ◌==◌, if◌then◌else◌, List, [], ◌∷◌,
}
use chironfs.Model.{Bytes}

-- The bytes of a number of the given size, and the number of some bytes.
abbrev pub bytes_of : ℕ → ℕ → Bytes
bytes_of zero n = []
bytes_of (suc size) n = n % 256 ∷ bytes_of size (n / 256)

abbrev pub number_of : Bytes → ℕ
number_of [] = 0
number_of (b ∷ bs) = b + 256 * number_of bs

-- An int that is 0 or 1.
abbrev pub flag : Bool → Bytes
flag b = bytes_of 4 (if b then 1 else 0)

-- The actions of src/fs.h.
abbrev pub get_max_replica : ℕ
get_max_replica = 0

abbrev pub get_replica_status : ℕ
get_replica_status = 1

abbrev pub get_replica_path : ℕ
get_replica_path = 2

abbrev pub get_replica_total_read : ℕ
get_replica_total_read = 3

abbrev pub get_replica_total_write : ℕ
get_replica_total_write = 4

abbrev pub get_replica_priority : ℕ
get_replica_priority = 5

abbrev pub done : ℕ
done = 6

-- res == n
abbrev pub is_count : ℕ → ℤ → Bool
is_count n (pos m) = m == n
is_count n (negsuc m) = false
