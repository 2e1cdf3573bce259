-- ===== src/Wire/Questions.antt =====
-- The questions on the control socket and their replies, as bytes.
use mathlib.Core.Path.{subst}
use mathlib.Core.Option.{some-injective}
use native.Mathlib.Decide.{dec_le}
use chironfs.Base.{
  ℕ, zero, suc, ◌^◌, ◌<◌, leb, true, false, Option, none, some, List, [], ◌∷◌, ◌++◌, ◌≡◌, ap, arith,
  length, get_elem?,
}
use chironfs.Model.{Bytes, Replica, Config}
use chironfs.Scan.Total.{get_elem?-lt}
use chironfs.Wire.{
  bytes_of, flag, get_max_replica, get_replica_status, get_replica_path, get_replica_total_read,
  get_replica_total_write, get_replica_priority, done,
}

-- What a client can ask for of a replica.
pub data Field : Type 0 where
  status path total_read total_write priority : Field

pub data Question : Type 0 where
  how_many : Question
  about : Field → ℕ → Question
  bye : Question

abbrev pub code : Field → ℕ
code status = get_replica_status
code path = get_replica_path
code total_read = get_replica_total_read
code total_write = get_replica_total_write
code priority = get_replica_priority

-- A question on the wire: its action, and the number of a replica.
abbrev pub action : Question → ℕ
action how_many = get_max_replica
action (about f i) = code f
action bye = done

abbrev pub operand : Question → Bytes
operand (about f i) = bytes_of 4 i
operand _ = []

abbrev pub encode : Question → Bytes
encode q = action q ∷ operand q

abbrev pub text : Option Bytes → Bytes
text none = []
text (some p) = p

-- The answer of a replica on the wire.
abbrev pub answer : Field → Replica → Bytes
answer status r = flag r.disabled
answer path r = bytes_of 8 r.pathlen ++ text r.path
answer total_read r = bytes_of 8 r.totrd
answer total_write r = bytes_of 8 r.totwr
answer priority r = flag r.priority

abbrev answer_of : Field → Option Replica → Option Bytes
answer_of f none = none
answer_of f (some r) = some (answer f r)

-- The reply to a question; none where the server has nothing to say and ends the connection.
abbrev pub reply : Config → Question → Option Bytes
reply c how_many = some (bytes_of 4 c.max_replica)
reply c (about f i) = answer_of f (get_elem? c.replicas i)
reply c bye = none

pub reply_none :
    (c : Config) (f : Field) (i : ℕ) → get_elem? c.replicas i ≡ none → reply c (about f i) ≡ none
reply_none c f i h = ap (answer_of f) h

pub reply_some :
    (c : Config) (f : Field) (i : ℕ) (r : Replica)
    → get_elem? c.replicas i ≡ some r
    → reply c (about f i) ≡ some (answer f r)
reply_some c f i r h = ap (answer_of f) h

-- The number in a question fits an `unsigned int`.
abbrev pub Fits32 : Question → Type 0
Fits32 (about f i) = i < 2 ^ 32
Fits32 _ = Unit {0}

-- The path of a replica is there, with its length.
abbrev pub Named : Replica → Type 0
Named r = (p : Bytes) × (r.path ≡ some p) × (r.pathlen ≡ length p)

abbrev pub AllNamed : List Replica → Type 0
AllNamed [] = Unit {0}
AllNamed (r ∷ rs) = Named r × AllNamed rs

pub outside :
    (i : ℕ) (c : Config)
    → length c.replicas ≡ c.max_replica
    → get_elem? c.replicas i ≡ none
    → leb c.max_replica i ≡ true
outside i c l h = elim (dec_le c.max_replica i) [
  | yes p ↦ ground arith
  | no p ↦ let (r, g) = get_elem?-lt c.replicas i (omega arith) in cc
]

pub get_elem?-inside {ℓ} :
    {A : Type ℓ} (xs : List A) (i : ℕ) (x : A) → get_elem? xs i ≡ some x → i < length xs
get_elem?-inside [] i x h = cc
get_elem?-inside (y ∷ xs) zero x h = omega arith
get_elem?-inside (y ∷ xs) (suc i) x h = omega (arith, get_elem?-inside xs i x h)

pub inside :
    (i : ℕ) (c : Config) (r : Replica)
    → length c.replicas ≡ c.max_replica
    → get_elem? c.replicas i ≡ some r
    → leb c.max_replica i ≡ false
inside i c r l h = ground (arith, get_elem?-inside c.replicas i r h)

pub AllNamed-get :
    (rs : List Replica) (i : ℕ) (r : Replica) → AllNamed rs → get_elem? rs i ≡ some r → Named r
AllNamed-get [] i r a h = cc
AllNamed-get (x ∷ rs) zero r a h = subst Named (some-injective x r h) a.0
AllNamed-get (x ∷ rs) (suc i) r a h = AllNamed-get rs i r a.1 h
