-- ===== src/Mount/Joined.antt =====
-- The replica argument, and how do_mount counts its tokens.
use chironfs.Base.{
  ℕ, ◌+◌, ◌<◌, ◌^◌, ◌==◌, ◌++◌, not, ◌&&◌, Bool, true, List, [], ◌∷◌, ◌≡◌, refl, ap, ◌∙◌, arith,
  length,
}
use chironfs.Model.{Bytes}
use chironfs.Hash.{u32}
use chironfs.Mount.{count_separators}

-- The argument with these replicas: they are separated by '='.
abbrev pub joined : Bytes → List Bytes → Bytes
joined t [] = t
joined t (u ∷ us) = t ++ 61 ∷ joined u us

abbrev pub plain : Bytes → Bool
plain [] = true
plain (x ∷ xs) = not (x == 61) && plain xs

abbrev pub all_plain : List Bytes → Bool
all_plain [] = true
all_plain (t ∷ ts) = plain t && all_plain ts

count-plain :
    (t rest : Bytes) (i : ℕ)
    → plain t ≡ true
    → count_separators i (t ++ rest) ≡ count_separators i rest
unfolding count_separators
count-plain [] rest i h = refl
count-plain (x ∷ t) rest i h = ground (arith, count-plain t rest i)

count-last : (t : Bytes) (i : ℕ) → plain t ≡ true → count_separators i t ≡ i
unfolding count_separators
count-last [] i h = refl
count-last (x ∷ t) i h = ground (arith, count-last t i)

count-separator :
    (rest : Bytes) (i : ℕ) → count_separators i (61 ∷ rest) ≡ count_separators (u32 (i + 1)) rest
unfolding count_separators
count-separator rest i = refl

pub u32-small : (n : ℕ) → n < 2 ^ 32 → u32 n ≡ n
u32-small n h = omega arith

-- The first loop of do_mount counts the replicas but one.
pub count-joined :
    (t : Bytes) (ts : List Bytes) (i : ℕ)
    → plain t ≡ true
    → all_plain ts ≡ true
    → i + length ts < 2 ^ 32
    → count_separators i (joined t ts) ≡ i + length ts
count-joined t [] i p a b = count-last t i p ∙ omega arith
count-joined t (u ∷ us) i p a b =
    count-plain t (61 ∷ joined u us) i p
    ∙ count-separator (joined u us) i
    ∙ ap (λ j. count_separators j (joined u us)) (u32-small (i + 1) (omega arith))
    ∙ count-joined u us (i + 1) (ground arith) (ground arith) (omega arith)
    ∙ omega arith
