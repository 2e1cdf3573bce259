-- ===== src/Tests/Choices.antt =====
-- The order of the tries and the hash of descriptors, at concrete inputs.
use mathlib.Core.List.{Perm}
use chironfs.Base.{ℕ, ◌<◌, [], ◌∷◌, some, ◌≡◌, arith}
use chironfs.Model.{Config}
use chironfs.Hash.{hash_fd}
use chironfs.Hash.Bounds.{hash_fd-lt}
use chironfs.Choose.{choices}
use chironfs.Choose.Valid.{ChoiceFits}
use chironfs.Choose.Order.{choices-order}
use chironfs.Tests.Toy.{config}

config-ChoiceFits : ChoiceFits config
config-ChoiceFits = omega arith

-- Of /a, /b and /c: first /b, then /a, then /c.
choices-order_example :
    ((c' : Config) × (choices 3 0 config ≡ some (1 ∷ 0 ∷ 2 ∷ [], c')))
    × Perm {A = ℕ} (1 ∷ 0 ∷ []) (0 ∷ 1 ∷ [])
    × Perm {A = ℕ} (2 ∷ []) (2 ∷ [])
choices-order_example = choices-order config config-ChoiceFits

hash_fd-lt_example : hash_fd 1024 7 < 1024
hash_fd-lt_example = hash_fd-lt 1024 7 (omega arith) (omega arith)
