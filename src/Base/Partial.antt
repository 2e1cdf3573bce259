-- ===== src/Base/Partial.antt =====
-- Code that may fault: none stands for undefined behaviour, such as a division by zero or a read
-- outside an array.
use mathlib.Core.Path.{◌≡◌, refl}
use mathlib.Core.Option.{Option, none, some}

infixl 5 ◌>>=◌
abbrev pub ◌>>=◌ {ℓ κ} : {A : Type ℓ} {B : Type κ} → Option A → (A → Option B) → Option B
none >>= f = none
some a >>= f = f a

-- The code returns, and what it returns.
abbrev pub Returns {ℓ} : {A : Type ℓ} → Option A → Type ℓ
Returns {A} o = (a : A) × (o ≡ some a)

pub returns {ℓ} : {A : Type ℓ} (a : A) → Returns (some a)
returns a = (a, refl)
