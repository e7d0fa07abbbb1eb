-- ===== src/Prelude/Try.antt =====
-- `do` blocks over `Option`, for code that reads at fixed positions.
use mathlib.Core.Option.{Option, none, some}

module _ {ℓ κ} {A : Type ℓ} {B : Type κ} where
  infixl 5 ◌>>=◌
  abbrev pub ◌>>=◌ : Option A → (A → Option B) → Option B
  none >>= f = none
  some a >>= f = f a
