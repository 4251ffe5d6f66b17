-- ===== src/Prelude/Optional.antt =====
-- Calls that may throw, one after another: `none` is the exception.
use mathlib.Core.Path.{◌≡◌, refl}
use mathlib.Core.Option.{Option, none, some}
use native.Mathlib.Omega.{arith}

module _ {ℓ κ} {A : Type ℓ} {B : Type κ} where
  infixl 5 ◌>>=◌
  abbrev pub ◌>>=◌ : Option A → (A → Option B) → Option B
  none >>= f = none
  some a >>= f = f a

  -- The first of two calls, where both returned.
  pub returned :
      (o : Option A) (f : A → Option B) {b : B}
      → (o >>= f) ≡ some b
      → (a : A) × (o ≡ some a) × (f a ≡ some b)
  returned none f e = absurd (ground arith)
  returned (some a) f e = (a, refl, e)
