-- ===== src/Prelude/Decimal.antt =====
-- `std::to_string` of an unsigned number.
pub mod Parse
use Prim.Native.Nat.{ℕ, zero, suc, ◌+◌, ◌/◌, ◌%◌, ◌<◌}
use mathlib.Core.Path.{◌≡◌, refl}
use mathlib.Core.List.{[], ◌∷◌}
use mathlib.Core.Logic.{dite}
use mathlib.Core.WellFounded.{Acc}
use native.Mathlib.Decide.{dec_lt}
use native.Mathlib.Omega.{arith}
use zmf.Prelude.Lists.{Bytes, codes}

pub below-Acc : (k n : ℕ) → n < k → Acc ◌<◌ n
below-Acc zero n h = absurd (omega arith)
below-Acc (suc k) n h = Acc.intro n λ m lt. below-Acc k m (omega arith)

pub tenth_lt : (n : ℕ) → 9 < n → n / 10 < n
tenth_lt n h = omega arith

-- The digits of `n`, put before `out`.
pub print_digits : (n : ℕ) → Acc ◌<◌ n → Bytes → Bytes
print_digits n (Acc.intro _ smaller) out =
    dite (dec_lt 9 n)
      (λ h. print_digits (n / 10) (smaller (n / 10) (tenth_lt n h)) ((b'0' + n % 10) ∷ out))
      (λ _. (b'0' + n) ∷ out)

unfoldable pub to_string : ℕ → Bytes
unfolding print_digits below-Acc dec_lt
to_string n = print_digits n (below-Acc (suc n) n (omega arith)) []

to_string_ten : to_string 4070 ≡ codes "4070"
unfolding to_string
to_string_ten = refl
