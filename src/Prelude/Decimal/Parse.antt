-- ===== src/Prelude/Decimal/Parse.antt =====
-- `std::stoi`, and that it reads what `std::to_string` writes.
use Prim.Native.Nat.{ℕ, zero, suc, ◌+◌, ◌-◌, ◌*◌, ◌/◌, ◌%◌, ◌^◌, ◌<◌}
use mathlib.Core.Path.{◌≡◌, refl, ap, ◌∙◌}
use mathlib.Core.Bool.{Bool, true, false, ◌&&◌, ◌||◌}
use mathlib.Core.Option.{Option, none, some}
use mathlib.Core.List.{[], ◌∷◌, ◌++◌}
use mathlib.Core.WellFounded.{Acc}
use mathlib.Core.Logic.{dite}
use native.Mathlib.Decide.{dec_lt}
use native.Mathlib.Omega.{arith}
use zmf.Prelude.Tests.{ltb, leb, ◌==◌, if◌then◌else◌, lt→ltb}
use zmf.Prelude.Lists.{Bytes, All}
use zmf.Prelude.Int.{ℤ, pos, negsuc}
use zmf.Prelude.Decimal.{print_digits, to_string, tenth_lt, below-Acc}

abbrev pub is_digit : ℕ → Bool
is_digit c = leb b'0' c && leb c b'9'

-- The characters of `isspace`.
abbrev is_space : ℕ → Bool
is_space c = c == 32 || (leb 9 c && leb c 13)

-- The digits in front, after those that make `acc`.
pub read_digits : ℕ → Bytes → ℕ
read_digits acc [] = acc
read_digits acc (c ∷ s) =
    let rest = read_digits (acc * 10 + (c - b'0')) s in if is_digit c then rest else acc

magnitude : Bytes → Option ℕ
unfolding read_digits
magnitude [] = none
magnitude (c ∷ s) = if is_digit c then some (read_digits 0 (c ∷ s)) else none

-- Out of the range of `int`, `stoi` throws.
abbrev positive : Option ℕ → Option ℤ
positive none = none
positive (some n) = if ltb n (2 ^ 31) then some (pos n) else none

abbrev negative : Option ℕ → Option ℤ
negative none = none
negative (some zero) = some (pos 0)
negative (some (suc n)) = if ltb n (2 ^ 31) then some (negsuc n) else none

skip_spaces : Bytes → Bytes
skip_spaces [] = []
skip_spaces (c ∷ s) = let rest = skip_spaces s in if is_space c then rest else c ∷ s

read_signed : Bytes → Option ℤ
unfolding magnitude
read_signed [] = none
read_signed (c ∷ s) =
    if c == b'-'
    then negative (magnitude s)
    else if c == b'+'
    then positive (magnitude s)
    else positive (magnitude (c ∷ s))

-- `std::stoi`; `none` is an exception.
unfoldable pub stoi : Bytes → Option ℤ
unfolding skip_spaces read_signed
stoi s = read_signed (skip_spaces s)

-- The text does not begin with a digit.
abbrev pub Ends : Bytes → Type 0
Ends [] = Unit
Ends (c ∷ s) = is_digit c ≡ false

read_digits-digit :
    (a d : ℕ) (out : Bytes)
    → d < 10
    → read_digits a ((b'0' + d) ∷ out) ≡ read_digits (a * 10 + d) out
unfolding read_digits
read_digits-digit a d out h =
    let value : (b'0' + d) - b'0' ≡ d = omega arith in ground (arith, value)

read_digits-print :
    (n : ℕ) (a : Acc ◌<◌ n) (out : Bytes) → read_digits 0 (print_digits n a out) ≡ read_digits n out
unfolding print_digits
read_digits-print n (Acc.intro _ smaller) out =
    elim (dec_lt 9 n)
      as (λ d.
        read_digits 0 (
          dite d
            (λ h. print_digits (n / 10) (smaller (n / 10) (tenth_lt n h)) ((b'0' + n % 10) ∷ out))
            (λ _. (b'0' + n) ∷ out))
        ≡ read_digits n out) [
          | yes h ↦
              read_digits-print (n / 10) (smaller (n / 10) (tenth_lt n h)) ((b'0' + n % 10) ∷ out)
              ∙ read_digits-digit (n / 10) (n % 10) out (omega arith)
              ∙ ap (λ k. read_digits k out) (omega arith)
          | no h ↦
              read_digits-digit 0 n out (omega arith) ∙ ap (λ k. read_digits k out) (omega arith)
        ]

-- The text is not empty, and begins with a digit.
abbrev StartsWithDigit : Bytes → Type 0
StartsWithDigit [] = ⊥
StartsWithDigit (c ∷ s) = is_digit c ≡ true

print_digits-start : (n : ℕ) (a : Acc ◌<◌ n) (out : Bytes) → StartsWithDigit (print_digits n a out)
unfolding print_digits
print_digits-start n (Acc.intro _ smaller) out =
    elim (dec_lt 9 n)
      as (λ d. StartsWithDigit (
        dite d
          (λ h. print_digits (n / 10) (smaller (n / 10) (tenth_lt n h)) ((b'0' + n % 10) ∷ out))
          (λ _. (b'0' + n) ∷ out))) [
            | yes h ↦
                print_digits-start (n / 10) (smaller (n / 10) (tenth_lt n h))
                  ((b'0' + n % 10) ∷ out)
            | no h ↦ ground arith
          ]

-- Text behind the digits is not part of them.
print_digits-append :
    (n : ℕ) (a : Acc ◌<◌ n) (out rest : Bytes)
    → print_digits n a out ++ rest ≡ print_digits n a (out ++ rest)
unfolding print_digits
print_digits-append n (Acc.intro _ smaller) out rest =
    elim (dec_lt 9 n)
      as (λ d.
        dite d
            (λ h. print_digits (n / 10) (smaller (n / 10) (tenth_lt n h)) ((b'0' + n % 10) ∷ out))
            (λ _. (b'0' + n) ∷ out)
          ++ rest
        ≡ dite d
            (λ h.
              print_digits (n / 10) (smaller (n / 10) (tenth_lt n h))
                ((b'0' + n % 10) ∷ (out ++ rest)))
            (λ _. (b'0' + n) ∷ (out ++ rest))) [
              | yes h ↦
                  print_digits-append (n / 10) (smaller (n / 10) (tenth_lt n h))
                    ((b'0' + n % 10) ∷ out) rest
              | no h ↦ refl
            ]

read_digits-Ends : (n : ℕ) (rest : Bytes) → Ends rest → read_digits n rest ≡ n
unfolding read_digits
read_digits-Ends n [] h = refl
read_digits-Ends n (c ∷ s) h = ground arith

read_number : (s : Bytes) → StartsWithDigit s → stoi s ≡ positive (some (read_digits 0 s))
unfolding stoi skip_spaces read_signed magnitude
read_number [] h = elim h [ ]
read_number (c ∷ s) h = ground arith

-- `stoi` reads what `to_string` writes, whatever text without a digit in front follows it.
pub stoi-to_string :
    (n : ℕ) (rest : Bytes) → n < 2 ^ 31 → Ends rest → stoi (to_string n ++ rest) ≡ some (pos n)
unfolding to_string
stoi-to_string n rest h ends =
    let a = below-Acc (suc n) n (omega arith) in
    rw (print_digits-append n a [] rest) (
      read_number (print_digits n a rest) (print_digits-start n a rest)
      ∙ ap (λ k. positive (some k)) (read_digits-print n a rest ∙ read_digits-Ends n rest ends)
      ∙ ground (arith, lt→ltb n (2 ^ 31) h))

print_digits-digits :
    (n : ℕ) (a : Acc ◌<◌ n) (out : Bytes)
    → All (λ c. is_digit c ≡ true) out
    → All (λ c. is_digit c ≡ true) (print_digits n a out)
unfolding print_digits
print_digits-digits n (Acc.intro _ smaller) out h =
    elim (dec_lt 9 n)
      as (λ d.
        All (λ c. is_digit c ≡ true)
          (dite d
            (λ h. print_digits (n / 10) (smaller (n / 10) (tenth_lt n h)) ((b'0' + n % 10) ∷ out))
            (λ _. (b'0' + n) ∷ out))) [
              | yes big ↦
                  print_digits-digits (n / 10) (smaller (n / 10) (tenth_lt n big))
                    ((b'0' + n % 10) ∷ out) (ground arith, h)
              | no small ↦ (ground arith, h)
            ]

pub to_string-digits : (n : ℕ) → All (λ c. is_digit c ≡ true) (to_string n)
unfolding to_string
to_string-digits n = print_digits-digits n (below-Acc (suc n) n (omega arith)) [] tt

pub stoi_of_to_string : (n : ℕ) → n < 2 ^ 31 → stoi (to_string n) ≡ some (pos n)
unfolding to_string
stoi_of_to_string n h =
    let a = below-Acc (suc n) n (omega arith) in
    read_number (print_digits n a []) (print_digits-start n a [])
    ∙ ap (λ k. positive (some k)) (read_digits-print n a [] ∙ read_digits-Ends n [] tt)
    ∙ ground (arith, lt→ltb n (2 ^ 31) h)
