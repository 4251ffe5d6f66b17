-- ===== src/Prelude/Lists.antt =====
-- Lists measured by native numbers, under the library's names, and byte strings.
use Prim.Native.Nat.{ℕ, zero, suc, ◌+◌, min}
use Prim.Native.Char.{code}
use Prim.Native.String.{String}
use zmf.Prelude.Tests.{◌==◌}
use mathlib.Core.Logic.{◌↔◌}
use mathlib.Core.Bool.{Bool, true, false, ◌&&◌}
use mathlib.Core.Path.{◌≡◌, refl, ap}
use mathlib.Core.Option.{Option, none, some}
use mathlib.Core.List.{List, [], ◌∷◌, ◌++◌, map}
use native.Mathlib.Omega.{arith}

-- The bytes of a `std::string` or a `std::vector<uint8_t>`.
abbrev pub Bytes : Type 0
Bytes = List ℕ

-- The bytes of an ASCII literal.
abbrev pub codes : String → Bytes
codes String.[] = []
codes (String.◌∷◌ c s) = code c ∷ codes s

module _ {ℓ} {A : Type ℓ} where
  abbrev pub length : List A → ℕ
  length [] = 0
  length (x ∷ xs) = suc (length xs)

  abbrev pub take : ℕ → List A → List A
  take zero xs = []
  take (suc n) [] = []
  take (suc n) (x ∷ xs) = x ∷ take n xs

  abbrev pub drop : ℕ → List A → List A
  drop zero xs = xs
  drop (suc n) [] = []
  drop (suc n) (x ∷ xs) = drop n xs

  abbrev pub replicate : ℕ → A → List A
  replicate zero a = []
  replicate (suc n) a = a ∷ replicate n a

  pub length-append : (xs ys : List A) → length (xs ++ ys) ≡ length xs + length ys
  length-append [] ys = omega arith
  length-append (x ∷ xs) ys = omega (arith, length-append xs ys)

  pub length-take : (n : ℕ) (xs : List A) → length (take n xs) ≡ min n (length xs)
  length-take zero xs = omega arith
  length-take (suc n) [] = omega arith
  length-take (suc n) (x ∷ xs) = omega (arith, length-take n xs)

  pub length-replicate : (n : ℕ) (a : A) → length (replicate n a) ≡ n
  length-replicate zero a = refl
  length-replicate (suc n) a = omega (arith, length-replicate n a)

  pub drop-length_append : (xs ys : List A) → drop (length xs) (xs ++ ys) ≡ ys
  drop-length_append [] ys = refl
  drop-length_append (x ∷ xs) ys = drop-length_append xs ys

  pub take-length_append : (xs ys : List A) → take (length xs) (xs ++ ys) ≡ xs
  take-length_append [] ys = refl
  take-length_append (x ∷ xs) ys = ap (◌∷◌ x) (take-length_append xs ys)

  -- The first element, or `none`.
  abbrev pub head? : List A → Option A
  head? [] = none
  head? (x ∷ xs) = some x

  -- A predicate of every element.
  abbrev pub All {κ} : (A → Type κ) → List A → Type κ
  All P [] = Unit
  All P (x ∷ xs) = P x × All P xs

pub append_assoc {ℓ} : {A : Type ℓ} (xs ys zs : List A) → (xs ++ ys) ++ zs ≡ xs ++ (ys ++ zs)
append_assoc [] ys zs = refl
append_assoc (x ∷ xs) ys zs = ap (◌∷◌ x) (append_assoc xs ys zs)

pub append-nil {ℓ} : {A : Type ℓ} (xs : List A) → xs ++ [] ≡ xs
append-nil [] = refl
append-nil (x ∷ xs) = ap (◌∷◌ x) (append-nil xs)

pub map-append {ℓ κ} :
    {A : Type ℓ} {B : Type κ} (f : A → B) (xs ys : List A) → map f (xs ++ ys) ≡ map f xs ++ map f ys
map-append f [] ys = refl
map-append f (x ∷ xs) ys = ap (◌∷◌ (f x)) (map-append f xs ys)

-- `==` of two strings.
unfoldable pub bytes_eq : Bytes → Bytes → Bool
bytes_eq [] [] = true
bytes_eq (x ∷ xs) (y ∷ ys) = x == y && bytes_eq xs ys
bytes_eq [] (y ∷ ys) = false
bytes_eq (x ∷ xs) [] = false

pub bytes_eq_iff : (a b : Bytes) → (bytes_eq a b ≡ true) ↔ (a ≡ b)
unfolding bytes_eq
bytes_eq_iff [] [] = ground arith
bytes_eq_iff (x ∷ xs) (y ∷ ys) = ground (arith, bytes_eq_iff xs ys)
bytes_eq_iff [] (y ∷ ys) = ground arith
bytes_eq_iff (x ∷ xs) [] = ground arith
