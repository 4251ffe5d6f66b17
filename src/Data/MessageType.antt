-- ===== src/Data/MessageType.antt =====
-- include/zmf/MessageType.hpp: the match of a message, a string of fewer than 32 bytes, grown byte
-- by byte and compared as a prefix.
pub mod Append
pub mod Topics
use zmf.Prelude.{
  ℕ, ◌+◌, ◌-◌, ◌/◌, ◌%◌, ◌^◌, Bool, true, false, Bytes, codes, Option, none, some, [], ◌∷◌, ◌++◌,
  ◌&&◌, leb, ltb, ◌==◌, if◌then◌else◌, length, take, replicate,
}
use zmf.Prelude.Decimal.{to_string as decimal}

pub record MessageType : Type 0 where
  pub match : Bytes

abbrev pub message_id_bytes : ℕ
message_id_bytes = 32

-- How a member function that may throw leaves the object.
pub data Outcome {ℓ} (A : Type ℓ) : Type ℓ where
  done : A → Outcome A
  thrown : A → Outcome A

infixl 5 ◌>>=◌
abbrev pub ◌>>=◌ {ℓ} : {A : Type ℓ} → Outcome A → (A → Outcome A) → Outcome A
done a >>= f = f a
thrown a >>= f = thrown a

-- checkSize
unfoldable pub check_size : MessageType → Outcome MessageType
check_size m = if leb message_id_bytes (length m.match) then thrown m else done m

-- MessageType(bytes): no object where the size check throws.
unfoldable pub of_bytes : Bytes → Option MessageType
unfolding check_size
of_bytes bytes = elim (check_size (record { match = bytes })) [ done m ↦ some m | thrown m ↦ none ]

-- trimToLength: `std::string::resize`.
unfoldable pub trim_to_length : MessageType → ℕ → MessageType
trim_to_length m n = record m { match = take n m.match ++ replicate (n - length m.match) 0 }

-- appendMatch8
unfoldable pub append_match8 : MessageType → ℕ → Outcome MessageType
unfolding check_size
append_match8 m byte = check_size (record m { match = m.match ++ byte ∷ [] })

-- appendMatch16
unfoldable pub append_match16 : MessageType → ℕ → Outcome MessageType
append_match16 m x = do m' ← append_match8 m (x / 2 ^ 8 % 2 ^ 8); append_match8 m' (x % 2 ^ 8)

-- appendMatch32
unfoldable pub append_match32 : MessageType → ℕ → Outcome MessageType
append_match32 m x = do m' ← append_match16 m (x / 2 ^ 16 % 2 ^ 16); append_match16 m' (x % 2 ^ 16)

-- appendMatch64
unfoldable pub append_match64 : MessageType → ℕ → Outcome MessageType
append_match64 m x = do m' ← append_match32 m (x / 2 ^ 32 % 2 ^ 32); append_match32 m' (x % 2 ^ 32)

-- The loop of overridePrefixWith: byte after byte of the other match is copied over this one.
overwrite : Bytes → Bytes → Bytes
overwrite [] bytes = bytes
overwrite (x ∷ xs) [] = []
overwrite (x ∷ xs) (y ∷ ys) = x ∷ overwrite xs ys

-- overridePrefixWith: `throw 1` comes before any write.
unfoldable pub override_prefix_with : MessageType → MessageType → Outcome MessageType
unfolding overwrite
override_prefix_with m other =
    if ltb (length m.match) (length other.match)
    then thrown m
    else done (record m { match = overwrite other.match m.match })

-- `std::equal` over the length of the first string.
equal_prefix : Bytes → Bytes → Bool
equal_prefix [] ys = true
equal_prefix (x ∷ xs) [] = false
equal_prefix (x ∷ xs) (y ∷ ys) = x == y && equal_prefix xs ys

-- containsTopic
unfoldable pub contains_topic : MessageType → MessageType → Bool
unfolding equal_prefix
contains_topic a b = leb (length a.match) (length b.match) && equal_prefix a.match b.match

-- The loop of toString.
dotted : Bytes → Bytes
dotted [] = []
dotted (b ∷ bs) = decimal b ++ (codes "." ++ dotted bs)

-- `std::string::pop_back`, which is undefined on the empty string.
pop_back : Bytes → Option Bytes
pop_back [] = none
pop_back (b ∷ []) = some []
pop_back (b ∷ (c ∷ bs)) = elim (pop_back (c ∷ bs)) [ none ↦ none | some r ↦ some (b ∷ r) ]

-- toString; `none` is undefined behaviour.
unfoldable pub to_string : MessageType → Option Bytes
unfolding dotted pop_back
to_string m = elim (pop_back (dotted m.match)) [
  | none ↦ none
  | some r ↦ some (r ++ (codes "|" ++ decimal (length m.match)))
]
