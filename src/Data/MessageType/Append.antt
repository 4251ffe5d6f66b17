-- ===== src/Data/MessageType/Append.antt =====
-- The `append` functions of a message type: big-endian bytes, and what a throw leaves.
use zmf.Prelude.{
  ℕ, zero, suc, ◌+◌, ◌-◌, ◌*◌, ◌/◌, ◌%◌, ◌^◌, ◌<◌, ◌≤◌, ◌≡◌, refl, arith, Bytes, [], ◌∷◌, ◌++◌, ltb,
  if◌then◌else◌, ap, ◌∙◌, dec_lt, lt→ltb, le→ltb, drop, drop-length_append, take-length_append,
  length, take, length-append, ◌⊎◌, inl, inr,
}
use mathlib.Core.Path.{fun_ext}
use mathlib.Core.List.{append_assoc, append-nil}
use zmf.Data.MessageType.{
  MessageType, Outcome, done, thrown, ◌>>=◌, append_match8, append_match16, append_match32,
  append_match64,
}

-- The bytes appended one after another, up to the first throw.
append_bytes : MessageType → Bytes → Outcome MessageType
append_bytes m [] = done m
append_bytes m (b ∷ bs) = append_match8 m b >>= λ m'. append_bytes m' bs

outcome-cases :
    (r : Outcome MessageType)
    → ((m : MessageType) × (r ≡ done m)) ⊎ ((m : MessageType) × (r ≡ thrown m))
outcome-cases (done m) = inl (m, refl)
outcome-cases (thrown m) = inr (m, refl)

-- A number as big-endian bytes.
unfoldable pub be_bytes : ℕ → ℕ → Bytes
be_bytes zero x = []
be_bytes (suc n) x = (x / 2 ^ (8 * n) % 2 ^ 8) ∷ be_bytes n x

pub be_value : ℕ → Bytes → ℕ
be_value acc [] = acc
be_value acc (b ∷ bs) = be_value (acc * 2 ^ 8 + b) bs

append_bytes-append :
    (m : MessageType) (xs ys : Bytes)
    → append_bytes m (xs ++ ys) ≡ (append_bytes m xs >>= λ m'. append_bytes m' ys)
unfolding append_bytes
append_bytes-append m [] ys = refl
append_bytes-append m (x ∷ xs) ys = elim (outcome-cases (append_match8 m x)) [
  | inl (m', e) ↦ rw e (append_bytes-append m' xs ys)
  | inr (m', e) ↦ rw e
]

bind_done : (r : Outcome MessageType) → (r >>= λ m. done m) ≡ r
bind_done (done m) = refl
bind_done (thrown m) = refl

last_byte :
    (m : MessageType) (x : ℕ)
    → append_match8 m (x % 2 ^ 8) ≡ (append_match8 m (x / 2 ^ (8 * 0) % 2 ^ 8) >>= λ m'. done m')
last_byte m x =
    rw (bind_done (append_match8 m (x / 2 ^ (8 * 0) % 2 ^ 8))) (ap (append_match8 m) (omega arith))

append_match16-bytes :
    (m : MessageType) (x : ℕ) → append_match16 m x ≡ append_bytes m (be_bytes 2 x)
unfolding append_match16 append_bytes be_bytes
append_match16-bytes m x = elim (outcome-cases (append_match8 m (x / 2 ^ 8 % 2 ^ 8))) [
  | inl (m', e) ↦ rw e (last_byte m' x)
  | inr (m', e) ↦ rw e
]

be_bytes_four : (x : ℕ) → be_bytes 4 x ≡ be_bytes 2 (x / 2 ^ 16 % 2 ^ 16) ++ be_bytes 2 (x % 2 ^ 16)
unfolding be_bytes
be_bytes_four x = ground arith

be_bytes_eight :
    (x : ℕ) → be_bytes 8 x ≡ be_bytes 4 (x / 2 ^ 32 % 2 ^ 32) ++ be_bytes 4 (x % 2 ^ 32)
unfolding be_bytes
be_bytes_eight x = ground arith

append_match32-bytes :
    (m : MessageType) (x : ℕ) → append_match32 m x ≡ append_bytes m (be_bytes 4 x)
unfolding append_match32
append_match32-bytes m x =
    rw (be_bytes_four x, append_bytes-append m, append_match16-bytes m)
      (ap (λ k. append_bytes m (be_bytes 2 (x / 2 ^ 16 % 2 ^ 16)) >>= k)
        (fun_ext λ m'. append_match16-bytes m' (x % 2 ^ 16)))

append_match64-bytes :
    (m : MessageType) (x : ℕ) → append_match64 m x ≡ append_bytes m (be_bytes 8 x)
unfolding append_match64
append_match64-bytes m x =
    rw (be_bytes_eight x, append_bytes-append m, append_match32-bytes m)
      (ap (λ k. append_bytes m (be_bytes 4 (x / 2 ^ 32 % 2 ^ 32)) >>= k)
        (fun_ext λ m'. append_match32-bytes m' (x % 2 ^ 32)))

abbrev extended : MessageType → Bytes → MessageType
extended m bs = record { match = m.match ++ bs }

append_match8_fits :
    (m : MessageType) (b : ℕ)
    → length m.match + 1 < 32
    → append_match8 m b ≡ done (extended m (b ∷ []))
unfolding append_match8
append_match8_fits m b h = ground (arith, length-append m.match (b ∷ []))

append_match8_throws :
    (m : MessageType) (b : ℕ)
    → 31 ≤ length m.match
    → append_match8 m b ≡ thrown (extended m (b ∷ []))
unfolding append_match8
append_match8_throws m b h = ground (arith, length-append m.match (b ∷ []))

append_bytes_fits :
    (m : MessageType) (bs : Bytes)
    → length m.match + length bs < 32
    → append_bytes m bs ≡ done (extended m bs)
unfolding append_bytes
append_bytes_fits m [] h = rw append-nil
append_bytes_fits m (b ∷ bs) h = rw (append_match8_fits m b (omega arith)) (
    append_bytes_fits (extended m (b ∷ [])) bs (omega (arith, length-append m.match (b ∷ [])))
    ∙ rw append_assoc)

append_bytes_throws :
    (m : MessageType) (bs : Bytes) (room : ℕ)
    → length m.match + room ≡ 31
    → room < length bs
    → append_bytes m bs ≡ thrown (extended m (take (suc room) bs))
unfolding append_bytes
append_bytes_throws m [] room h k = absurd (omega arith)
append_bytes_throws m (b ∷ bs) zero h k = rw (append_match8_throws m b (omega arith))
append_bytes_throws m (b ∷ bs) (suc room) h k = rw (append_match8_fits m b (omega arith)) (
    append_bytes_throws (extended m (b ∷ [])) bs room
      (omega (arith, length-append m.match (b ∷ []))) (omega arith)
    ∙ rw append_assoc)

length-be_bytes : (n x : ℕ) → length (be_bytes n x) ≡ n
unfolding be_bytes
length-be_bytes zero x = refl
length-be_bytes (suc n) x = omega (arith, length-be_bytes n x)

append_match64_fits :
    (m : MessageType) (x : ℕ)
    → length m.match + 8 < 32
    → append_match64 m x ≡ done (extended m (be_bytes 8 x))
append_match64_fits m x fits = rw (
  append_match64-bytes m x,
  append_bytes_fits m (be_bytes 8 x) (omega (arith, length-be_bytes 8 x)),
)

append_match64_throws :
    (m : MessageType) (x : ℕ)
    → length m.match < 32
    → ¬ (length m.match + 8 < 32)
    → append_match64 m x ≡ thrown (extended m (take (32 - length m.match) (be_bytes 8 x)))
append_match64_throws m x h over =
    let room : suc (31 - length m.match) ≡ 32 - length m.match = omega arith in
    rw (
      append_match64-bytes m x,
      append_bytes_throws m (be_bytes 8 x) (31 - length m.match) (omega arith)
          (omega (arith, length-be_bytes 8 x)),
      room,
    )

-- On a match of fewer than 32 bytes, `appendMatch64` succeeds exactly when eight more bytes stay
-- below 32, and the match is then the old one followed by the number in big-endian order.
-- Otherwise it throws, and leaves the object with the first bytes of the number behind the old
-- match, 32 bytes in all: one more than a match may have.
pub append_match64_lem :
    (m : MessageType) (x : ℕ)
    → length m.match < 32
    → append_match64 m x ≡ (
        if ltb (length m.match + 8) 32
        then done (record { match = m.match ++ be_bytes 8 x })
        else thrown (record { match = m.match ++ take (32 - length m.match) (be_bytes 8 x) }))
append_match64_lem m x h = elim (dec_lt (length m.match + 8) 32) [
  | yes fits ↦ rw (append_match64_fits m x fits, lt→ltb (length m.match + 8) 32 fits)
  | no over ↦ rw (append_match64_throws m x h over, le→ltb (length m.match + 8) 32 (omega arith))
]

be_value-be_bytes : (x : ℕ) → x < 2 ^ 64 → be_value 0 (be_bytes 8 x) ≡ x
unfolding be_value be_bytes
be_value-be_bytes x h = omega arith

-- Where `appendMatch64` succeeds, the bytes behind the old match read back as the number that was
-- appended, for every `uint64_t`.
pub append_match64_roundtrip :
    (m m' : MessageType) (x : ℕ)
    → length m.match < 32
    → x < 2 ^ 64
    → append_match64 m x ≡ done m'
    → (be_value 0 (drop (length m.match) m'.match) ≡ x)
      × (take (length m.match) m'.match ≡ m.match)
      × (length m'.match < 32)
append_match64_roundtrip m m' x h k e = elim (dec_lt (length m.match + 8) 32) [
  | yes fits ↦
      let grown : m' ≡ extended m (be_bytes 8 x) = cc (e, append_match64_fits m x fits) in
      rw grown (
        rw (drop-length_append m.match (be_bytes 8 x)) (be_value-be_bytes x k),
        take-length_append m.match (be_bytes 8 x),
        omega (arith, length-append m.match (be_bytes 8 x), length-be_bytes 8 x),
      )
  | no over ↦ cc (e, append_match64_throws m x h over)
]
