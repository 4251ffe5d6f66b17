-- ===== src/Data/MessageType/Topics.antt =====
-- Which topics a topic contains, and what the other operations do to a match.
use zmf.Prelude.{
  ◌≤◌, ◌≡◌, refl, ◌↔◌, arith, Bytes, [], ◌∷◌, ◌++◌, ltb, true, if◌then◌else◌, length, drop,
  length-append, ap, inl, inr, Bool-cases,
}
use zmf.Data.MessageType.{
  MessageType, done, thrown, overwrite, override_prefix_with, equal_prefix, contains_topic,
}

-- `b` starts with `a`.
abbrev pub IsPrefix : Bytes → Bytes → Type 0
IsPrefix a b = (rest : Bytes) × (b ≡ a ++ rest)

equal_prefix-IsPrefix : (a b : Bytes) → length a ≤ length b → equal_prefix a b ≡ true → IsPrefix a b
unfolding equal_prefix
equal_prefix-IsPrefix [] b h e = (b, refl)
equal_prefix-IsPrefix (x ∷ xs) [] h e = absurd (omega arith)
equal_prefix-IsPrefix (x ∷ xs) (y ∷ ys) h e =
    let (rest, p) = equal_prefix-IsPrefix xs ys (omega arith) (ground arith) in (rest, ground arith)

equal_prefix-append : (a rest : Bytes) → equal_prefix a (a ++ rest) ≡ true
unfolding equal_prefix
equal_prefix-append [] rest = refl
equal_prefix-append (x ∷ xs) rest = ground (arith, equal_prefix-append xs rest)

-- A topic contains another exactly when the other one's match starts with its own.
pub contains_topic-IsPrefix :
    (a b : MessageType) → (contains_topic a b ≡ true) ↔ IsPrefix a.match b.match
unfolding contains_topic
contains_topic-IsPrefix a b = (
  λ h. equal_prefix-IsPrefix a.match b.match (ground arith) (ground arith),
  λ p. rw (p.1) (ground (arith, length-append a.match p.0, equal_prefix-append a.match p.0)),
)

overwrite-append :
    (xs ys : Bytes) → length xs ≤ length ys → overwrite xs ys ≡ xs ++ drop (length xs) ys
unfolding overwrite
overwrite-append [] ys h = refl
overwrite-append (x ∷ xs) [] h = absurd (omega arith)
overwrite-append (x ∷ xs) (y ∷ ys) h = ap (◌∷◌ x) (overwrite-append xs ys (omega arith))

-- `overridePrefixWith` throws, and changes nothing, exactly when the new prefix is longer than the
-- match. Otherwise the match is the new prefix followed by what stood behind a prefix of that
-- length.
pub override_prefix_with_lem :
    (m other : MessageType)
    → override_prefix_with m other ≡ (
        if ltb (length m.match) (length other.match)
        then thrown m
        else done (record { match = other.match ++ drop (length other.match) m.match }))
unfolding override_prefix_with
override_prefix_with_lem m other = elim (Bool-cases (ltb (length m.match) (length other.match))) [
  | inl e ↦ rw e
  | inr e ↦ rw (e, overwrite-append other.match m.match (ground arith))
]
