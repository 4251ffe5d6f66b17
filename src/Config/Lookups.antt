-- ===== src/Config/Lookups.antt =====
-- What the typed lookups give.
use zmf.Prelude.{
  ◌≡◌, ◌≢◌, Bool, true, false, Bytes, Option, none, some, arith, Option-cases, Bool-cases, inl, inr,
  if◌then◌else◌,
}
use zmf.Prelude.Int.{ℤ}
use zmf.Config.{
  Read, value, syntax_exception, not_found_exception, PropertyFile, ConfigurationProvider,
  get_as_string, get_as_boolean, get_as_int, get_as_double,
}

-- A getter finds every key that is there.
abbrev pub Finds : {D A : Type 0} → PropertyFile D → (Bytes → Read A) → Type 0
Finds file get = (key : Bytes) → file.has_property key ≡ true → get key ≢ not_found_exception

-- What Poco documents of its getters: a key that is there is found, and a string is read as it is.
pub record IsPropertyFile {D : Type 0} (file : PropertyFile D) : Type 0 where
  pub bools : Finds file file.get_bool
  pub ints : Finds file file.get_int
  pub doubles : Finds file file.get_double
  pub strings :
      (key : Bytes) → file.has_property key ≡ true → (s : Bytes) × (file.get_string key ≡ value s)

-- The key is there with a value of the type.
abbrev parsed : {A : Type 0} → Read A → Option A
parsed (value v) = some v
parsed syntax_exception = none
parsed not_found_exception = none

-- The value of a key, if a file is loaded that has the key with a value of the type.
abbrev pub configured :
    {D A : Type 0} → ConfigurationProvider D → (PropertyFile D → Bytes → Read A) → Bytes → Option A
configured p get key = elim p.config [
  | none ↦ none
  | some file ↦ if file.has_property key then parsed (get file key) else none
]

-- The answer of a lookup: true and the configured value, or false and the old value.
abbrev pub answer : {A : Type 0} → A → Option A → Option (Bool × A)
answer old none = some (false, old)
answer old (some v) = some (true, v)

abbrev is_syntax_exception : {A : Type 0} → Read A → Bool
is_syntax_exception (value v) = false
is_syntax_exception syntax_exception = true
is_syntax_exception not_found_exception = false

-- A file is loaded that has the key with a value that is not of the type.
abbrev pub is_malformed :
    {D A : Type 0} → ConfigurationProvider D → (PropertyFile D → Bytes → Read A) → Bytes → Bool
is_malformed p get key = elim p.config [
  | none ↦ false
  | some file ↦ if file.has_property key then is_syntax_exception (get file key) else false
]

module _ {D : Type 0} (p : ConfigurationProvider D)
    (sane : (file : PropertyFile D) → p.config ≡ some file → IsPropertyFile file) where
  pub get_as_string_lem :
      (key old : Bytes)
      → get_as_string p key old ≡ answer old (configured p (λ f. f.get_string) key)
  unfolding get_as_string
  get_as_string_lem key old = elim (Option-cases p.config) [
    | inl e ↦ ground arith
    | inr (file, e) ↦ elim (Bool-cases (file.has_property key)) [
      | inr absent ↦ ground arith
      | inl there ↦ ground (arith, (sane file e).strings key there)
    ]
  ]

  get_as_boolean_lem :
      (key : Bytes) (old : Bool)
      → get_as_boolean p key old ≡ answer old (configured p (λ f. f.get_bool) key)
  unfolding get_as_boolean
  get_as_boolean_lem key old = elim (Option-cases p.config) [
    | inl e ↦ ground arith
    | inr (file, e) ↦ elim (Bool-cases (file.has_property key)) [
      | inr absent ↦ ground arith
      | inl there ↦ ground (arith, (sane file e).bools key there)
    ]
  ]

  get_as_int_lem :
      (key : Bytes) (old : ℤ)
      → get_as_int p key old ≡ answer old (configured p (λ f. f.get_int) key)
  unfolding get_as_int
  get_as_int_lem key old = elim (Option-cases p.config) [
    | inl e ↦ ground arith
    | inr (file, e) ↦ elim (Bool-cases (file.has_property key)) [
      | inr absent ↦ ground arith
      | inl there ↦ ground (arith, (sane file e).ints key there)
    ]
  ]

  get_as_double_lem :
      (key : Bytes) (old : D)
      → get_as_double p key old ≡ (
          if is_malformed p (λ f. f.get_double) key
          then none
          else answer old (configured p (λ f. f.get_double) key))
  unfolding get_as_double
  get_as_double_lem key old = elim (Option-cases p.config) [
    | inl e ↦ ground arith
    | inr (file, e) ↦ elim (Bool-cases (file.has_property key)) [
      | inr absent ↦ ground arith
      | inl there ↦ ground (arith, (sane file e).doubles key there)
    ]
  ]

  -- A lookup of a string, a Boolean or an integer never throws: it answers true with the value if a
  -- file is loaded that has the key with a value of the type, and otherwise false, with the
  -- caller's value as it was. The lookup of a double does the same, but throws where the value of
  -- the key is not a number. The getters of Poco must find each key that is there, and read it as a
  -- string.
  pub lookups_lem :
      (key s : Bytes) (b : Bool) (i : ℤ) (d : D)
      → (get_as_string p key s ≡ answer s (configured p (λ f. f.get_string) key))
        × (get_as_boolean p key b ≡ answer b (configured p (λ f. f.get_bool) key))
        × (get_as_int p key i ≡ answer i (configured p (λ f. f.get_int) key))
        × (get_as_double p key d ≡ (
            if is_malformed p (λ f. f.get_double) key
            then none
            else answer d (configured p (λ f. f.get_double) key)))
  lookups_lem key s b i d = (
    get_as_string_lem key s,
    get_as_boolean_lem key b,
    get_as_int_lem key i,
    get_as_double_lem key d,
  )
