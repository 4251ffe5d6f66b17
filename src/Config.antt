-- ===== src/Config.antt =====
-- src/config/ConfigurationProvider.cpp and .hpp: the typed lookups in a property file. The file as
-- Poco has parsed it is an argument.
pub mod Lookups
pub mod Examples
use zmf.Prelude.{Bool, true, false, Bytes, Option, none, some, [], ◌∷◌, List, if◌then◌else◌}
use zmf.Prelude.Int.{ℤ}

-- What a getter of Poco comes to: the value, or one of its exceptions.
pub data Read {ℓ} (A : Type ℓ) : Type ℓ where
  value : A → Read A
  syntax_exception : Read A
  not_found_exception : Read A

-- `Poco::Util::PropertyFileConfiguration`, loaded; `D` is `double`.
pub record PropertyFile (D : Type 0) : Type 0 where
  pub has_property : Bytes → Bool
  pub get_string : Bytes → Read Bytes
  pub get_bool : Bytes → Read Bool
  pub get_int : Bytes → Read ℤ
  pub get_double : Bytes → Read D

-- `internalConfig`, `none` where `hasConfig` is false, since it is not read then.
pub record ConfigurationProvider (D : Type 0) : Type 0 where
  pub config : Option (PropertyFile D)

-- The constructor; `load` gives `none` where it throws.
unfoldable pub new_configuration_provider :
    {D : Type 0} → (Bytes → Option (PropertyFile D)) → Bytes → ConfigurationProvider D
new_configuration_provider load [] = record { config = none }
new_configuration_provider load (c ∷ path) = record { config = load (c ∷ path) }

-- A value that was read, or the exception that is not caught.
abbrev uncaught : {A : Type 0} → Read A → Option (Bool × A)
uncaught (value v) = some (true, v)
uncaught syntax_exception = none
uncaught not_found_exception = none

-- The same in a `try` that catches a syntax exception, with the value that the caller passed.
abbrev caught : {A : Type 0} → A → Read A → Option (Bool × A)
caught old (value v) = some (true, v)
caught old syntax_exception = some (false, old)
caught old not_found_exception = none

-- The assignment in front of the `try` of getAsDouble, and the `try`.
abbrev caught_too_late : {A : Type 0} → Read A → Option (Bool × A)
caught_too_late (value v) = caught v (value v)
caught_too_late syntax_exception = none
caught_too_late not_found_exception = none

module _ {D : Type 0} (p : ConfigurationProvider D) where
  -- getAsString: what is returned and the value that the caller has afterwards; `none` is an
  -- exception.
  unfoldable pub get_as_string : Bytes → Bytes → Option (Bool × Bytes)
  get_as_string key old = elim p.config [
    | none ↦ some (false, old)
    | some file ↦
        if file.has_property key then uncaught (file.get_string key) else some (false, old)
  ]

  -- getAsBoolean
  unfoldable pub get_as_boolean : Bytes → Bool → Option (Bool × Bool)
  get_as_boolean key old = elim p.config [
    | none ↦ some (false, old)
    | some file ↦
        if file.has_property key then caught old (file.get_bool key) else some (false, old)
  ]

  -- getAsInt
  unfoldable pub get_as_int : Bytes → ℤ → Option (Bool × ℤ)
  get_as_int key old = elim p.config [
    | none ↦ some (false, old)
    | some file ↦ if file.has_property key then caught old (file.get_int key) else some (false, old)
  ]

  -- getAsDouble
  unfoldable pub get_as_double : Bytes → D → Option (Bool × D)
  get_as_double key old = elim p.config [
    | none ↦ some (false, old)
    | some file ↦
        if file.has_property key then caught_too_late (file.get_double key) else some (false, old)
  ]
