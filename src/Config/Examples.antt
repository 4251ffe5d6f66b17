-- ===== src/Config/Examples.antt =====
-- A file with one key, whose value is neither a Boolean nor a number.
use zmf.Prelude.{ℕ, ◌≡◌, refl, subst, true, false, Bytes, none, some, codes, bytes_eq, arith}
use zmf.Prelude.Int.{pos}
use zmf.Config.{
  value, syntax_exception, PropertyFile, ConfigurationProvider, new_configuration_provider,
  get_as_string, get_as_boolean, get_as_int, get_as_double,
}
use zmf.Config.Lookups.{IsPropertyFile, lookups_lem}

abbrev name_key : Bytes
name_key = codes "ZMF_NETWORK_INTERFACE_NAME"

abbrev pub file : PropertyFile ℕ
file = record {
  has_property = λ key. bytes_eq key name_key;
  get_string = λ key. value (codes "eth0");
  get_bool = λ key. syntax_exception;
  get_int = λ key. syntax_exception;
  get_double = λ key. syntax_exception;
}

pub file-IsPropertyFile : IsPropertyFile file
file-IsPropertyFile = record {
  bools = λ key there e. ground arith;
  ints = λ key there e. ground arith;
  doubles = λ key there e. ground arith;
  strings = λ key there. (codes "eth0", refl);
}

abbrev pub provider : ConfigurationProvider ℕ
provider = record { config = some file }

loaded : new_configuration_provider (λ path. some file) (codes "zmf.config") ≡ provider
unfolding new_configuration_provider
loaded = refl

not_loaded : new_configuration_provider (λ path. some file) (codes "") ≡ record { config = none }
unfolding new_configuration_provider
not_loaded = refl

lookups_lem_example :
    (get_as_string provider name_key (codes "") ≡ some (true, codes "eth0"))
    × (get_as_boolean provider name_key true ≡ some (false, true))
    × (get_as_int provider name_key (pos 7) ≡ some (false, pos 7))
    × (get_as_double provider name_key 7 ≡ none)
unfolding bytes_eq
lookups_lem_example =
    lookups_lem provider
      (λ f e. let same : file ≡ f = ground arith in subst IsPropertyFile same file-IsPropertyFile)
      name_key (codes "") true (pos 7) 7
