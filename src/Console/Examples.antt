-- ===== src/Console/Examples.antt =====
-- A line of the console, at a tokenizer that splits at every separator.
use zmf.Prelude.{
  ℕ, ◌≡◌, ◌==◌, refl, ap, ◌∙◌, false, true, Bytes, codes, some, List, [], ◌∷◌, ◌++◌, arith,
  if◌then◌else◌,
}
use zmf.Data.UniqueId.{ModuleUniqueId, get_string}
use zmf.Dispatcher.Incoming.{request_disable}
use zmf.Registry.Examples.{router}
use zmf.Console.{Tokenizer, InstanceController, console_turn}
use zmf.Console.Remote.{IsWithout, IsTokenizer, console_turn-remote}

abbrev in_front : ℕ → List Bytes → List Bytes
in_front x [] = (x ∷ []) ∷ []
in_front x (s ∷ parts) = (x ∷ s) ∷ parts

abbrev split : Tokenizer
split c [] = [] ∷ []
split c (x ∷ s) = let rest = split c s in if x == c then [] ∷ rest else in_front x rest

split-one : (c : ℕ) (b : Bytes) → IsWithout c b → split c b ≡ b ∷ []
split-one c [] w = refl
split-one c (x ∷ b) w = ground (arith, w.0, split-one c b w.1)

split-append : (c : ℕ) (a b : Bytes) → IsWithout c a → split c (a ++ c ∷ b) ≡ a ∷ split c b
split-append c [] b w = ground arith
split-append c (x ∷ a) b w = ground (arith, w.0, split-append c a b w.1)

split-IsTokenizer : IsTokenizer split
split-IsTokenizer c a b some_a some_b w v = split-append c a b w ∙ ap (◌∷◌ a) (split-one c b v)

-- The controller collects what it is asked for.
abbrev collector : InstanceController (List ModuleUniqueId)
collector = record {
  is_stopped = λ s. false;
  request_enable_module = λ s. s;
  request_disable_module = λ s. s;
  request_stop_instance = λ s. s;
  join_execution = λ s. s;
  request_remote_instance = λ request id s. (true, id ∷ s);
}

console_turn-remote_example :
    console_turn split collector (codes "rdis " ++ get_string router.unique_id) []
    ≡ some (false, router.unique_id ∷ [])
console_turn-remote_example =
    console_turn-remote split split-IsTokenizer collector request_disable router.unique_id []
      (omega arith) (omega arith)
