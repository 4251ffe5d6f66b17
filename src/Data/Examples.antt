-- ===== src/Data/Examples.antt =====
-- The theorems on the data types at concrete values.
use zmf.Prelude.{
  ◌≡◌, ◌↔◌, refl, ◌∙◌, ◌+◌, ◌-◌, true, ◌++◌, [], ◌∷◌, length, take, drop, ltb, arith, if◌then◌else◌,
}
use zmf.Data.UniqueId.{ModuleUniqueId}
use zmf.Data.MessageType.{
  MessageType, done, thrown, append_match64, contains_topic, override_prefix_with,
}
use zmf.Data.MessageType.Append.{be_bytes, append_match64_lem}
use zmf.Data.MessageType.Topics.{IsPrefix, contains_topic-IsPrefix, override_prefix_with_lem}

abbrev short : MessageType
short = record { match = 3 ∷ 255 ∷ [] }

abbrev long : MessageType
long = record { match = 3 ∷ 255 ∷ 7 ∷ [] }

abbrev grown : MessageType
grown = record { match = 3 ∷ 255 ∷ 0 ∷ 0 ∷ 0 ∷ 0 ∷ 0 ∷ 0 ∷ 1 ∷ 2 ∷ [] }

append_grown : append_match64 short 258 ≡ done grown
append_grown = append_match64_lem short 258 (omega arith) ∙ unfold be_bytes in refl

append_match64_lem_example : append_match64 short 258 ≡ (
    if ltb (length short.match + 8) 32
    then done (record { match = short.match ++ be_bytes 8 258 })
    else thrown (record { match = short.match ++ take (32 - length short.match) (be_bytes 8 258) }))
append_match64_lem_example = append_match64_lem short 258 (omega arith)

contains_topic-IsPrefix_example :
    (contains_topic short long ≡ true) ↔ IsPrefix short.match long.match
contains_topic-IsPrefix_example = contains_topic-IsPrefix short long

override_prefix_with_lem_example : override_prefix_with long short ≡ (
    if ltb (length long.match) (length short.match)
    then thrown long
    else done (record { match = short.match ++ drop (length short.match) long.match }))
override_prefix_with_lem_example = override_prefix_with_lem long short

abbrev first : ModuleUniqueId
first = record { type_id = 1; instance_id = 7 }

abbrev second : ModuleUniqueId
second = record { type_id = 2; instance_id = 0 }

abbrev third : ModuleUniqueId
third = record { type_id = 2; instance_id = 5 }
