-- ===== src/Data/UniqueId.antt =====
-- include/zmf/ModuleUniqueId.hpp: the type id (`uint16_t`) and the instance id (`uint64_t`) of a
-- module, their order and their text.
pub mod Order
use zmf.Prelude.{ℕ, Bool, true, false, Bytes, codes, ◌++◌, ◌&&◌, ◌||◌, not, ltb, ◌==◌}
use zmf.Prelude.Decimal.{to_string}

pub record ModuleUniqueId : Type 0 where
  pub type_id : ℕ
  pub instance_id : ℕ

-- operator<
unfoldable pub lt : ModuleUniqueId → ModuleUniqueId → Bool
lt a b = ltb a.type_id b.type_id || (a.type_id == b.type_id && ltb a.instance_id b.instance_id)

-- operator>
unfoldable pub gt : ModuleUniqueId → ModuleUniqueId → Bool
gt a b = ltb b.type_id a.type_id || (a.type_id == b.type_id && ltb b.instance_id a.instance_id)

-- operator==
unfoldable pub eq : ModuleUniqueId → ModuleUniqueId → Bool
eq a b = a.type_id == b.type_id && a.instance_id == b.instance_id

-- operator!=
unfoldable pub ne : ModuleUniqueId → ModuleUniqueId → Bool
ne a b = not (a.type_id == b.type_id) || not (a.instance_id == b.instance_id)

-- getString
unfoldable pub get_string : ModuleUniqueId → Bytes
get_string a = to_string a.type_id ++ (codes ":" ++ to_string a.instance_id)
