-- ===== src/Module.antt =====
-- src/AbstractModule.cpp and include/zmf/AbstractModule.hpp: whether a module is enabled, and the
-- two calls by which its instance enables and disables it. `enable` and `disable` are the module's
-- own functions; they act on a state `W` and come as arguments. Log lines are not modelled.
pub mod Lifecycle
use zmf.Prelude.{ℕ, Bool, true, false, Bytes, Option, none, some, List, codes, ◌++◌, if◌then◌else◌}
use zmf.Prelude.Decimal.{to_string}
use zmf.Data.UniqueId.{ModuleUniqueId}

-- AbstractModule::ModuleState
pub data Activity : Type 0 where
  disabled enabling enabled disabling : Activity

pub record ModuleDependency : Type 0 where
  pub module_type_id : ℕ
  pub module_version : ℕ

-- What a module is constructed with.
pub record ModuleInfo : Type 0 where
  pub unique_id : ModuleUniqueId
  pub version : ℕ
  pub name : Bytes
  pub dependencies : List ModuleDependency

-- isEnabled
abbrev pub is_enabled : Activity → Bool
is_enabled enabled = true
is_enabled _ = false

abbrev pub is_disabled : Activity → Bool
is_disabled disabled = true
is_disabled _ = false

-- getZmf: the instance that the module was enabled with. `none` is the exception of a disabled
-- module; while it is being enabled or disabled, a module has access.
get_zmf : {Z : Type 0} → Activity → Z → Option Z
get_zmf a zmf = if is_disabled a then none else some zmf

-- getNameInstanceString
unfoldable pub get_name_instance_string : ModuleInfo → Bytes
get_name_instance_string m = m.name ++ (codes ":" ++ to_string m.unique_id.instance_id)

-- getNameTypeInstanceString
unfoldable pub get_name_type_instance_string : ModuleInfo → Bytes
get_name_type_instance_string m =
    m.name
    ++ (codes "("
        ++ (to_string m.unique_id.type_id ++ (codes "):" ++ to_string m.unique_id.instance_id)))

-- getNameTypeInstanceVersionString
unfoldable pub get_name_type_instance_version_string : ModuleInfo → Bytes
get_name_type_instance_version_string m =
    get_name_instance_string m ++ (codes "_v" ++ to_string m.version)

module _ {W : Type 0} where
  -- INTERNAL_internalEnable: the `compare_exchange_strong` takes DISABLED to ENABLING; any other
  -- state is left, and the answer is true.
  unfoldable pub internal_enable : (W → Bool × W) → Activity → W → Bool × Activity × W
  internal_enable enable a w =
      if is_disabled a
      then (let (success, w') = enable w in (success, (if success then enabled else disabled), w'))
      else (true, a, w)

  -- INTERNAL_internalDisable: only from ENABLED.
  unfoldable pub internal_disable : (W → W) → Activity → W → Activity × W
  internal_disable disable a w = if is_enabled a then (disabled, disable w) else (a, w)

  -- The destructor.
  unfoldable pub destroy : (W → W) → Activity → W → Activity × W
  unfolding internal_disable
  destroy disable a w = if is_enabled a then internal_disable disable a w else (a, w)
