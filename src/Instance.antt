-- ===== src/Instance.antt =====
-- src/instance/ZmfInstance.cpp and include/zmf/ZmfInstance.hpp: the start of an instance with
-- options. Building the objects is not modelled: the core is an argument.
pub mod Linked
pub mod Options
pub mod Hears
mod Examples
use zmf.Prelude.{ℕ, Bool, true, false, List, [], ◌∷◌, not, if◌then◌else◌}
use zmf.Prelude.{Option}
use zmf.Prelude.Int.{ℤ}
use zmf.Dispatcher.State.{MessagingService, Dispatcher}
use zmf.Discovery.State.{Discovery}
use zmf.Core.State.{Core, Fate, returned, thrown, then_do}
use zmf.Core.Switch.{Switches, start_instance}

pub data StartOption : Type 0 where
  no_auto_enable no_exit_when_enable_failed no_peer_discovery_wait no_equal_module_interconnect :
      StartOption

abbrev pub option_eq : StartOption → StartOption → Bool
option_eq no_auto_enable no_auto_enable = true
option_eq no_exit_when_enable_failed no_exit_when_enable_failed = true
option_eq no_peer_discovery_wait no_peer_discovery_wait = true
option_eq no_equal_module_interconnect no_equal_module_interconnect = true
option_eq a b = false

-- `end() != find(…)`
unfoldable pub has_option : StartOption → List StartOption → Bool
has_option o [] = false
has_option o (p ∷ options) = let rest = has_option o options in if option_eq p o then true else rest

-- What the options are turned into; the fourth is for a wait only.
pub record StartFlags : Type 0 where
  pub module_auto_enable : Bool
  pub exit_when_enable_fail : Bool
  pub disable_equal_module_interconnect : Bool
  pub peer_discovery_wait : Bool

unfoldable pub start_flags : List StartOption → StartFlags
start_flags options = record {
  module_auto_enable = not (has_option no_auto_enable options);
  exit_when_enable_fail = not (has_option no_exit_when_enable_failed options);
  disable_equal_module_interconnect = has_option no_equal_module_interconnect options;
  peer_discovery_wait = not (has_option no_peer_discovery_wait options);
}

module _ {M U : Type 0} (svc : MessagingService M) (module_switch : Switches M U) where
  core_or_throw : Bool × Core M U → Fate (Core M U)
  core_or_throw (started, c) = if started then returned c else thrown

  -- startInstance with flags, the deprecated one: it throws where the core does not start.
  unfoldable pub start_with_flags :
      StartFlags
      → Option ℤ
      → ℕ
      → Bool
      → (Discovery (Dispatcher M U) → Discovery (Dispatcher M U))
      → Core M U
      → Fate (Core M U)
  unfolding core_or_throw
  start_with_flags flags buffer_size random network_up heard c =
      then_do
        (start_instance svc module_switch flags.module_auto_enable flags.exit_when_enable_fail
          flags.disable_equal_module_interconnect buffer_size random network_up heard c)
        core_or_throw

  -- startInstance with options
  unfoldable pub start_with_options :
      List StartOption
      → Option ℤ
      → ℕ
      → Bool
      → (Discovery (Dispatcher M U) → Discovery (Dispatcher M U))
      → Core M U
      → Fate (Core M U)
  start_with_options options = start_with_flags (start_flags options)
