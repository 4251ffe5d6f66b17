-- ===== src/Core/State.antt =====
-- The members of the core, and its questions to the registry.
use zmf.Prelude.{Bool, true, false, List, [], ◌∷◌, not, if◌then◌else◌}
use zmf.Data.UniqueId.{ModuleUniqueId}
use zmf.Data.Handle.{ModuleHandle, ModuleState}
use zmf.Registry.{PeerRegistry}
use zmf.Registry.Queries.{contains_peer_with_id, contains_peer_with_type}
use zmf.Module.{ModuleInfo, ModuleDependency}
use zmf.Dispatcher.State.{Dispatcher}
use zmf.Discovery.State.{Discovery}
use zmf.Discovery.Service.{update_self_state, send_state_multicast}

-- The event dispatcher is the core that the discovery service notifies. `stopped` lists the calls
-- of `stoppedCallback_`, the newest first.
pub record Core (M U : Type 0) : Type 0 where
  pub info : ModuleInfo
  pub self_handle : ModuleHandle
  pub discovery : Discovery (Dispatcher M U)
  pub exit_when_enable_fail : Bool
  pub is_started : Bool
  pub is_stopped : Bool
  pub module_active : Bool
  pub stop_requested : Bool
  pub disable_requested : Bool
  pub enable_requested : Bool
  pub thread_initialized : Bool
  pub stopped : List ModuleUniqueId

-- How a call of a thread ends: it returns, it waits for a mutex that no one lets go, or an
-- exception leaves it.
pub data Fate {ℓ} (A : Type ℓ) : Type ℓ where
  returned : A → Fate A
  blocked : Fate A
  thrown : Fate A

unfoldable pub then_do {ℓ ℓ'} : {A : Type ℓ} {B : Type ℓ'} → Fate A → (A → Fate B) → Fate B
then_do (returned x) f = f x
then_do blocked f = blocked
then_do thrown f = thrown

-- The loop of checkDependenciesSatisfied; the version of a dependency is not read.
unfoldable pub all_satisfied : List ModuleDependency → PeerRegistry → Bool
all_satisfied [] r = true
all_satisfied (dependency ∷ rest) r =
    let others = all_satisfied rest r in
    if not (contains_peer_with_type dependency.module_type_id true r) then false else others

module _ {M U : Type 0} where
  -- checkDependenciesSatisfied
  unfoldable pub check_dependencies_satisfied : Core M U → Bool
  unfolding all_satisfied
  check_dependencies_satisfied c = all_satisfied c.info.dependencies c.discovery.registry

  -- moduleIsUnique; a question about all peers leaves the registry as it is.
  unfoldable pub module_is_unique : Core M U → Bool
  module_is_unique c = not (contains_peer_with_id c.info.unique_id false c.discovery.registry).0

  abbrev pub dispatcher : Core M U → Dispatcher M U
  dispatcher c = c.discovery.core

  abbrev pub with_dispatcher : Dispatcher M U → Core M U → Core M U
  with_dispatcher e c = record c { discovery = record c.discovery { core = e } }

  -- `updateSelfState`, and a broadcast of the state.
  unfoldable pub announce : ModuleState → Core M U → Core M U
  announce state c = record c {
    discovery = send_state_multicast (update_self_state state c.discovery);
  }
