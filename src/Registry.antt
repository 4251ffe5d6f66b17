-- ===== src/Registry.antt =====
-- include/zmf/PeerRegistry.hpp (the state) and src/discovery/PeerRegistryInternal.cpp (the
-- operations that change it). Each operation holds `peerRegistryLock` from its first line to its
-- last, so it is one step. Log lines are not modelled.
pub mod Queries
pub mod Index
pub mod Consistent
pub mod Updates
pub mod View
pub mod Faults
pub mod Ordered
pub mod Examples
use zmf.Prelude.{
  ℕ, Bool, true, false, Bytes, Option, none, some, List, [], ◌∷◌, ◌++◌, ◌==◌, if◌then◌else◌, length,
}
use zmf.Prelude.Map.{Map, same, lookup, contains, put, insert, erase, subscript}
use zmf.Data.UniqueId.{ModuleUniqueId, eq}
use zmf.Data.UniqueId.Order.{id_key, number_key}
use zmf.Data.Handle.{ModuleHandle, ModuleState, active, state_eq}

abbrev pub Peers : Type 0
Peers = Map ModuleUniqueId ModuleHandle

abbrev pub PeersByType : Type 0
PeersByType = Map ℕ (List ModuleHandle)

pub record PeerRegistry : Type 0 where
  pub all_peers : Peers
  pub all_peers_by_type : PeersByType
  pub all_active_peers : Peers
  pub all_active_peers_by_type : PeersByType
  pub peer_states : Map ModuleUniqueId ModuleState
  pub peer_additional_states : Map ModuleUniqueId Bytes

unfoldable pub init : PeerRegistry
init = record {
  all_peers = [];
  all_peers_by_type = [];
  all_active_peers = [];
  all_active_peers_by_type = [];
  peer_states = [];
  peer_additional_states = [];
}

-- The second half of addModuleInternal: into the list of its type, or into a new list.
add_by_type : ModuleHandle → PeersByType → PeersByType
add_by_type h by_type = elim (lookup h.unique_id.type_id by_type) [
  | none ↦ insert h.unique_id.type_id (h ∷ []) by_type
  | some type_list ↦ put h.unique_id.type_id (type_list ++ h ∷ []) by_type
]

-- addModuleInternal, on one of the two pairs of maps.
unfoldable pub add_module_internal : ModuleHandle → Peers → PeersByType → Peers × PeersByType
unfolding add_by_type
add_module_internal h peers by_type = (insert h.unique_id h peers, add_by_type h by_type)

-- The loop of removeModuleInternal: the first entry with the id goes.
unfoldable pub remove_first : ModuleUniqueId → List ModuleHandle → List ModuleHandle
remove_first id [] = []
remove_first id (h ∷ hs) = if eq h.unique_id id then hs else h ∷ remove_first id hs

-- The second half of removeModuleInternal, from the list that `peersByTypeMap[type]` gives.
unfoldable pub remove_by_type : ModuleUniqueId → PeersByType → PeersByType
unfolding remove_first
remove_by_type id by_type =
    let (type_list, by_type') = subscript [] id.type_id by_type in
    if length type_list == 1
    then erase id.type_id by_type'
    else put id.type_id (remove_first id type_list) by_type'

-- removeModuleInternal, on one of the two pairs of maps.
unfoldable pub remove_module_internal : ModuleUniqueId → Peers → PeersByType → Peers × PeersByType
remove_module_internal id peers by_type =
    if contains id peers then (erase id peers, remove_by_type id by_type) else (peers, by_type)

abbrev pub set_all : PeerRegistry → Peers × PeersByType → PeerRegistry
set_all r (peers, by_type) = record r { all_peers = peers; all_peers_by_type = by_type }

abbrev pub set_active : PeerRegistry → Peers × PeersByType → PeerRegistry
set_active r (peers, by_type) = record r {
  all_active_peers = peers;
  all_active_peers_by_type = by_type;
}

abbrev pub add_active : ModuleHandle → PeerRegistry → PeerRegistry
add_active h r = set_active r (add_module_internal h r.all_active_peers r.all_active_peers_by_type)

abbrev pub remove_active : ModuleUniqueId → PeerRegistry → PeerRegistry
remove_active id r =
    set_active r (remove_module_internal id r.all_active_peers r.all_active_peers_by_type)

-- The part of addModule before the test on the state.
register : ModuleHandle → ModuleState → Bytes → PeerRegistry → PeerRegistry
register h state additional_state r =
    record (set_all r (add_module_internal h r.all_peers r.all_peers_by_type)) {
      peer_states = put h.unique_id state r.peer_states;
      peer_additional_states = put h.unique_id additional_state r.peer_additional_states;
    }

-- addModule
unfoldable pub add_module : ModuleHandle → ModuleState → Bytes → PeerRegistry → PeerRegistry
unfolding register
add_module h state additional_state r =
    if contains h.unique_id r.all_peers
    then r
    else if state_eq state active
    then add_active h (register h state additional_state r)
    else register h state additional_state r

-- removeModule: the two maps of states keep their entries.
unfoldable pub remove_module : ModuleUniqueId → PeerRegistry → PeerRegistry
remove_module id r =
    if contains id r.all_peers
    then remove_active id (set_all r (remove_module_internal id r.all_peers r.all_peers_by_type))
    else r

-- clearRegistry
unfoldable pub clear_registry : PeerRegistry → PeerRegistry
clear_registry r = record r {
  all_peers = [];
  all_active_peers = [];
  all_peers_by_type = [];
  all_active_peers_by_type = [];
}

-- `addModuleInternal(allPeers[module], …)`: where the id is not there, `allPeers[module]` is a null
-- pointer, which addModuleInternal follows. `none` is that fault.
activate : ModuleUniqueId → PeerRegistry → Option PeerRegistry
activate id r =
    if contains id r.all_active_peers
    then some r
    else elim (lookup id r.all_peers) [ none ↦ none | some h ↦ some (add_active h r) ]

deactivate : ModuleUniqueId → PeerRegistry → PeerRegistry
deactivate id r = if contains id r.all_active_peers then remove_active id r else r

pub set_state : ModuleUniqueId → ModuleState → PeerRegistry → PeerRegistry
set_state id state r = record r { peer_states = put id state r.peer_states }

-- INTERNAL_updatePeerState; `none` is a null pointer followed.
unfoldable pub update_peer_state : ModuleUniqueId → ModuleState → PeerRegistry → Option PeerRegistry
unfolding activate deactivate set_state
update_peer_state id new_state r = elim (lookup id r.peer_states) [
  | none ↦ some r
  | some old_state ↦
      if state_eq old_state new_state
      then some r
      else if state_eq new_state active
      then elim (activate id r) [ none ↦ none | some r' ↦ some (set_state id new_state r') ]
      else some (set_state id new_state (deactivate id r))
]

-- INTERNAL_updatePeerAdditionalState
unfoldable pub update_peer_additional_state : ModuleUniqueId → Bytes → PeerRegistry → PeerRegistry
update_peer_additional_state id additional_state r =
    if contains id r.peer_additional_states
    then record r { peer_additional_states = put id additional_state r.peer_additional_states }
    else r
