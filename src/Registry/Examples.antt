-- ===== src/Registry/Examples.antt =====
-- The theorems on the registry at a registry of two peers.
use zmf.Prelude.{
  ℕ, ◌≡◌, ◌≤◌, ◌↔◌, refl, true, false, none, some, List, [], ◌∷◌, All, ◌==◌, head?, if◌then◌else◌,
}
use zmf.Prelude.Map.{lookup, contains, put, insert, same}
use zmf.Data.UniqueId.{lt}
use zmf.Data.UniqueId.Order.{id_key, number_key}
use zmf.Data.Handle.{ModuleHandle, inactive, active, state_eq}
use zmf.Registry.{
  PeerRegistry, init, add_module, register, add_module_internal, remove_module, update_peer_state,
}
use zmf.Registry.Consistent.{
  IsConsistent, init-IsConsistent, add_module-IsConsistent, remove_module-IsConsistent,
}
use zmf.Registry.Index.{find, count, HasType}
use zmf.Registry.View.{Entry, view, Operation, add, remove, run, promises, run_lem}
use zmf.Registry.Queries.{
  contains_peer_with_id, get_peer_with_id, get_peers_with_type, contains_peer_with_type,
  get_peers_with_type_version, contains_peer_with_type_version, get_any_peer_with_type_version,
  get_peer_state,
}
use zmf.Registry.Queries.Answers.{shown, is_some, peer_with_id_lem, get_peers_with_type_lem}
use zmf.Registry.Queries.Versions.{if_version, type_version_lem}
use zmf.Registry.Faults.{IsStaleActivation, update_peer_state-fault, remove_module_stale}

abbrev handle : ℕ → ℕ → ℕ → ModuleHandle
handle type instance_id ref = record {
  unique_id = record { type_id = type; instance_id = instance_id };
  version = 1;
  name = [];
  zmq_pub_addr = [];
  zmq_rep_addr = [];
  self_zmq_pub_port = none;
  self_zmq_rep_port = none;
  self = false;
  ref = ref;
}

abbrev pub router : ModuleHandle
router = handle 1 7 0

abbrev pub sensor : ModuleHandle
sensor = handle 2 0 1

abbrev pub two_peers : PeerRegistry
two_peers = add_module sensor inactive [] (add_module router active (9 ∷ []) init)

pub two_peers-IsConsistent : IsConsistent two_peers
two_peers-IsConsistent =
    add_module-IsConsistent sensor inactive [] (add_module router active (9 ∷ []) init)
      (add_module-IsConsistent router active (9 ∷ []) init init-IsConsistent)

pub two_peers-active_router : contains_peer_with_type 1 true two_peers ≡ true
two_peers-active_router =
    unfold contains_peer_with_type add_module register add_module_internal lookup contains put
      insert same lt init in
    refl

pub two_peers-none_of_type_3 :
    (contains_peer_with_id (record { type_id = 3; instance_id = 0 }) false two_peers).0 ≡ false
two_peers-none_of_type_3 =
    unfold contains_peer_with_id add_module register add_module_internal lookup contains put insert
      same lt init in
    refl

abbrev one_peer : PeerRegistry
one_peer = remove_module sensor.unique_id two_peers

abbrev history : List Operation
history = add router active (9 ∷ []) ∷ add sensor inactive [] ∷ remove sensor.unique_id ∷ []

run-history : run history init ≡ some one_peer
run-history = unfold run in refl

run_lem_example : IsConsistent one_peer × (view one_peer ≡ promises history (λ id. none))
run_lem_example = run_lem history run-history

update_peer_state-fault_example :
    (update_peer_state sensor.unique_id active one_peer ≡ none)
    ↔ IsStaleActivation sensor.unique_id active one_peer
update_peer_state-fault_example =
    update_peer_state-fault sensor.unique_id active one_peer
      (remove_module-IsConsistent sensor.unique_id two_peers two_peers-IsConsistent)

abbrev sensor_entry : Entry
sensor_entry = record { handle = sensor; state = inactive; additional_state = [] }

sensor-view : view two_peers sensor.unique_id ≡ some sensor_entry
sensor-view =
    unfold add_module register add_module_internal lookup contains put insert same lt init in refl

remove_module_stale_example :
    (view one_peer sensor.unique_id ≡ none)
    × (get_peer_state sensor one_peer ≡ inactive)
    × (update_peer_state sensor.unique_id active one_peer
        ≡ (if state_eq inactive active then some one_peer else none))
remove_module_stale_example =
    remove_module_stale sensor.unique_id sensor sensor_entry two_peers two_peers-IsConsistent refl
      sensor-view

get_peers_with_type_lem_example :
    (find sensor.unique_id (get_peers_with_type 2 false two_peers) ≡ (
      if sensor.unique_id.type_id == 2
      then shown false (view two_peers sensor.unique_id)
      else none))
    × (count sensor.unique_id (get_peers_with_type 2 false two_peers) ≤ 1)
    × All (HasType 2) (get_peers_with_type 2 false two_peers)
get_peers_with_type_lem_example =
    get_peers_with_type_lem two_peers two_peers-IsConsistent 2 false sensor.unique_id

peer_with_id_lem_example :
    (contains_peer_with_id router.unique_id true two_peers
      ≡ (is_some (shown true (view two_peers router.unique_id)), two_peers))
    × (get_peer_with_id router.unique_id true two_peers
        ≡ (shown true (view two_peers router.unique_id), two_peers))
peer_with_id_lem_example = peer_with_id_lem two_peers two_peers-IsConsistent router.unique_id true

type_version_lem_example :
    (find sensor.unique_id (get_peers_with_type_version 2 1 false two_peers) ≡ (
      if sensor.unique_id.type_id == 2
      then if_version 1 (shown false (view two_peers sensor.unique_id))
      else none))
    × (get_any_peer_with_type_version 2 1 false two_peers
        ≡ head? (get_peers_with_type_version 2 1 false two_peers))
    × (contains_peer_with_type_version 2 1 false two_peers
        ≡ is_some (get_any_peer_with_type_version 2 1 false two_peers))
type_version_lem_example =
    type_version_lem two_peers 2 1 false sensor.unique_id two_peers-IsConsistent
