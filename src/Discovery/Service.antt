-- ===== src/Discovery/Service.antt =====
-- Starting and stopping the service, the broadcast of its own state, and what it does when a peer
-- is new or dead.
pub mod Broadcasts
use zmf.Prelude.{ℕ, ◌*◌, ◌%◌, ◌^◌, Bool, true, false, Bytes, some, ◌∷◌, not, if◌then◌else◌}
use zmf.Data.Handle.{ModuleHandle, ModuleState, dead}
use zmf.Registry.{add_module, remove_module}
use zmf.Registry.Queries.{get_peer_state}
use zmf.Data.UniqueId.Order.{id_key}
use zmf.Discovery.State.{
  StateBroadcast, Discovery, PeerStateChange, is_stopping, number_of_state, peer_timeout_factor,
  port_value,
}

module _ {C : Type 0} where
  -- start: `network_up` is false where the set-up of the socket throws.
  unfoldable pub start : C → ModuleHandle → ℕ → Bool → ℕ → Bool → Discovery C → Bool × Discovery C
  start core self_handle frequency disable_equal random network_up d =
      if d.is_started
      then (false, d)
      else if network_up
      then (
        true,
        record prepared { stop_requested = false; thread_initialized = true; is_started = true },
      )
      else (false, prepared)
    where
      prepared : Discovery C
      prepared = record d {
        core = core;
        multicast_frequency = frequency;
        peer_timeout = (frequency * peer_timeout_factor) % 2 ^ 32;
        self_handle = self_handle;
        disable_equal_module_interconnect = disable_equal;
        multicast_identifier = random;
      }

  -- stop; the thread is joined before the socket is closed.
  unfoldable pub stop : Discovery C → Discovery C
  stop d = if not d.is_started then d else record d { stop_requested = true; is_started = false }

  -- updateSelfState
  unfoldable pub update_self_state : ModuleState → Discovery C → Discovery C
  update_self_state state d = record d { self_state = state }

  -- updateSelfAdditionalState
  unfoldable pub update_self_additional_state : Bytes → Discovery C → Discovery C
  update_self_additional_state additional_state d = record d {
    self_additional_state = additional_state;
  }

  -- The message that sendStateMulticast builds.
  own_broadcast : Discovery C → StateBroadcast
  own_broadcast d = record {
    zmq_pub_port = port_value d.self_handle.self_zmq_pub_port;
    zmq_rep_port = port_value d.self_handle.self_zmq_rep_port;
    sender_type_id = d.self_handle.unique_id.type_id;
    sender_instance_id = d.self_handle.unique_id.instance_id;
    sender_name = d.self_handle.name;
    version = d.self_handle.version;
    lifecycle_state = number_of_state d.self_state;
    additional_state_infos = some d.self_additional_state;
    multicast_identifier = d.multicast_identifier;
  }

  -- sendStateMulticast; an exception of the socket is caught and logged.
  unfoldable pub send_state_multicast : Discovery C → Discovery C
  unfolding own_broadcast
  send_state_multicast d = if is_stopping d then d else record d { sent = own_broadcast d ∷ d.sent }

  -- onPeerNew
  unfoldable pub on_peer_new :
      PeerStateChange C → ModuleHandle → ModuleState → Bytes → Discovery C → Discovery C
  on_peer_new notify peer state additional_state d = if is_stopping d then d else record d {
    registry = add_module peer state additional_state d.registry;
    core = notify peer state dead d.core;
  }

  -- onPeerDead
  unfoldable pub on_peer_dead : PeerStateChange C → ModuleHandle → Discovery C → Discovery C
  on_peer_dead notify peer d = if is_stopping d then d else record d {
    registry = remove_module peer.unique_id d.registry;
    core = notify peer dead (get_peer_state peer d.registry) d.core;
  }
