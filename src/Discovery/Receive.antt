-- ===== src/Discovery/Receive.antt =====
-- `processIncomingMulticast`: what a broadcast of a peer does.
pub mod Soundness
pub mod Effects
pub mod Refresh
pub mod Process
pub mod Kept
use zmf.Prelude.{
  ℕ, ◌+◌, ◌*◌, ◌%◌, ◌^◌, Bool, true, false, Bytes, codes, Option, none, some, List, [], ◌∷◌, ◌++◌,
  ◌==◌, ◌&&◌, ◌||◌, not, ltb, if◌then◌else◌,
}
use zmf.Prelude.Decimal.{to_string}
use zmf.Prelude.Map.{values}
use zmf.Data.UniqueId.{ModuleUniqueId, eq}
use zmf.Data.Handle.{ModuleHandle, ModuleState, dead, inactive, active, other, state_eq}
use zmf.Registry.{
  PeerRegistry, add_module, remove_module, update_peer_state, update_peer_additional_state,
}
use zmf.Registry
use zmf.Registry.Queries.{get_peer_with_id, get_peer_state}
use zmf.Data.UniqueId.Order.{id_key}
use zmf.Discovery.State.{
  StateBroadcast, Discovery, PeerStateChange, is_stopping, state_of_number, number_of_state,
  peer_timeout_factor, port_value, update, sender_id, additional_state_of, new_handle, is_loopback,
}
use zmf.Discovery.Service.{on_peer_new, on_peer_dead}

module _ {C : Type 0} where
  -- A peer that is not registered; `none` is the failed assertion.
  pub peer_appeared :
      PeerStateChange C → StateBroadcast → Bytes → Discovery C → Option (Discovery C)
  peer_appeared notify b ip d =
      if is_loopback ip
      then none
      else some (
          on_peer_new notify (new_handle b ip d.next_ref) (state_of_number b.lifecycle_state)
            (additional_state_of b)
            (record d { timeouts = update d.timeouts d.next_ref 0; next_ref = d.next_ref + 1 }))

  -- The last part of the branch below: the state, where it has changed.
  pub peer_state_seen :
      PeerStateChange C → ModuleHandle → ModuleState → Discovery C → Option (Discovery C)
  peer_state_seen notify peer new_state d =
      let old_state = get_peer_state peer d.registry in
      if state_eq old_state new_state
      then some d
      else elim (update_peer_state peer.unique_id new_state d.registry) [
        | none ↦ none
        | some registry ↦
            some (record d { registry = registry; core = notify peer new_state old_state d.core })
      ]

  -- A registered peer that is not dead.
  pub peer_refreshed :
      PeerStateChange C → ModuleHandle → StateBroadcast → Discovery C → Option (Discovery C)
  unfolding peer_state_seen
  peer_refreshed notify peer b d =
      peer_state_seen notify peer (state_of_number b.lifecycle_state) (record d {
        timeouts = update d.timeouts peer.ref 0;
        registry = update_peer_additional_state peer.unique_id (additional_state_of b) d.registry;
      })

  -- The two branches on the state that a broadcast carries, for a peer that was looked up.
  pub dead_message : PeerStateChange C → Option ModuleHandle → Discovery C → Option (Discovery C)
  dead_message notify none d = some d
  dead_message notify (some peer) d = some (on_peer_dead notify peer d)

  pub live_message :
      PeerStateChange C
      → Option ModuleHandle
      → StateBroadcast
      → Bytes
      → Discovery C
      → Option (Discovery C)
  unfolding peer_appeared peer_refreshed
  live_message notify none b ip d = peer_appeared notify b ip d
  live_message notify (some peer) b ip d = peer_refreshed notify peer b d

  -- The broadcasts that are dropped: those of a stopping service, its own, and those of modules of
  -- its own type where these are not to be connected.
  unfoldable pub is_ignored : StateBroadcast → Discovery C → Bool
  is_ignored b d =
      is_stopping d
      || (b.multicast_identifier == d.multicast_identifier
          && eq (sender_id b) d.self_handle.unique_id)
      || (d.disable_equal_module_interconnect
          && (sender_id b).type_id == d.self_handle.unique_id.type_id)

  -- processIncomingMulticast; `none` is a failed assertion or a null pointer followed.
  unfoldable pub process_incoming_multicast :
      PeerStateChange C → StateBroadcast → Bytes → Discovery C → Option (Discovery C)
  unfolding dead_message live_message
  process_incoming_multicast notify b ip d =
      let (peer, registry) = get_peer_with_id (sender_id b) false d.registry in
      if is_ignored b d
      then some d
      else if state_eq (state_of_number b.lifecycle_state) dead
      then dead_message notify peer (record d { registry = registry })
      else live_message notify peer b ip (record d { registry = registry })
