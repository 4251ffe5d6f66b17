-- ===== src/Discovery/Timeouts.antt =====
-- `updatePeerTimeouts`, and the rounds of `multicastLoop`.
pub mod Ages
pub mod Drops
pub mod Peers
pub mod Round
pub mod Kept
pub mod Examples
use zmf.Prelude.{ℕ, ◌+◌, ◌%◌, ◌^◌, Bytes, Option, none, some, List, [], ◌∷◌, ltb, if◌then◌else◌}
use zmf.Prelude.Map.{values}
use zmf.Data.Handle.{ModuleHandle}
use zmf.Data.UniqueId.Order.{id_key}
use zmf.Discovery.State.{StateBroadcast, Discovery, PeerStateChange, update}
use zmf.Discovery.Service.{on_peer_dead, send_state_multicast}
use zmf.Discovery.Receive.{process_incoming_multicast}

-- The first loop of updatePeerTimeouts: each timeout grows, and the peers over the limit are
-- collected in the order of their ids.
pub age_peers : ℕ → ℕ → List ModuleHandle → (ℕ → ℕ) → List ModuleHandle × (ℕ → ℕ)
age_peers frequency limit [] timeouts = ([], timeouts)
age_peers frequency limit (peer ∷ peers) timeouts =
    let aged = update timeouts peer.ref ((timeouts peer.ref + frequency) % 2 ^ 32) in
    let (timed_out, timeouts') = age_peers frequency limit peers aged in
    (if ltb limit (aged peer.ref) then peer ∷ timed_out else timed_out, timeouts')

module _ {C : Type 0} where
  -- The second loop of updatePeerTimeouts.
  pub drop_peers : PeerStateChange C → List ModuleHandle → Discovery C → Discovery C
  drop_peers notify [] d = d
  drop_peers notify (peer ∷ peers) d = drop_peers notify peers (on_peer_dead notify peer d)

  -- updatePeerTimeouts
  unfoldable pub update_peer_timeouts : PeerStateChange C → Discovery C → Discovery C
  unfolding age_peers drop_peers
  update_peer_timeouts notify d =
      let (timed_out, timeouts) =
        age_peers d.multicast_frequency d.peer_timeout (values d.registry.all_peers) d.timeouts in
      drop_peers notify timed_out (record d { timeouts = timeouts })

  -- One round of multicastLoop: what has passed since the last broadcast, and what
  -- receiveMulticasts took from the socket, if anything.
  unfoldable pub loop_round :
      PeerStateChange C → ℕ → Option (StateBroadcast × Bytes) → Discovery C → Option (Discovery C)
  loop_round notify time_diff input d =
      let d' =
        if ltb d.multicast_frequency time_diff
        then update_peer_timeouts notify (send_state_multicast d)
        else d in
      receive input d'
    where
      receive : Option (StateBroadcast × Bytes) → Discovery C → Option (Discovery C)
      receive none e = some e
      receive (some (b, ip)) e = process_incoming_multicast notify b ip e
