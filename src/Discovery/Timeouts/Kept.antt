-- ===== src/Discovery/Timeouts/Kept.antt =====
-- Rounds of the loop, and what they keep.
use zmf.Prelude.{
  ℕ, ltb, ◌≡◌, sym, Bytes, Option, none, some, List, [], ◌∷◌, arith, Bool-cases, inl, inr,
  if◌then◌else◌,
}
use zmf.Prelude.Map.{values}
use zmf.Data.UniqueId.Order.{id_key}
use zmf.Data.Handle.{ModuleHandle, ModuleState}
use zmf.Discovery.State.{StateBroadcast, Discovery, PeerStateChange}
use zmf.Discovery.Service.{on_peer_dead, send_state_multicast}
use zmf.Discovery.Timeouts.{age_peers, drop_peers, update_peer_timeouts, loop_round}
use zmf.Discovery.Kept.{
  IsKept, same-IsKept, then-IsKept, on_peer_dead-IsKept, send_state_multicast-IsKept,
}
use zmf.Discovery.Receive.Kept.{process_incoming_multicast-IsKept}

module _ {C : Type 0} (notify : PeerStateChange C) where
  -- A round up to the socket.
  abbrev pub tended : ℕ → Discovery C → Discovery C
  tended time_diff d =
      if ltb d.multicast_frequency time_diff
      then update_peer_timeouts notify (send_state_multicast d)
      else d

module _ {C : Type 0} (notify : PeerStateChange C) (P : C → Type 0)
    (told : (h : ModuleHandle) (new_state last_state : ModuleState) (c : C)
      → P c
      → P (notify h new_state last_state c)) where
  drop_peers-IsKept :
      (hs : List ModuleHandle) (d : Discovery C) → IsKept P d (drop_peers notify hs d)
  unfolding drop_peers
  drop_peers-IsKept [] d = same-IsKept notify P told d
  drop_peers-IsKept (h ∷ hs) d =
      then-IsKept notify P told d (on_peer_dead notify h d)
        (drop_peers notify hs (on_peer_dead notify h d)) (on_peer_dead-IsKept notify P told h d)
        (drop_peers-IsKept hs (on_peer_dead notify h d))

  update_peer_timeouts-IsKept : (d : Discovery C) → IsKept P d (update_peer_timeouts notify d)
  unfolding update_peer_timeouts
  update_peer_timeouts-IsKept d =
      let r =
        age_peers d.multicast_frequency d.peer_timeout (values d.registry.all_peers) d.timeouts in
      let k = drop_peers-IsKept r.0 (record d { timeouts = r.1 }) in
      record { core = k.core; ordered = k.ordered; same = k.same }

  pub tended-IsKept : (time_diff : ℕ) (d : Discovery C) → IsKept P d (tended notify time_diff d)
  tended-IsKept time_diff d = elim (Bool-cases (ltb d.multicast_frequency time_diff)) [
    | inr e ↦ rw e (same-IsKept notify P told d)
    | inl e ↦ rw e (
        then-IsKept notify P told d (send_state_multicast d)
          (update_peer_timeouts notify (send_state_multicast d))
          (send_state_multicast-IsKept notify P told d)
          (update_peer_timeouts-IsKept (send_state_multicast d)))
  ]

  -- A round of the loop that comes to its end.
  pub loop_round-IsKept :
      (time_diff : ℕ) (input : Option (StateBroadcast × Bytes)) (d d' : Discovery C)
      → loop_round notify time_diff input d ≡ some d'
      → IsKept P d d'
  unfolding loop_round
  loop_round-IsKept time_diff none d d' e =
      let p : tended notify time_diff d ≡ d' = ground arith in
      rw (sym p) (tended-IsKept time_diff d)
  loop_round-IsKept time_diff (some (b, ip)) d d' e =
      then-IsKept notify P told d (tended notify time_diff d) d' (tended-IsKept time_diff d)
        (process_incoming_multicast-IsKept notify P told b ip (tended notify time_diff d) d' e)
