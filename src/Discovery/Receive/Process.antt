-- ===== src/Discovery/Receive/Process.antt =====
-- The whole of `processIncomingMulticast`.
use zmf.Prelude.{
  ◌≡◌, ◌≢◌, refl, true, false, Bytes, some, arith, inl, inr, Bool-cases, Option-cases,
  if◌then◌else◌,
}
use zmf.Data.Handle.{dead, state_eq, state_eq_iff}
use zmf.Registry.Queries.{get_peer_with_id}
use zmf.Registry.Queries.Answers.{peer_with_id_lem, shown}
use zmf.Discovery.State.{
  StateBroadcast, Discovery, PeerStateChange, is_stopping, sender_id, is_loopback,
}
use zmf.Discovery.Receive.{is_ignored, process_incoming_multicast}
use zmf.Discovery.Receive.Soundness.{IsSound}
use zmf.Discovery.Receive.Effects.{
  heard_state, known, Heard, left, on_peer_dead-left, left-Heard, unknown-Heard, joined,
  peer_appeared-joined, joined-Heard,
}
use zmf.Discovery.Receive.Refresh.{refreshed-Heard}

module _ {C : Type 0} (notify : PeerStateChange C) (b : StateBroadcast) (ip : Bytes)
    (d : Discovery C) (v : IsSound d) (remote : is_loopback ip ≡ false) where
  -- What the lookup of the sender gives.
  looked_up :
      get_peer_with_id (sender_id b) false d.registry
      ≡ (shown false (known notify b ip d), d.registry)
  looked_up = (peer_with_id_lem d.registry v.consistent (sender_id b) false).1

  running_of : is_ignored b d ≡ false → is_stopping d ≡ false
  unfolding is_ignored
  running_of h = ground arith

  process_dead :
      is_ignored b d ≡ false
      → heard_state b ≡ dead
      → (d' : Discovery C) × (process_incoming_multicast notify b ip d ≡ some d')
        × Heard notify b ip d d'
  unfolding process_incoming_multicast
  process_dead h gone = elim (Option-cases (known notify b ip d)) [
    | inl p ↦ (d, rw (looked_up, p, h, gone), unknown-Heard notify b ip d v p gone)
    | inr (e, p) ↦ (
      left notify b ip d v e,
      rw (looked_up, p, h, gone, on_peer_dead-left notify b ip d v e (running_of h) p),
      left-Heard notify b ip d v e p gone,
    )
  ]

  process_live :
      is_ignored b d ≡ false
      → heard_state b ≢ dead
      → (d' : Discovery C) × (process_incoming_multicast notify b ip d ≡ some d')
        × Heard notify b ip d d'
  unfolding process_incoming_multicast
  process_live h live = elim (Option-cases (known notify b ip d)) [
    | inl p ↦ (
      joined notify b ip d v,
      rw (looked_up, p, h, alive, peer_appeared-joined notify b ip d v (running_of h) remote),
      joined-Heard notify b ip d v p live,
    )
    | inr (e, p) ↦
        let (d', q, w) = refreshed-Heard notify b ip d v e p live in
        (d', rw (looked_up, p, h, alive) q, w)
  ]
    where
      alive : state_eq (heard_state b) dead ≡ false
      alive = ground (arith, live, state_eq_iff (heard_state b) dead)

  -- The service never follows a null pointer and no assertion fails, on any broadcast of another
  -- host. One that is to be dropped changes nothing. Any other gives the sender the state that it
  -- carries: a dead peer is in the directory no more, a live one is in it with that state and the
  -- additional state of the broadcast, new or with the handle that it had, and its timeout is 0; no
  -- other entry and no other timeout changes. The core is told, once, exactly when the state of the
  -- sender changes (a peer that is not registered counts as dead), with the new and the old state.
  pub process_incoming_multicast_lem :
      (d' : Discovery C) × (process_incoming_multicast notify b ip d ≡ some d')
      × (if is_ignored b d then d' ≡ d else Heard notify b ip d d')
  process_incoming_multicast_lem = elim (Bool-cases (is_ignored b d)) [
    | inl h ↦ (d, dropped h, rw h refl)
    | inr h ↦ elim (Bool-cases (state_eq (heard_state b) dead)) [
      | inl g ↦
          let (d', q, w) = process_dead h ((state_eq_iff (heard_state b) dead).0 g) in
          (d', q, rw h w)
      | inr g ↦
          let (d', q, w) =
            process_live h (λ p. ground (arith, g, p, state_eq_iff (heard_state b) dead)) in
          (d', q, rw h w)
    ]
  ]
    where
      dropped : is_ignored b d ≡ true → process_incoming_multicast notify b ip d ≡ some d
      dropped h = unfold process_incoming_multicast in rw h
