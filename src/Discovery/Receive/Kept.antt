-- ===== src/Discovery/Receive/Kept.antt =====
-- Hearing a broadcast, and what it keeps.
use zmf.Prelude.{
  ◌+◌, ◌≡◌, refl, sym, subst, false, Bytes, Option, none, some, arith, Bool-cases, Option-cases,
  inl, inr,
}
use zmf.Data.UniqueId.{ModuleUniqueId}
use zmf.Data.UniqueId.Order.{id_key}
use zmf.Data.Handle.{ModuleHandle, ModuleState, dead, state_eq}
use zmf.Registry.{PeerRegistry, update_peer_state, update_peer_additional_state}
use zmf.Registry.Ordered.{
  update_peer_state-HasOrderedPeers, update_peer_additional_state-HasOrderedPeers,
}
use zmf.Registry.Queries.{get_peer_with_id}
use zmf.Discovery.State.{
  StateBroadcast, Discovery, PeerStateChange, state_of_number, additional_state_of, update,
  sender_id, new_handle,
}
use zmf.Registry.Queries.{get_peer_state}
use zmf.Discovery.Service.{on_peer_new, on_peer_dead}
use zmf.Discovery.Receive.{
  is_ignored, dead_message, live_message, peer_appeared, peer_refreshed, peer_state_seen,
  process_incoming_multicast,
}
use zmf.Discovery.Kept.{IsKept, same-IsKept, on_peer_new-IsKept, on_peer_dead-IsKept}

registry-get_peer_with_id :
    (id : ModuleUniqueId) (r : PeerRegistry) → (get_peer_with_id id false r).1 ≡ r
unfolding get_peer_with_id
registry-get_peer_with_id id r = ground arith

module _ {C : Type 0} (notify : PeerStateChange C) (P : C → Type 0)
    (told : (h : ModuleHandle) (new_state last_state : ModuleState) (c : C)
      → P c
      → P (notify h new_state last_state c)) where
  peer_state_seen-IsKept :
      (h : ModuleHandle) (s : ModuleState) (d d' : Discovery C)
      → peer_state_seen notify h s d ≡ some d'
      → IsKept P d d'
  unfolding peer_state_seen
  peer_state_seen-IsKept h s d d' e = elim (Bool-cases (state_eq (get_peer_state h d.registry) s)) [
    | inl q ↦ let p : d ≡ d' = ground arith in rw (sym p) (same-IsKept notify P told d)
    | inr q ↦ elim (Option-cases (update_peer_state h.unique_id s d.registry)) [
      | inl f ↦ absurd (ground arith)
      | inr (r, f) ↦
          let p : record d { registry = r; core = notify h s (get_peer_state h d.registry) d.core }
              ≡ d' =
            ground arith in
          rw (sym p) (record {
            core = told h s (get_peer_state h d.registry) d.core;
            ordered = update_peer_state-HasOrderedPeers h.unique_id s d.registry r f;
            same = (refl, refl, refl, refl, refl);
          })
    ]
  ]

  peer_refreshed-IsKept :
      (h : ModuleHandle) (b : StateBroadcast) (d d' : Discovery C)
      → peer_refreshed notify h b d ≡ some d'
      → IsKept P d d'
  unfolding peer_refreshed
  peer_refreshed-IsKept h b d d' e =
      let r = update_peer_additional_state h.unique_id (additional_state_of b) d.registry in
      let k =
        peer_state_seen-IsKept h (state_of_number b.lifecycle_state)
          (record d { timeouts = update d.timeouts h.ref 0; registry = r }) d' e in
      record {
        core = k.core;
        ordered = λ s. k.ordered (
            update_peer_additional_state-HasOrderedPeers h.unique_id (additional_state_of b)
              d.registry s);
        same = k.same;
      }

  peer_appeared-IsKept :
      (b : StateBroadcast) (ip : Bytes) (d d' : Discovery C)
      → peer_appeared notify b ip d ≡ some d'
      → IsKept P d d'
  unfolding peer_appeared
  peer_appeared-IsKept b ip d d' e =
      let d1 : Discovery C = record d {
        timeouts = update d.timeouts d.next_ref 0;
        next_ref = d.next_ref + 1;
      } in
      let h = new_handle b ip d.next_ref in
      let s = state_of_number b.lifecycle_state in
      let k = on_peer_new-IsKept notify P told h s (additional_state_of b) d1 in
      let p : on_peer_new notify h s (additional_state_of b) d1 ≡ d' = ground arith in
      rw (sym p) (record { core = k.core; ordered = k.ordered; same = k.same })

  dead_message-IsKept :
      (h : Option ModuleHandle) (d d' : Discovery C)
      → dead_message notify h d ≡ some d'
      → IsKept P d d'
  unfolding dead_message
  dead_message-IsKept none d d' e =
      let p : d ≡ d' = ground arith in rw (sym p) (same-IsKept notify P told d)
  dead_message-IsKept (some h) d d' e =
      let p : on_peer_dead notify h d ≡ d' = ground arith in
      rw (sym p) (on_peer_dead-IsKept notify P told h d)

  live_message-IsKept :
      (h : Option ModuleHandle) (b : StateBroadcast) (ip : Bytes) (d d' : Discovery C)
      → live_message notify h b ip d ≡ some d'
      → IsKept P d d'
  unfolding live_message
  live_message-IsKept none b ip d d' e = peer_appeared-IsKept b ip d d' e
  live_message-IsKept (some h) b ip d d' e = peer_refreshed-IsKept h b d d' e

  pub process_incoming_multicast-IsKept :
      (b : StateBroadcast) (ip : Bytes) (d d' : Discovery C)
      → process_incoming_multicast notify b ip d ≡ some d'
      → IsKept P d d'
  unfolding process_incoming_multicast
  process_incoming_multicast-IsKept b ip d d' e =
      let h = (get_peer_with_id (sender_id b) false d.registry).0 in
      let looked_up : Discovery C = record d {
        registry = (get_peer_with_id (sender_id b) false d.registry).1;
      } in
      let back =
        subst (λ r. IsKept P (record d { registry = r }) d')
          (registry-get_peer_with_id (sender_id b) d.registry) in
      elim (Bool-cases (is_ignored b d)) [
        | inl g ↦ let p : d ≡ d' = ground arith in rw (sym p) (same-IsKept notify P told d)
        | inr g ↦ elim (Bool-cases (state_eq (state_of_number b.lifecycle_state) dead)) [
          | inl gone ↦ back (dead_message-IsKept h looked_up d' (ground arith))
          | inr live ↦ back (live_message-IsKept h b ip looked_up d' (ground arith))
        ]
      ]
