-- ===== src/Registry/Faults.antt =====
-- Where a state update follows a null pointer, and what removal leaves behind in the maps of
-- states.
use zmf.Prelude.{
  ◌≡◌, refl, ◌≢◌, ◌↔◌, none, some, arith, Option-cases, Bool-cases, inl, inr, if◌then◌else◌,
}
use zmf.Prelude.Map.{same_refl, lookup, contains}
use zmf.Data.UniqueId.{ModuleUniqueId}
use zmf.Data.UniqueId.Order.{id_key}
use zmf.Data.Handle.{ModuleHandle, ModuleState, active, state_eq, state_eq_iff}
use zmf.Registry.{PeerRegistry, remove_module, update_peer_state}
use zmf.Registry.Consistent.{IsConsistent, lookup-remove, remove_module-IsConsistent}
use zmf.Registry.View.{Entry, view}
use zmf.Registry.Queries.{get_peer_state}

-- What makes a state update follow a null pointer.
abbrev pub IsStaleActivation : ModuleUniqueId → ModuleState → PeerRegistry → Type 0
IsStaleActivation id s r =
    (stale : ModuleState) × (lookup id r.peer_states ≡ some stale)
    × (stale ≢ active)
    × (lookup id r.all_peers ≡ none)
    × (s ≡ active)

module _ (id : ModuleUniqueId) (s : ModuleState) (r : PeerRegistry) (v : IsConsistent r) where
  fault-stale : update_peer_state id s r ≡ none → IsStaleActivation id s r
  unfolding update_peer_state contains
  fault-stale e = elim (Option-cases (lookup id r.peer_states)) [
    | inl unknown ↦ absurd (ground (arith, unknown))
    | inr (stale, was) ↦ (stale, was, ground (arith, was), ground (arith, was), ground (arith, was))
  ]

  stale-fault : IsStaleActivation id s r → update_peer_state id s r ≡ none
  unfolding update_peer_state contains
  stale-fault f =
      let (stale, was, ne, gone, target) = f in ground (arith, was, ne, gone, target, v.actives id)

-- A state update of a consistent registry faults in one situation only, and always there: the peer
-- is to become active, it is not registered, and an earlier registration left a state for it that
-- is not Active.
pub update_peer_state-fault :
    (id : ModuleUniqueId) (s : ModuleState) (r : PeerRegistry)
    → IsConsistent r
    → (update_peer_state id s r ≡ none) ↔ IsStaleActivation id s r
update_peer_state-fault id s r v = (fault-stale id s r v, stale-fault id s r v)

states-remove_module :
    (id : ModuleUniqueId) (r : PeerRegistry) → (remove_module id r).peer_states ≡ r.peer_states
unfolding remove_module
states-remove_module id r = ground arith

peers-remove_module :
    (id : ModuleUniqueId) (r : PeerRegistry) → lookup id (remove_module id r).all_peers ≡ none
unfolding remove_module contains
peers-remove_module id r =
    ground (arith, lookup-remove id id r.all_peers r.all_peers_by_type, same_refl id)

state_of_left :
    (h : ModuleHandle) (id : ModuleUniqueId) (r : PeerRegistry) {s : ModuleState}
    → h.unique_id ≡ id
    → lookup id r.peer_states ≡ some s
    → get_peer_state h r ≡ s
unfolding get_peer_state
state_of_left h id r p e = ground arith

activate_stale :
    (id : ModuleUniqueId) (s : ModuleState) (r : PeerRegistry)
    → lookup id r.peer_states ≡ some s
    → lookup id r.all_peers ≡ none
    → IsConsistent r
    → update_peer_state id active r ≡ (if state_eq s active then some r else none)
unfolding update_peer_state contains
activate_stale id s r kept gone v = elim (Bool-cases (state_eq s active)) [
  | inl same ↦ ground arith
  | inr other ↦ rw other (
      (update_peer_state-fault id active r v).1
        (s, kept, (λ p. ground (arith, state_eq_iff s active)), gone, refl))
]

-- A removed peer is in the directory no more, and yet `getPeerState` still gives the state that it
-- had, and an update of that state to Active follows a null pointer unless the peer was active.
pub remove_module_stale :
    (id : ModuleUniqueId) (h : ModuleHandle) (e : Entry) (r : PeerRegistry)
    → IsConsistent r
    → h.unique_id ≡ id
    → view r id ≡ some e
    → (view (remove_module id r) id ≡ none)
      × (get_peer_state h (remove_module id r) ≡ e.state)
      × (update_peer_state id active (remove_module id r)
          ≡ (if state_eq e.state active then some (remove_module id r) else none))
remove_module_stale id h e r v p q =
    let was : lookup id r.peer_states ≡ some e.state = ground (arith, q) in
    let kept : lookup id (remove_module id r).peer_states ≡ some e.state =
      rw (states-remove_module id r) was in
    let gone = peers-remove_module id r in
    (
      rw gone,
      state_of_left h id (remove_module id r) p kept,
      activate_stale id e.state (remove_module id r) kept gone (remove_module-IsConsistent id r v),
    )
