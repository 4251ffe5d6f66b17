-- ===== src/Registry/Queries.antt =====
-- include/zmf/PeerRegistry.hpp: the questions that a module may ask. `peerStates[id]` and
-- `peerAdditionalStates[id]` put an entry in where there is none, so two of the questions return a
-- registry too.
pub mod Answers
pub mod Versions
use zmf.Prelude.{
  ℕ, Bool, true, false, Bytes, Option, none, some, List, [], ◌∷◌, ◌==◌, not, if◌then◌else◌, head?,
}
use zmf.Prelude.Map.{lookup, contains, subscript}
use zmf.Data.UniqueId.{ModuleUniqueId}
use zmf.Data.UniqueId.Order.{id_key, number_key}
use zmf.Data.Handle.{ModuleHandle, ModuleState, state_eq, other, dead, active}
use zmf.Registry.{PeerRegistry, Peers, PeersByType}

-- `onlyActivePeers ? allActivePeers : allPeers`
abbrev pub peers_of : Bool → PeerRegistry → Peers
peers_of only_active r = if only_active then r.all_active_peers else r.all_peers

abbrev pub by_type_of : Bool → PeerRegistry → PeersByType
by_type_of only_active r = if only_active then r.all_active_peers_by_type else r.all_peers_by_type

-- `peerStates[id] == Active`
read_is_active : ModuleUniqueId → PeerRegistry → Bool × PeerRegistry
read_is_active id r =
    let (state, states) = subscript dead id r.peer_states in
    (state_eq state active, record r { peer_states = states })

-- containsPeerWithId; `||` does not read the state of an inactive peer.
unfoldable pub contains_peer_with_id : ModuleUniqueId → Bool → PeerRegistry → Bool × PeerRegistry
unfolding read_is_active
contains_peer_with_id id only_active r =
    if contains id (peers_of only_active r)
    then if not only_active then (true, r) else read_is_active id r
    else (false, r)

peer_if : Option ModuleHandle → Bool × PeerRegistry → Option ModuleHandle × PeerRegistry
peer_if peer (true, r) = (peer, r)
peer_if peer (false, r) = (none, r)

-- getPeerWithId
unfoldable pub get_peer_with_id :
    ModuleUniqueId → Bool → PeerRegistry → Option ModuleHandle × PeerRegistry
unfolding read_is_active peer_if
get_peer_with_id id only_active r = elim (lookup id (peers_of only_active r)) [
  | none ↦ (none, r)
  | some peer ↦
      if not only_active then (some peer, r) else peer_if (some peer) (read_is_active id r)
]

-- getPeersWithType
unfoldable pub get_peers_with_type : ℕ → Bool → PeerRegistry → List ModuleHandle
get_peers_with_type type only_active r = elim (lookup type (by_type_of only_active r)) [
  | none ↦ []
  | some peers ↦ peers
]

-- containsPeerWithType
unfoldable pub contains_peer_with_type : ℕ → Bool → PeerRegistry → Bool
contains_peer_with_type type only_active r =
    if only_active
    then contains type r.all_active_peers_by_type
    else contains type r.all_peers_by_type

-- getAnyPeerWithType: the loop returns in its first round.
unfoldable pub get_any_peer_with_type : ℕ → Bool → PeerRegistry → Option ModuleHandle
get_any_peer_with_type type only_active r = elim (lookup type (by_type_of only_active r)) [
  | none ↦ none
  | some peers ↦ head? peers
]

-- The three loops over the versions of the peers of a type.
with_version : ℕ → List ModuleHandle → List ModuleHandle
with_version version [] = []
with_version version (peer ∷ peers) =
    let rest = with_version version peers in if peer.version == version then peer ∷ rest else rest

has_version : ℕ → List ModuleHandle → Bool
has_version version [] = false
has_version version (peer ∷ peers) =
    let rest = has_version version peers in if peer.version == version then true else rest

any_version : ℕ → List ModuleHandle → Option ModuleHandle
any_version version [] = none
any_version version (peer ∷ peers) =
    let rest = any_version version peers in if peer.version == version then some peer else rest

-- getPeersWithTypeVersion
unfoldable pub get_peers_with_type_version : ℕ → ℕ → Bool → PeerRegistry → List ModuleHandle
unfolding with_version
get_peers_with_type_version type version only_active r =
    elim (lookup type (by_type_of only_active r)) [
      | none ↦ []
      | some peers ↦ with_version version peers
    ]

-- containsPeerWithTypeVersion
unfoldable pub contains_peer_with_type_version : ℕ → ℕ → Bool → PeerRegistry → Bool
unfolding has_version
contains_peer_with_type_version type version only_active r =
    elim (lookup type (by_type_of only_active r)) [
      | none ↦ false
      | some peers ↦ has_version version peers
    ]

-- getAnyPeerWithTypeVersion
unfoldable pub get_any_peer_with_type_version : ℕ → ℕ → Bool → PeerRegistry → Option ModuleHandle
unfolding any_version
get_any_peer_with_type_version type version only_active r =
    elim (lookup type (by_type_of only_active r)) [
      | none ↦ none
      | some peers ↦ any_version version peers
    ]

-- getPeerState
unfoldable pub get_peer_state : ModuleHandle → PeerRegistry → ModuleState
get_peer_state h r = elim (lookup h.unique_id r.peer_states) [ none ↦ dead | some s ↦ s ]

-- getPeerAdditionalState
unfoldable pub get_peer_additional_state : ModuleHandle → PeerRegistry → Bytes × PeerRegistry
get_peer_additional_state h r =
    if contains h.unique_id r.all_peers
    then (let (bytes, states) = subscript [] h.unique_id r.peer_additional_states in
        (bytes, record r { peer_additional_states = states }))
    else ([], r)
