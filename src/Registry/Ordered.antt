-- ===== src/Registry/Ordered.antt =====
-- The map of all peers has its keys in order.
use zmf.Prelude.{◌≡◌, sym, subst, Bytes, some, arith, Bool-cases, inl, inr}
use zmf.Prelude.Map.{contains, insert}
use zmf.Prelude.Map.Ordered.{IsOrdered, put-IsOrdered, erase-IsOrdered}
use zmf.Data.UniqueId.{ModuleUniqueId}
use zmf.Data.UniqueId.Order.{id_key}
use zmf.Data.Handle.{ModuleHandle, ModuleState, state_eq, active}
use zmf.Registry.{
  Peers, PeerRegistry, init, add_module_internal, remove_module_internal, register, add_module,
  remove_module, activate, deactivate, update_peer_state, update_peer_additional_state,
}

abbrev pub HasOrderedPeers : PeerRegistry → Type 0
HasOrderedPeers r = IsOrdered r.all_peers

pub init-HasOrderedPeers : HasOrderedPeers init
unfolding init
init-HasOrderedPeers = tt

insert-IsOrdered :
    (k : ModuleUniqueId) (h : ModuleHandle) (m : Peers) → IsOrdered m → IsOrdered (insert k h m)
unfolding insert
insert-IsOrdered k h m s = elim (Bool-cases (contains k m)) [
  | inl e ↦ rw e s
  | inr e ↦ rw e (put-IsOrdered k h m s)
]

pub add_module-HasOrderedPeers :
    (h : ModuleHandle) (state : ModuleState) (a : Bytes) (r : PeerRegistry)
    → HasOrderedPeers r
    → HasOrderedPeers (add_module h state a r)
unfolding add_module register add_module_internal
add_module-HasOrderedPeers h state a r s = elim (Bool-cases (contains h.unique_id r.all_peers)) [
  | inl e ↦ rw e s
  | inr e ↦ rw e (elim (Bool-cases (state_eq state active)) [
    | inl u ↦ rw u (insert-IsOrdered h.unique_id h r.all_peers s)
    | inr u ↦ rw u (insert-IsOrdered h.unique_id h r.all_peers s)
  ])
]

pub remove_module-HasOrderedPeers :
    (id : ModuleUniqueId) (r : PeerRegistry)
    → HasOrderedPeers r
    → HasOrderedPeers (remove_module id r)
unfolding remove_module remove_module_internal
remove_module-HasOrderedPeers id r s = elim (Bool-cases (contains id r.all_peers)) [
  | inl e ↦ rw e (erase-IsOrdered id r.all_peers s)
  | inr e ↦ rw e s
]

update_peer_state-all_peers :
    (id : ModuleUniqueId) (state : ModuleState) (r r' : PeerRegistry)
    → update_peer_state id state r ≡ some r'
    → r'.all_peers ≡ r.all_peers
unfolding update_peer_state activate deactivate
update_peer_state-all_peers id state r r' e = ground arith

pub update_peer_state-HasOrderedPeers :
    (id : ModuleUniqueId) (state : ModuleState) (r r' : PeerRegistry)
    → update_peer_state id state r ≡ some r'
    → HasOrderedPeers r
    → HasOrderedPeers r'
update_peer_state-HasOrderedPeers id state r r' e s =
    subst IsOrdered (sym (update_peer_state-all_peers id state r r' e)) s

update_peer_additional_state-all_peers :
    (id : ModuleUniqueId) (a : Bytes) (r : PeerRegistry)
    → (update_peer_additional_state id a r).all_peers ≡ r.all_peers
unfolding update_peer_additional_state
update_peer_additional_state-all_peers id a r = ground arith

pub update_peer_additional_state-HasOrderedPeers :
    (id : ModuleUniqueId) (a : Bytes) (r : PeerRegistry)
    → HasOrderedPeers r
    → HasOrderedPeers (update_peer_additional_state id a r)
update_peer_additional_state-HasOrderedPeers id a r s =
    subst IsOrdered (sym (update_peer_additional_state-all_peers id a r)) s
