-- ===== src/Registry/Consistent.antt =====
-- The invariant of the whole registry, and that every operation keeps it.
use zmf.Prelude.{
  ◌≡◌, refl, Bytes, Option, none, some, arith, Option-cases, Bool-cases, inl, inr, if◌then◌else◌,
}
use zmf.Prelude.Map.{
  same, same_iff, lookup, contains, put, insert, lookup-put, lookup-insert, lookup-erase,
  contains_of_none, contains_of_some,
}
use zmf.Data.UniqueId.{ModuleUniqueId}
use zmf.Data.UniqueId.Order.{id_key}
use zmf.Data.Handle.{ModuleHandle, ModuleState, state_eq, other, dead, inactive, active}
use zmf.Registry.{
  Peers, PeersByType, PeerRegistry, init, add_module_internal, remove_module_internal, add_module,
  register, remove_module, clear_registry, set_all, add_active, remove_active,
}
use zmf.Registry.Index.{IsIndex, empty-IsIndex}
use zmf.Registry.Index.Add.{add_module_internal-IsIndex}
use zmf.Registry.Index.Remove.{remove_module_internal-IsIndex}

-- A registered peer whose state is Active.
abbrev pub active_view : Option ModuleHandle → Option ModuleState → Option ModuleHandle
active_view none s = none
active_view (some h) none = none
active_view (some h) (some dead) = none
active_view (some h) (some inactive) = none
active_view (some h) (some (other n)) = none
active_view (some h) (some active) = some h

-- Both pairs of maps are sound, a registered peer has a state and an additional state, and the
-- active peers are the registered ones whose state is Active.
pub record IsConsistent (r : PeerRegistry) : Type 0 where
  pub all : IsIndex r.all_peers r.all_peers_by_type
  pub act : IsIndex r.all_active_peers r.all_active_peers_by_type
  pub stated : (id : ModuleUniqueId) → lookup id r.peer_states ≡ none → lookup id r.all_peers ≡ none
  pub informed :
      (id : ModuleUniqueId)
      → lookup id r.peer_additional_states ≡ none
      → lookup id r.all_peers ≡ none
  pub actives :
      (id : ModuleUniqueId)
      → lookup id r.all_active_peers ≡ active_view (lookup id r.all_peers) (lookup id r.peer_states)

pub init-IsConsistent : IsConsistent init
unfolding init lookup
init-IsConsistent = record {
  all = empty-IsIndex;
  act = empty-IsIndex;
  stated = λ id e. refl;
  informed = λ id e. refl;
  actives = λ id. refl;
}

pub clear_registry-IsConsistent : (r : PeerRegistry) → IsConsistent (clear_registry r)
unfolding clear_registry lookup
clear_registry-IsConsistent r = record {
  all = empty-IsIndex;
  act = empty-IsIndex;
  stated = λ id e. refl;
  informed = λ id e. refl;
  actives = λ id. refl;
}

module _ (h : ModuleHandle) (s : ModuleState) (a : Bytes) (r : PeerRegistry)
    (v : IsConsistent r) where
  add_stated :
      (id : ModuleUniqueId)
      → lookup id (put h.unique_id s r.peer_states) ≡ none
      → lookup id (insert h.unique_id h r.all_peers) ≡ none
  add_stated id e = ground (
    arith,
    lookup-put h.unique_id id s r.peer_states,
    lookup-insert h.unique_id id h r.all_peers,
    v.stated id,
  )

  add_informed :
      (id : ModuleUniqueId)
      → lookup id (put h.unique_id a r.peer_additional_states) ≡ none
      → lookup id (insert h.unique_id h r.all_peers) ≡ none
  add_informed id e = ground (
    arith,
    lookup-put h.unique_id id a r.peer_additional_states,
    lookup-insert h.unique_id id h r.all_peers,
    v.informed id,
  )

  add_actives :
      (id : ModuleUniqueId)
      → lookup h.unique_id r.all_peers ≡ none
      → (if state_eq s active
          then lookup id (insert h.unique_id h r.all_active_peers)
          else lookup id r.all_active_peers)
        ≡ active_view
            (lookup id (insert h.unique_id h r.all_peers))
            (lookup id (put h.unique_id s r.peer_states))
  add_actives id fresh = ground (
    arith,
    lookup-put h.unique_id id s r.peer_states,
    lookup-insert h.unique_id id h r.all_peers,
    lookup-insert h.unique_id id h r.all_active_peers,
    same_iff h.unique_id id,
    v.actives id,
    v.actives h.unique_id,
  )

register-IsConsistent :
    (h : ModuleHandle) (s : ModuleState) (a : Bytes) (r : PeerRegistry)
    → IsConsistent r
    → lookup h.unique_id r.all_peers ≡ none
    → IsConsistent (if state_eq s active then add_active h (register h s a r) else register h s a r)
unfolding register add_module_internal
register-IsConsistent h active a r v fresh = record {
  all = add_module_internal-IsIndex h r.all_peers r.all_peers_by_type v.all fresh;
  act =
      add_module_internal-IsIndex h r.all_active_peers r.all_active_peers_by_type v.act
        (rw (v.actives h.unique_id, fresh));
  stated = add_stated h active a r v;
  informed = add_informed h active a r v;
  actives = λ id. add_actives h active a r v id fresh;
}
register-IsConsistent h s a r v fresh = record {
  all = add_module_internal-IsIndex h r.all_peers r.all_peers_by_type v.all fresh;
  act = v.act;
  stated = add_stated h s a r v;
  informed = add_informed h s a r v;
  actives = λ id. add_actives h s a r v id fresh;
}

pub add_module-IsConsistent :
    (h : ModuleHandle) (s : ModuleState) (a : Bytes) (r : PeerRegistry)
    → IsConsistent r
    → IsConsistent (add_module h s a r)
unfolding add_module
add_module-IsConsistent h s a r v = elim (Option-cases (lookup h.unique_id r.all_peers)) [
  | inr (g, e) ↦ rw (contains_of_some h.unique_id r.all_peers e) v
  | inl e ↦ rw (contains_of_none h.unique_id r.all_peers e) (register-IsConsistent h s a r v e)
]

-- What removal leaves in one map of peers.
pub lookup-remove :
    (id j : ModuleUniqueId) (peers : Peers) (by_type : PeersByType)
    → lookup j (remove_module_internal id peers by_type).0
      ≡ (if same id j then none else lookup j peers)
unfolding remove_module_internal
lookup-remove id j peers by_type = elim (Option-cases (lookup id peers)) [
  | inl e ↦ rw (contains_of_none id peers e) (ground (arith, same_iff id j))
  | inr (h, e) ↦ rw (contains_of_some id peers e) (lookup-erase id j peers)
]

removed-IsConsistent :
    (id : ModuleUniqueId) (r : PeerRegistry)
    → IsConsistent r
    → IsConsistent
        (remove_active id (set_all r (remove_module_internal id r.all_peers r.all_peers_by_type)))
removed-IsConsistent id r v = record {
  all = remove_module_internal-IsIndex id r.all_peers r.all_peers_by_type v.all;
  act = remove_module_internal-IsIndex id r.all_active_peers r.all_active_peers_by_type v.act;
  stated = λ j e. ground (arith, lookup-remove id j r.all_peers r.all_peers_by_type, v.stated j);
  informed =
      λ j e. ground (arith, lookup-remove id j r.all_peers r.all_peers_by_type, v.informed j);
  actives = λ j. ground (
    arith,
    lookup-remove id j r.all_peers r.all_peers_by_type,
    lookup-remove id j r.all_active_peers r.all_active_peers_by_type,
    v.actives j,
  );
}

pub remove_module-IsConsistent :
    (id : ModuleUniqueId) (r : PeerRegistry) → IsConsistent r → IsConsistent (remove_module id r)
unfolding remove_module
remove_module-IsConsistent id r v = elim (Bool-cases (contains id r.all_peers)) [
  | inl e ↦ rw e (removed-IsConsistent id r v)
  | inr e ↦ rw e v
]
