-- ===== src/Registry/Updates.antt =====
-- `INTERNAL_updatePeerState` and `INTERNAL_updatePeerAdditionalState` keep the registry consistent.
use zmf.Prelude.{
  ◌≡◌, ◌≢◌, true, false, Bytes, none, some, arith, Option-cases, Bool-cases, subst, some_inj, sym,
  ◌∙◌, inl, inr, ◌⊎◌,
}
use zmf.Prelude.Map.{same_iff, lookup, contains, put, lookup-put, lookup-insert}
use zmf.Data.UniqueId.{ModuleUniqueId}
use zmf.Data.UniqueId.Order.{id_key}
use zmf.Data.Handle.{ModuleHandle, ModuleState, state_eq, active}
use zmf.Registry.{
  PeerRegistry, add_module_internal, set_state, update_peer_state, update_peer_additional_state,
  add_active, remove_active,
}
use zmf.Registry.Index.Add.{add_module_internal-IsIndex}
use zmf.Registry.Index.Remove.{remove_module_internal-IsIndex}
use zmf.Registry.Consistent.{IsConsistent, lookup-remove}

module _ (id : ModuleUniqueId) (r : PeerRegistry) (v : IsConsistent r) where
  restated :
      (s : ModuleState) (j : ModuleUniqueId)
      → lookup j (put id s r.peer_states) ≡ none
      → lookup j r.all_peers ≡ none
  restated s j e = ground (arith, lookup-put id j s r.peer_states, v.stated j)

  activated-IsConsistent :
      (h : ModuleHandle)
      → lookup id r.all_peers ≡ some h
      → lookup id r.all_active_peers ≡ none
      → IsConsistent (set_state id active (add_active h r))
  unfolding set_state add_module_internal
  activated-IsConsistent h there idle = record {
    all = v.all;
    act =
        add_module_internal-IsIndex h r.all_active_peers r.all_active_peers_by_type v.act
          (rw (v.all.keyed id h there) idle);
    stated = restated active;
    informed = v.informed;
    actives = λ j. ground (
      arith,
      lookup-put id j active r.peer_states,
      lookup-insert h.unique_id j h r.all_active_peers,
      same_iff id j,
      v.all.keyed id h there,
      v.actives j,
    );
  }

  deactivated-IsConsistent :
      (s : ModuleState) → s ≢ active → IsConsistent (set_state id s (remove_active id r))
  unfolding set_state
  deactivated-IsConsistent s passive = record {
    all = v.all;
    act = remove_module_internal-IsIndex id r.all_active_peers r.all_active_peers_by_type v.act;
    stated = restated s;
    informed = v.informed;
    actives = λ j. ground (
      arith,
      lookup-put id j s r.peer_states,
      lookup-remove id j r.all_active_peers r.all_active_peers_by_type,
      v.actives j,
    );
  }

  passive-IsConsistent :
      (s : ModuleState)
      → s ≢ active
      → lookup id r.all_active_peers ≡ none
      → IsConsistent (set_state id s r)
  unfolding set_state
  passive-IsConsistent s passive idle = record {
    all = v.all;
    act = v.act;
    stated = restated s;
    informed = v.informed;
    actives = λ j. ground (arith, lookup-put id j s r.peer_states, same_iff id j, v.actives j);
  }

-- A state update does one of four things: nothing, activate a registered peer, take a peer out of
-- the active ones, or only write the state.
module _ (P : ModuleState → PeerRegistry → Type 0) (id : ModuleUniqueId) (r : PeerRegistry)
    (v : IsConsistent r)
    (unchanged : (s : ModuleState)
      → (lookup id r.peer_states ≡ none) ⊎ (lookup id r.peer_states ≡ some s)
      → P s r)
    (activated : (h : ModuleHandle)
      → lookup id r.all_peers ≡ some h
      → lookup id r.all_active_peers ≡ none
      → P active (set_state id active (add_active h r)))
    (deactivated : (s : ModuleState) → s ≢ active → P s (set_state id s (remove_active id r)))
    (passive : (s : ModuleState)
      → s ≢ active
      → lookup id r.all_active_peers ≡ none
      → P s (set_state id s r)) where
  update_active :
      (old_state : ModuleState) {r' : PeerRegistry}
      → lookup id r.peer_states ≡ some old_state
      → state_eq old_state active ≡ false
      → update_peer_state id active r ≡ some r'
      → P active r'
  unfolding update_peer_state contains
  update_active old_state {r'} was changed e = elim (Option-cases (lookup id r.all_peers)) [
    | inl gone ↦ cc (e, unregistered gone)
    | inr (h, there) ↦
        subst (P active) (some_inj (sym (registered h there) ∙ e)) (activated h there idle)
  ]
    where
      idle : lookup id r.all_active_peers ≡ none
      idle = ground (arith, v.actives id)

      unregistered : lookup id r.all_peers ≡ none → update_peer_state id active r ≡ none
      unregistered gone = ground (arith, idle)

      registered :
          (h : ModuleHandle)
          → lookup id r.all_peers ≡ some h
          → update_peer_state id active r ≡ some (set_state id active (add_active h r))
      registered h there = ground (arith, idle)

  update_passive :
      (old_state s : ModuleState) {r' : PeerRegistry}
      → s ≢ active
      → lookup id r.peer_states ≡ some old_state
      → state_eq old_state s ≡ false
      → update_peer_state id s r ≡ some r'
      → P s r'
  unfolding update_peer_state contains
  update_passive old_state s {r'} quiet was changed e =
      elim (Option-cases (lookup id r.all_active_peers)) [
        | inl idle ↦ subst (P s) (some_inj (sym (only_state idle) ∙ e)) (passive s quiet idle)
        | inr (h, busy) ↦ subst (P s) (some_inj (sym (removed h busy) ∙ e)) (deactivated s quiet)
      ]
    where
      only_state :
          lookup id r.all_active_peers ≡ none → update_peer_state id s r ≡ some (set_state id s r)
      only_state idle = ground arith

      removed :
          (h : ModuleHandle)
          → lookup id r.all_active_peers ≡ some h
          → update_peer_state id s r ≡ some (set_state id s (remove_active id r))
      removed h busy = ground arith

  update_changed :
      (old_state s : ModuleState) {r' : PeerRegistry}
      → lookup id r.peer_states ≡ some old_state
      → state_eq old_state s ≡ false
      → update_peer_state id s r ≡ some r'
      → P s r'
  update_changed old_state active was changed e = update_active old_state was changed e
  update_changed old_state s was changed e = update_passive old_state s (λ q. cc) was changed e

  pub update_peer_state-cases :
      (s : ModuleState) {r' : PeerRegistry} → update_peer_state id s r ≡ some r' → P s r'
  unfolding update_peer_state
  update_peer_state-cases s {r'} e = elim (Option-cases (lookup id r.peer_states)) [
    | inl unknown ↦ subst (P s) (some_inj (sym (ignored unknown) ∙ e)) (unchanged s (inl unknown))
    | inr (old_state, was) ↦ elim (Bool-cases (state_eq old_state s)) [
      | inl equal ↦
          subst (P s) (some_inj (sym (kept old_state was equal) ∙ e))
            (unchanged s (inr (settled old_state was equal)))
      | inr changed ↦ update_changed old_state s was changed e
    ]
  ]
    where
      ignored : lookup id r.peer_states ≡ none → update_peer_state id s r ≡ some r
      ignored unknown = ground arith

      settled :
          (old_state : ModuleState)
          → lookup id r.peer_states ≡ some old_state
          → state_eq old_state s ≡ true
          → lookup id r.peer_states ≡ some s
      settled old_state was equal = ground arith

      kept :
          (old_state : ModuleState)
          → lookup id r.peer_states ≡ some old_state
          → state_eq old_state s ≡ true
          → update_peer_state id s r ≡ some r
      kept old_state was equal = ground arith

pub update_peer_state-IsConsistent :
    (id : ModuleUniqueId) (s : ModuleState) (r : PeerRegistry) {r' : PeerRegistry}
    → IsConsistent r
    → update_peer_state id s r ≡ some r'
    → IsConsistent r'
update_peer_state-IsConsistent id s r v =
    update_peer_state-cases (λ _. IsConsistent) id r v (λ _ _. v) (activated-IsConsistent id r v)
      (deactivated-IsConsistent id r v) (passive-IsConsistent id r v) s

pub update_peer_additional_state-IsConsistent :
    (id : ModuleUniqueId) (a : Bytes) (r : PeerRegistry)
    → IsConsistent r
    → IsConsistent (update_peer_additional_state id a r)
unfolding update_peer_additional_state
update_peer_additional_state-IsConsistent id a r v =
    elim (Bool-cases (contains id r.peer_additional_states)) [
      | inl e ↦ rw e (record {
        all = v.all;
        act = v.act;
        stated = v.stated;
        informed = λ j p. ground (arith, lookup-put id j a r.peer_additional_states, v.informed j);
        actives = v.actives;
      })
      | inr e ↦ rw e v
    ]
