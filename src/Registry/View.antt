-- ===== src/Registry/View.antt =====
-- The registry seen as one map, from an id to a handle with its two states; and the operations on
-- that map.
use mathlib.Core.Path.{fun_ext}
use zmf.Prelude.{
  ◌≡◌, refl, Bytes, Option, none, some, [], ◌∷◌, List, arith, Option-cases, ap, some_inj, subst,
  inl, inr, if◌then◌else◌, sym, ◌∙◌,
}
use zmf.Prelude.Map.{
  same, same_iff, lookup, contains, put, lookup-put, lookup-insert, contains_of_none,
  contains_of_some,
}
use zmf.Data.UniqueId.{ModuleUniqueId}
use zmf.Data.UniqueId.Order.{id_key}
use zmf.Data.Handle.{ModuleHandle, ModuleState, state_eq, active}
use zmf.Registry.{
  PeerRegistry, init, add_module_internal, register, add_module, remove_module, clear_registry,
  set_state, update_peer_state, update_peer_additional_state, add_active,
}
use zmf.Registry.Consistent.{
  IsConsistent, init-IsConsistent, add_module-IsConsistent, remove_module-IsConsistent,
  clear_registry-IsConsistent, lookup-remove,
}
use zmf.Registry.Updates.{
  update_peer_state-cases, update_peer_state-IsConsistent,
  update_peer_additional_state-IsConsistent,
}

pub record Entry : Type 0 where
  pub handle : ModuleHandle
  pub state : ModuleState
  pub additional_state : Bytes

abbrev pub Directory : Type 0
Directory = ModuleUniqueId → Option Entry

abbrev pub entry_of : Option ModuleHandle → Option ModuleState → Option Bytes → Option Entry
entry_of none s a = none
entry_of (some h) none a = none
entry_of (some h) (some s) none = none
entry_of (some h) (some s) (some a) = some (record { handle = h; state = s; additional_state = a })

abbrev pub view : PeerRegistry → Directory
view r id =
    entry_of (lookup id r.all_peers) (lookup id r.peer_states) (lookup id r.peer_additional_states)

-- The operations of the registry, as the calls that reach it.
pub data Operation : Type 0 where
  add : ModuleHandle → ModuleState → Bytes → Operation
  remove : ModuleUniqueId → Operation
  clear : Operation
  update_state : ModuleUniqueId → ModuleState → Operation
  update_additional_state : ModuleUniqueId → Bytes → Operation

abbrev pub apply : Operation → PeerRegistry → Option PeerRegistry
apply (add h s a) r = some (add_module h s a r)
apply (remove id) r = some (remove_module id r)
apply clear r = some (clear_registry r)
apply (update_state id s) r = update_peer_state id s r
apply (update_additional_state id a) r = some (update_peer_additional_state id a r)

-- A sequence of operations, up to a fault.
unfoldable pub run : List Operation → PeerRegistry → Option PeerRegistry
run [] r = some r
run (op ∷ ops) r = elim (apply op r) [ none ↦ none | some r' ↦ run ops r' ]

abbrev with_state : ModuleState → Option Entry → Option Entry
with_state s none = none
with_state s (some e) = some (record e { state = s })

abbrev with_additional_state : Bytes → Option Entry → Option Entry
with_additional_state a none = none
with_additional_state a (some e) = some (record e { additional_state = a })

-- What each operation does to the directory.
abbrev pub promise : Operation → Directory → Directory
promise (add h s a) d j = elim (d h.unique_id) [
  | some e ↦ d j
  | none ↦
      if same h.unique_id j
      then some (record { handle = h; state = s; additional_state = a })
      else d j
]
promise (remove id) d j = if same id j then none else d j
promise clear d j = none
promise (update_state id s) d j = if same id j then with_state s (d j) else d j
promise (update_additional_state id a) d j =
    if same id j then with_additional_state a (d j) else d j

abbrev pub promises : List Operation → Directory → Directory
promises [] d = d
promises (op ∷ ops) d = promises ops (promise op d)

-- A registered peer is in view.
pub view_of_registered :
    (r : PeerRegistry) (id : ModuleUniqueId)
    → IsConsistent r
    → view r id ≡ none
    → lookup id r.all_peers ≡ none
view_of_registered r id v e = ground (arith, v.stated id, v.informed id)

module _ (r : PeerRegistry) (v : IsConsistent r) (j : ModuleUniqueId) where
  view-register :
      (h : ModuleHandle) (s : ModuleState) (a : Bytes)
      → lookup h.unique_id r.all_peers ≡ none
      → view (if state_eq s active then add_active h (register h s a r) else register h s a r) j ≡ (
          if same h.unique_id j
          then some (record { handle = h; state = s; additional_state = a })
          else view r j)
  unfolding register add_module_internal
  view-register h s a fresh = ground (
    arith,
    lookup-insert h.unique_id j h r.all_peers,
    lookup-put h.unique_id j s r.peer_states,
    lookup-put h.unique_id j a r.peer_additional_states,
    same_iff h.unique_id j,
  )

  view-add_module :
      (h : ModuleHandle) (s : ModuleState) (a : Bytes)
      → view (add_module h s a r) j ≡ promise (add h s a) (view r) j
  unfolding add_module
  view-add_module h s a = elim (Option-cases (lookup h.unique_id r.all_peers)) [
    | inr (g, e) ↦
        rw (contains_of_some h.unique_id r.all_peers e)
          (ground (arith, e, v.stated h.unique_id, v.informed h.unique_id))
    | inl e ↦
        rw (contains_of_none h.unique_id r.all_peers e) (view-register h s a e ∙ ground (arith, e))
  ]

  view-remove_module :
      (id : ModuleUniqueId) → view (remove_module id r) j ≡ promise (remove id) (view r) j
  unfolding remove_module contains
  view-remove_module id =
      ground (arith, lookup-remove id j r.all_peers r.all_peers_by_type, same_iff id j)

  view-update_additional_state :
      (id : ModuleUniqueId) (a : Bytes)
      → view (update_peer_additional_state id a r) j
        ≡ promise (update_additional_state id a) (view r) j
  unfolding update_peer_additional_state contains
  view-update_additional_state id a =
      ground (arith, lookup-put id j a r.peer_additional_states, same_iff id j)

  view-set_state :
      (id : ModuleUniqueId) (s : ModuleState)
      → entry_of
          (lookup j r.all_peers)
          (lookup j (put id s r.peer_states))
          (lookup j r.peer_additional_states)
        ≡ promise (update_state id s) (view r) j
  view-set_state id s = ground (arith, lookup-put id j s r.peer_states, v.stated j, same_iff id j)

  view-update_peer_state :
      (id : ModuleUniqueId) (s : ModuleState) {r' : PeerRegistry}
      → update_peer_state id s r ≡ some r'
      → view r' j ≡ promise (update_state id s) (view r) j
  unfolding set_state
  view-update_peer_state id s =
      update_peer_state-cases (λ s r'. view r' j ≡ promise (update_state id s) (view r) j) id r v
        (λ s was. ground (arith, same_iff id j)) (λ h _ _. view-set_state id active)
        (λ s _. view-set_state id s) (λ s _ _. view-set_state id s) s

-- One operation on a consistent registry that does not fault keeps it consistent and changes the
-- directory as promised, at every id.
pub apply-promise :
    (op : Operation) (r : PeerRegistry) {r' : PeerRegistry}
    → IsConsistent r
    → apply op r ≡ some r'
    → IsConsistent r' × (view r' ≡ promise op (view r))
apply-promise (add h s a) r {r'} v e =
    subst (λ q. IsConsistent q × (view q ≡ promise (add h s a) (view r))) (some_inj e)
      (add_module-IsConsistent h s a r v, fun_ext λ j. view-add_module r v j h s a)
apply-promise (remove id) r {r'} v e =
    subst (λ q. IsConsistent q × (view q ≡ promise (remove id) (view r))) (some_inj e)
      (remove_module-IsConsistent id r v, fun_ext λ j. view-remove_module r v j id)
apply-promise clear r {r'} v e =
    subst (λ q. IsConsistent q × (view q ≡ promise clear (view r))) (some_inj e)
      (clear_registry-IsConsistent r, fun_ext λ j. unfold clear_registry lookup in refl)
apply-promise (update_state id s) r {r'} v e =
    (update_peer_state-IsConsistent id s r v e, fun_ext λ j. view-update_peer_state r v j id s e)
apply-promise (update_additional_state id a) r {r'} v e =
    subst (λ q. IsConsistent q × (view q ≡ promise (update_additional_state id a) (view r)))
      (some_inj e)
      (
        update_peer_additional_state-IsConsistent id a r v,
        fun_ext λ j. view-update_additional_state r v j id a,
      )

run-promises :
    (ops : List Operation) (r : PeerRegistry) {r' : PeerRegistry}
    → IsConsistent r
    → run ops r ≡ some r'
    → IsConsistent r' × (view r' ≡ promises ops (view r))
unfolding run
run-promises [] r {r'} v e = subst (λ q. IsConsistent q × (view q ≡ view r)) (some_inj e) (v, refl)
run-promises (op ∷ ops) r {r'} v e = elim (Option-cases (apply op r)) [
  | inl fault ↦ cc (e, stopped fault)
  | inr (q, step) ↦
      let (u, p) = apply-promise op r v step in
      let (w, p') = run-promises ops q u (sym (goes_on q step) ∙ e) in (w, p' ∙ ap (promises ops) p)
]
  where
    stopped : apply op r ≡ none → run (op ∷ ops) r ≡ none
    stopped fault = rw (fault, run)

    goes_on : (q : PeerRegistry) → apply op r ≡ some q → run (op ∷ ops) r ≡ run ops q
    goes_on q step = rw (step, run)

-- After any operations from the empty registry that do not fault, in any order, the registry is
-- consistent, and its directory is what the operations promise one after another.
pub run_lem :
    (ops : List Operation) {r : PeerRegistry}
    → run ops init ≡ some r
    → IsConsistent r × (view r ≡ promises ops (λ id. none))
run_lem ops {r} e =
    let (v, p) = run-promises ops init init-IsConsistent e in
    (v, p ∙ ap (promises ops) (fun_ext λ id. unfold init lookup in refl))
