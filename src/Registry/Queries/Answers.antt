-- ===== src/Registry/Queries/Answers.antt =====
-- The questions of `PeerRegistry`, answered from the directory.
use zmf.Prelude.{
  ℕ, ◌≤◌, ◌≡◌, refl, ◌↔◌, ◌≢◌, Bool, true, false, Option, none, some, [], ◌∷◌, List, arith,
  Option-cases, Bool-cases, ap, inl, inr, if◌then◌else◌, sym, ◌∙◌, ◌==◌, ==_iff, All, subst,
}
use zmf.Prelude.Map.{
  same_iff, same_refl, lookup, contains, contains_of_none, subscript, subscript_of_some,
}
use zmf.Data.UniqueId.{ModuleUniqueId}
use zmf.Data.UniqueId.Order.{id_key, number_key}
use zmf.Data.Handle.{ModuleHandle, state_eq, dead, active}
use zmf.Registry.{PeerRegistry, Peers, PeersByType}
use zmf.Registry.Queries.{
  peers_of, by_type_of, contains_peer_with_id, get_peer_with_id, get_peers_with_type,
  contains_peer_with_type, get_peer_state, get_peer_additional_state, read_is_active,
}
use zmf.Registry.Index.{IsIndex, find, count, bucket, or_empty, HasType}
use zmf.Registry.Consistent.{IsConsistent}
use zmf.Registry.View.{Entry, view}

-- The peer of an entry, or only an active one.
abbrev pub shown : Bool → Option Entry → Option ModuleHandle
shown only_active none = none
shown false (some e) = some e.handle
shown true (some e) = if state_eq e.state active then some e.handle else none

abbrev pub is_some {ℓ} : {A : Type ℓ} → Option A → Bool
is_some none = false
is_some (some a) = true

first_of_type :
    (t : ℕ) (peers : Peers) (by_type : PeersByType) (hs : List ModuleHandle)
    → IsIndex peers by_type
    → lookup t by_type ≡ some hs
    → (id : ModuleUniqueId) × (h : ModuleHandle) × (id.type_id ≡ t) × (lookup id peers ≡ some h)
first_of_type t peers by_type [] v e = absurd (v.filled t e)
first_of_type t peers by_type (h ∷ hs) v e =
    let a : All (HasType t) (h ∷ hs) = subst (λ o. All (HasType t) (or_empty o)) e (v.typed t) in
    let type : h.unique_id.type_id ≡ t = a.0 in
    let e' : lookup h.unique_id.type_id by_type ≡ some (h ∷ hs) =
      ap (λ k. lookup k by_type) type ∙ e in
    (
      h.unique_id,
      h,
      type,
      sym (v.found h.unique_id)
          ∙ ap (λ o. find h.unique_id (or_empty o)) e'
          ∙ rw (same_refl h.unique_id),
    )

type-found :
    (t : ℕ) (peers : Peers) (by_type : PeersByType) (id : ModuleUniqueId) (h : ModuleHandle)
    → IsIndex peers by_type
    → id.type_id ≡ t
    → lookup id peers ≡ some h
    → contains t by_type ≡ true
unfolding contains
type-found t peers by_type id h v type e = ground (arith, v.found id)

type_iff :
    (t : ℕ) (peers : Peers) (by_type : PeersByType)
    → IsIndex peers by_type
    → (contains t by_type ≡ true)
      ↔ ((id : ModuleUniqueId) × (h : ModuleHandle) × (id.type_id ≡ t) × (lookup id peers ≡ some h))
type_iff t peers by_type v = (
  λ c. elim (Option-cases (lookup t by_type)) [
    | inl e ↦ cc (c, contains_of_none t by_type e)
    | inr (hs, e) ↦ first_of_type t peers by_type hs v e
  ],
  λ f. type-found t peers by_type f.0 f.1 v f.2 f.3,
)

module _ (r : PeerRegistry) (v : IsConsistent r) where
  pub lookup-peers_of :
      (only_active : Bool) (id : ModuleUniqueId)
      → lookup id (peers_of only_active r) ≡ shown only_active (view r id)
  lookup-peers_of true id = ground (arith, v.actives id, v.stated id, v.informed id)
  lookup-peers_of false id = ground (arith, v.stated id, v.informed id)

  peers_of-IsIndex :
      (only_active : Bool) → IsIndex (peers_of only_active r) (by_type_of only_active r)
  peers_of-IsIndex true = v.act
  peers_of-IsIndex false = v.all

  active_state :
      (id : ModuleUniqueId) (h : ModuleHandle)
      → lookup id r.all_active_peers ≡ some h
      → lookup id r.peer_states ≡ some active
  active_state id h e = ground (arith, e, v.actives id)

  read_is_active_of_active :
      (id : ModuleUniqueId) (h : ModuleHandle)
      → lookup id r.all_active_peers ≡ some h
      → read_is_active id r ≡ (true, r)
  unfolding read_is_active
  read_is_active_of_active id h e =
      rw (subscript_of_some dead id r.peer_states (active_state id h e))

  by_id :
      (id : ModuleUniqueId) (only_active : Bool)
      → (contains_peer_with_id id only_active r ≡ (is_some (lookup id (peers_of only_active r)), r))
        × (get_peer_with_id id only_active r ≡ (lookup id (peers_of only_active r), r))
  unfolding contains_peer_with_id get_peer_with_id contains
  by_id id false = (ground arith, ground arith)
  by_id id true = elim (Option-cases (lookup id r.all_active_peers)) [
    | inl e ↦ (ground (arith, e), ground (arith, e))
    | inr (h, e) ↦
        let s = read_is_active_of_active id h e in (ground (arith, e, s), ground (arith, e, s))
  ]

  -- The answers by id: `containsPeerWithId` says whether the directory has the id (with a peer
  -- whose state is Active, if only those are asked for), `getPeerWithId` gives that peer, and
  -- neither changes the registry.
  pub peer_with_id_lem :
      (id : ModuleUniqueId) (only_active : Bool)
      → (contains_peer_with_id id only_active r ≡ (is_some (shown only_active (view r id)), r))
        × (get_peer_with_id id only_active r ≡ (shown only_active (view r id), r))
  peer_with_id_lem id only_active =
      let (p, q) = by_id id only_active in
      let e = lookup-peers_of only_active id in
      (p ∙ ap (λ o. (is_some o, r)) e, q ∙ ap (λ o. (o, r)) e)

  list-eq-bucket :
      (t : ℕ) (only_active : Bool)
      → get_peers_with_type t only_active r ≡ bucket t (by_type_of only_active r)
  unfolding get_peers_with_type
  list-eq-bucket t only_active = ground arith

  find_other_type :
      (t : ℕ) (id : ModuleUniqueId) (hs : List ModuleHandle)
      → All (HasType t) hs
      → id.type_id ≢ t
      → find id hs ≡ none
  find_other_type t id [] a d = refl
  find_other_type t id (h ∷ hs) a d =
      ground (arith, same_iff h.unique_id id, find_other_type t id hs a.1)

  -- The answer by type: `getPeersWithType` lists exactly the peers of that type in the directory
  -- (the active ones, if only those are asked for), each once: an id is found in the list as the
  -- directory shows it if the id is of the type, is not found otherwise, and is in the list at most
  -- once.
  pub get_peers_with_type_lem :
      (t : ℕ) (only_active : Bool) (id : ModuleUniqueId)
      → (find id (get_peers_with_type t only_active r)
          ≡ (if id.type_id == t then shown only_active (view r id) else none))
        × (count id (get_peers_with_type t only_active r) ≤ 1)
        × All (HasType t) (get_peers_with_type t only_active r)
  get_peers_with_type_lem t only_active id =
      let w = peers_of-IsIndex only_active in
      rw (list-eq-bucket t only_active) (
        elim (Bool-cases (id.type_id == t)) [
          | inl e ↦
              let type : id.type_id ≡ t = (==_iff id.type_id t).0 e in
              rw (e, ← type) (w.found id ∙ lookup-peers_of only_active id)
          | inr e ↦ rw e (
              find_other_type t id (bucket t (by_type_of only_active r)) (w.typed t)
                (λ p. ground arith))
        ],
        w.once id t,
        w.typed t,
      )

  contains-by_type :
      (t : ℕ) (only_active : Bool)
      → contains_peer_with_type t only_active r ≡ contains t (by_type_of only_active r)
  unfolding contains_peer_with_type
  contains-by_type t true = refl
  contains-by_type t false = refl

  -- `containsPeerWithType` is true exactly when the directory has a peer of that type (an active
  -- one, if only those are asked for).
  pub contains_peer_with_type_lem :
      (t : ℕ) (only_active : Bool)
      → (contains_peer_with_type t only_active r ≡ true) ↔ (
          (id : ModuleUniqueId) × (h : ModuleHandle) × (id.type_id ≡ t)
          × (shown only_active (view r id) ≡ some h))
  contains_peer_with_type_lem t only_active =
      let w = type_iff t _ _ (peers_of-IsIndex only_active) in
      (
        λ c.
            let (id, h, type, e) = w.0 (sym (contains-by_type t only_active) ∙ c) in
            (id, h, type, sym (lookup-peers_of only_active id) ∙ e),
        λ (id, h, type, e).
            contains-by_type t only_active ∙ w.1 (id, h, type, lookup-peers_of only_active id ∙ e),
      )

  -- `getPeerState` and `getPeerAdditionalState` of a registered peer are those of the directory.
  pub get_peer_state_lem :
      (id : ModuleUniqueId) (h : ModuleHandle) (e : Entry)
      → h.unique_id ≡ id
      → view r id ≡ some e
      → (get_peer_state h r ≡ e.state) × (get_peer_additional_state h r ≡ (e.additional_state, r))
  unfolding get_peer_state get_peer_additional_state contains subscript
  get_peer_state_lem id h e p q = (ground arith, ground arith)
