-- ===== src/Registry/Index/Remove.antt =====
-- `removeModuleInternal` keeps the two maps of a pair together.
use zmf.Prelude.{
  ℕ, ◌≤◌, ◌≡◌, ◌≢◌, true, false, none, some, List, [], ◌∷◌, ◌==◌, if◌then◌else◌, length, All, arith,
  Option-cases, Bool-cases, inl, inr,
}
use zmf.Prelude.Map.{
  same, same_iff, lookup, contains_of_none, contains_of_some, subscript_of_none, subscript_of_some,
  put, erase, lookup-put, lookup-erase,
}
use zmf.Data.UniqueId.{ModuleUniqueId, eq}
use zmf.Data.UniqueId.Order.{id_key, number_key, eq_iff}
use zmf.Data.Handle.{ModuleHandle}
use zmf.Registry.{Peers, PeersByType, remove_first, remove_by_type, remove_module_internal}
use zmf.Registry.Index.{find, count, bucket, HasType, IsIndex, count-zero_find}

-- The list of each type after a peer has been removed.
lookup-remove_by_type :
    (id : ModuleUniqueId) (t : ℕ) (by_type : PeersByType)
    → let hs = bucket id.type_id by_type in
      lookup t (remove_by_type id by_type) ≡ (
        if same id.type_id t
        then if length hs == 1 then none else some (remove_first id hs)
        else lookup t by_type)
unfolding remove_by_type
lookup-remove_by_type id t by_type = elim (Option-cases (lookup id.type_id by_type)) [
  | inl e ↦
      rw (subscript_of_none [] id.type_id by_type e, e)
        (ground (
          arith,
          lookup-put id.type_id t [] by_type,
          lookup-put id.type_id t (remove_first id []) (put id.type_id [] by_type),
        ))
  | inr (hs, e) ↦
      rw (subscript_of_some [] id.type_id by_type e, e)
        (ground (
          arith,
          lookup-erase id.type_id t by_type,
          lookup-put id.type_id t (remove_first id hs) by_type,
        ))
]

find-remove_first :
    (id j : ModuleUniqueId) (hs : List ModuleHandle)
    → count id hs ≤ 1
    → find j (remove_first id hs) ≡ (if same id j then none else find j hs)
unfolding remove_first
find-remove_first id j [] c = ground arith
find-remove_first id j (h ∷ hs) c = ground (
  arith,
  find-remove_first id j hs,
  count-zero_find id hs,
  eq_iff h.unique_id id,
  same_iff h.unique_id id,
  same_iff h.unique_id j,
  same_iff id j,
)

count-remove_first :
    (id j : ModuleUniqueId) (hs : List ModuleHandle) → count j (remove_first id hs) ≤ count j hs
unfolding remove_first
count-remove_first id j [] = omega arith
count-remove_first id j (h ∷ hs) = ground (arith, count-remove_first id j hs)

All-remove_first :
    (t : ℕ) (id : ModuleUniqueId) (hs : List ModuleHandle)
    → All (HasType t) hs
    → All (HasType t) (remove_first id hs)
unfolding remove_first
All-remove_first t id [] a = tt
All-remove_first t id (h ∷ hs) a = elim (Bool-cases (eq h.unique_id id)) [
  | inl e ↦ rw e a.1
  | inr e ↦ rw e (a.0, All-remove_first t id hs a.1)
]

-- A list that holds an id and more is not emptied.
remove_first-ne-nil :
    (id : ModuleUniqueId) (hs : List ModuleHandle) {g : ModuleHandle}
    → find id hs ≡ some g
    → (length hs == 1) ≡ false
    → remove_first id hs ≢ []
unfolding remove_first
remove_first-ne-nil id [] f e p = cc
remove_first-ne-nil id (h ∷ []) f e p = cc
remove_first-ne-nil id (h ∷ (k ∷ hs)) f e p = ground arith

find_of_single :
    (id j : ModuleUniqueId) (hs : List ModuleHandle) {g : ModuleHandle}
    → find id hs ≡ some g
    → (length hs == 1) ≡ true
    → find j hs ≡ (if same id j then some g else none)
find_of_single id j [] f e = cc
find_of_single id j (h ∷ []) f e =
    ground (arith, same_iff h.unique_id id, same_iff h.unique_id j, same_iff id j)
find_of_single id j (h ∷ (k ∷ hs)) f e = ground arith

module _ (id : ModuleUniqueId) (peers : Peers) (by_type : PeersByType) (h : ModuleHandle)
    (v : IsIndex peers by_type) (there : lookup id peers ≡ some h) where
  remove_keyed :
      (j : ModuleUniqueId) (g : ModuleHandle) → lookup j (erase id peers) ≡ some g → g.unique_id ≡ j
  remove_keyed j g e = ground (arith, lookup-erase id j peers, v.keyed j g)

  remove_found :
      (j : ModuleUniqueId)
      → find j (bucket j.type_id (remove_by_type id by_type)) ≡ lookup j (erase id peers)
  remove_found j = ground (
    arith,
    lookup-remove_by_type id j.type_id by_type,
    lookup-erase id j peers,
    same_iff id j,
    same_iff id.type_id j.type_id,
    find-remove_first id j (bucket id.type_id by_type),
    find_of_single id j (bucket id.type_id by_type) {g = h},
    v.once id id.type_id,
    v.found id,
    v.found j,
  )

  remove_once : (j : ModuleUniqueId) (t : ℕ) → count j (bucket t (remove_by_type id by_type)) ≤ 1
  remove_once j t = ground (
    arith,
    lookup-remove_by_type id t by_type,
    same_iff id.type_id t,
    count-remove_first id j (bucket id.type_id by_type),
    v.once j t,
  )

  remove_typed_same :
      (t : ℕ)
      → same id.type_id t ≡ true
      → All (HasType t) (bucket t by_type)
      → All (HasType t) (bucket t (remove_by_type id by_type))
  remove_typed_same t e a =
      let type : id.type_id ≡ t = (same_iff id.type_id t).0 e in
      let kept : All (HasType t) (bucket id.type_id by_type) = rw type a in
      elim (Bool-cases (length (bucket id.type_id by_type) == 1)) [
        | inl one ↦ rw (lookup-remove_by_type id t by_type, e, one) tt
        | inr more ↦
            rw (lookup-remove_by_type id t by_type, e, more)
              (All-remove_first t id (bucket id.type_id by_type) kept)
      ]

  remove_typed : (t : ℕ) → All (HasType t) (bucket t (remove_by_type id by_type))
  remove_typed t = elim (Bool-cases (same id.type_id t)) [
    | inl e ↦ remove_typed_same t e (v.typed t)
    | inr e ↦ rw (lookup-remove_by_type id t by_type, e) (v.typed t)
  ]

  remove_filled : (t : ℕ) → lookup t (remove_by_type id by_type) ≢ some []
  remove_filled t e = ground (
    arith,
    lookup-remove_by_type id t by_type,
    v.filled t,
    v.found id,
    remove_first-ne-nil id (bucket id.type_id by_type) {g = h},
  )

-- A peer that an index holds is removed from both maps; for any other id nothing changes.
pub remove_module_internal-IsIndex :
    (id : ModuleUniqueId) (peers : Peers) (by_type : PeersByType)
    → IsIndex peers by_type
    → let r = remove_module_internal id peers by_type in IsIndex r.0 r.1
unfolding remove_module_internal
remove_module_internal-IsIndex id peers by_type v = elim (Option-cases (lookup id peers)) [
  | inl e ↦ rw (contains_of_none id peers e) v
  | inr (h, e) ↦ rw (contains_of_some id peers e) (record {
    keyed = remove_keyed id peers by_type h v e;
    found = remove_found id peers by_type h v e;
    once = remove_once id peers by_type h v e;
    typed = remove_typed id peers by_type h v e;
    filled = remove_filled id peers by_type h v e;
  })
]
