-- ===== src/Registry/Index/Add.antt =====
-- `addModuleInternal` keeps the two maps of a pair together.
use zmf.Prelude.{
  ℕ, ◌+◌, ◌≤◌, ◌≡◌, refl, ◌≢◌, none, some, List, [], ◌∷◌, ◌++◌, if◌then◌else◌, All, arith,
  Bool-cases, inl, inr,
}
use zmf.Prelude.Map.{same, same_iff, lookup, insert, lookup-put, lookup-insert}
use zmf.Data.UniqueId.{ModuleUniqueId}
use zmf.Data.UniqueId.Order.{id_key, number_key}
use zmf.Data.Handle.{ModuleHandle}
use zmf.Registry.{Peers, PeersByType, add_by_type, add_module_internal}
use zmf.Registry.Index.{find, count, bucket, HasType, IsIndex, find-none-count}

find-append :
    (id : ModuleUniqueId) (hs : List ModuleHandle) (h : ModuleHandle)
    → find id (hs ++ h ∷ [])
      ≡ elim (find id hs) [ none ↦ if same h.unique_id id then some h else none | some g ↦ some g ]
find-append id [] h = refl
find-append id (g ∷ hs) h = ground (arith, find-append id hs h)

count-append :
    (id : ModuleUniqueId) (hs : List ModuleHandle) (h : ModuleHandle)
    → count id (hs ++ h ∷ []) ≡ count id hs + (if same h.unique_id id then 1 else 0)
count-append id [] h = ground arith
count-append id (g ∷ hs) h = ground (arith, count-append id hs h)

append-ne-nil : (hs : List ModuleHandle) (h : ModuleHandle) → hs ++ h ∷ [] ≢ []
append-ne-nil [] h e = cc
append-ne-nil (g ∷ hs) h e = cc

All-append :
    (t : ℕ) (hs : List ModuleHandle) (h : ModuleHandle)
    → All (HasType t) hs
    → h.unique_id.type_id ≡ t
    → All (HasType t) (hs ++ h ∷ [])
All-append t [] h a e = (e, tt)
All-append t (g ∷ hs) h a e = (a.0, All-append t hs h a.1 e)

-- The list of each type after a peer has been added.
bucket-add_by_type :
    (h : ModuleHandle) (t : ℕ) (by_type : PeersByType)
    → lookup t (add_by_type h by_type)
      ≡ (if same h.unique_id.type_id t then some (bucket t by_type ++ h ∷ []) else lookup t by_type)
unfolding add_by_type
bucket-add_by_type h t by_type = ground (
  arith,
  lookup-insert h.unique_id.type_id t (h ∷ []) by_type,
  lookup-put h.unique_id.type_id t (bucket h.unique_id.type_id by_type ++ h ∷ []) by_type,
  same_iff h.unique_id.type_id t,
)

module _ (h : ModuleHandle) (peers : Peers) (by_type : PeersByType) (v : IsIndex peers by_type)
    (fresh : lookup h.unique_id peers ≡ none) where
  add_keyed :
      (id : ModuleUniqueId) (g : ModuleHandle)
      → lookup id (insert h.unique_id h peers) ≡ some g
      → g.unique_id ≡ id
  add_keyed id g e =
      ground (arith, lookup-insert h.unique_id id h peers, same_iff h.unique_id id, v.keyed id g)

  add_found :
      (id : ModuleUniqueId)
      → find id (bucket id.type_id (add_by_type h by_type)) ≡ lookup id (insert h.unique_id h peers)
  add_found id = ground (
    arith,
    bucket-add_by_type h id.type_id by_type,
    find-append id (bucket id.type_id by_type) h,
    lookup-insert h.unique_id id h peers,
    same_iff h.unique_id id,
    same_iff h.unique_id.type_id id.type_id,
    v.found id,
  )

  add_once : (id : ModuleUniqueId) (t : ℕ) → count id (bucket t (add_by_type h by_type)) ≤ 1
  add_once id t = ground (
    arith,
    bucket-add_by_type h t by_type,
    count-append id (bucket t by_type) h,
    same_iff h.unique_id id,
    same_iff h.unique_id.type_id t,
    v.found id,
    find-none-count id (bucket t by_type),
    v.once id t,
  )

  add_typed : (t : ℕ) → All (HasType t) (bucket t (add_by_type h by_type))
  add_typed t = elim (Bool-cases (same h.unique_id.type_id t)) [
    | inl e ↦
        rw (bucket-add_by_type h t by_type, e)
          (All-append t (bucket t by_type) h (v.typed t) ((same_iff h.unique_id.type_id t).0 e))
    | inr e ↦ rw (bucket-add_by_type h t by_type, e) (v.typed t)
  ]

  add_filled : (t : ℕ) → lookup t (add_by_type h by_type) ≢ some []
  add_filled t e =
      ground (arith, bucket-add_by_type h t by_type, v.filled t, append-ne-nil (bucket t by_type) h)

-- A peer whose id is new to an index is added to both maps.
pub add_module_internal-IsIndex :
    (h : ModuleHandle) (peers : Peers) (by_type : PeersByType)
    → IsIndex peers by_type
    → lookup h.unique_id peers ≡ none
    → let r = add_module_internal h peers by_type in IsIndex r.0 r.1
unfolding add_module_internal
add_module_internal-IsIndex h peers by_type v fresh = record {
  keyed = add_keyed h peers by_type v fresh;
  found = add_found h peers by_type v fresh;
  once = add_once h peers by_type v fresh;
  typed = add_typed h peers by_type v fresh;
  filled = add_filled h peers by_type v fresh;
}
