-- ===== src/Registry/Index.antt =====
-- The two maps of one pair (all peers, or the active ones) describe the same peers.
pub mod Add
pub mod Remove
use zmf.Prelude.{
  ℕ, suc, ◌+◌, ◌≤◌, ◌<◌, ◌≡◌, refl, ap, ◌≢◌, Bool, true, false, Option, none, some, List, [], ◌∷◌,
  ◌++◌, ◌==◌, if◌then◌else◌, length, All, arith, Option-cases, Bool-cases, ◌⊎◌, inl, inr, sym, ◌∙◌,
  ==_iff,
}
use zmf.Prelude.Map.{
  Map, same, same_iff, same_refl, lookup, contains, contains_of_none, contains_of_some,
  subscript_of_none, subscript_of_some, put, insert, erase, subscript, lookup-put, lookup-insert,
  lookup-erase,
}
use zmf.Data.UniqueId.{ModuleUniqueId, eq}
use zmf.Data.UniqueId.Order.{id_key, number_key, eq_iff}
use zmf.Data.Handle.{ModuleHandle}
use zmf.Registry.{
  Peers, PeersByType, add_by_type, add_module_internal, remove_first, remove_by_type,
  remove_module_internal,
}

-- The first handle with an id, and how many there are.
abbrev pub find : ModuleUniqueId → List ModuleHandle → Option ModuleHandle
find id [] = none
find id (h ∷ hs) = if same h.unique_id id then some h else find id hs

abbrev pub count : ModuleUniqueId → List ModuleHandle → ℕ
count id [] = 0
count id (h ∷ hs) = if same h.unique_id id then suc (count id hs) else count id hs

-- The list of a type, empty where the map has none.
abbrev pub or_empty : Option (List ModuleHandle) → List ModuleHandle
or_empty none = []
or_empty (some hs) = hs

abbrev pub bucket : ℕ → PeersByType → List ModuleHandle
bucket t by_type = or_empty (lookup t by_type)

abbrev pub HasType : ℕ → ModuleHandle → Type 0
HasType t h = h.unique_id.type_id ≡ t

-- Each peer is found by its own id, in the map by id and in the list of its type, once in all; a
-- list holds peers of its type only, and no list is empty.
pub record IsIndex (peers : Peers) (by_type : PeersByType) : Type 0 where
  pub keyed : (id : ModuleUniqueId) (h : ModuleHandle) → lookup id peers ≡ some h → h.unique_id ≡ id
  pub found : (id : ModuleUniqueId) → find id (bucket id.type_id by_type) ≡ lookup id peers
  pub once : (id : ModuleUniqueId) (t : ℕ) → count id (bucket t by_type) ≤ 1
  pub typed : (t : ℕ) → All (HasType t) (bucket t by_type)
  pub filled : (t : ℕ) → lookup t by_type ≢ some []

pub empty-IsIndex : IsIndex [] []
unfolding lookup
empty-IsIndex = record {
  keyed = λ id h e. cc;
  found = λ id. refl;
  once = λ id t. omega arith;
  typed = λ t. tt;
  filled = λ t e. cc;
}

pub find-none-count :
    (id : ModuleUniqueId) (hs : List ModuleHandle) → find id hs ≡ none → count id hs ≡ 0
find-none-count id [] e = refl
find-none-count id (g ∷ hs) e = ground (arith, find-none-count id hs)

pub count-zero_find :
    (id : ModuleUniqueId) (hs : List ModuleHandle) → count id hs ≡ 0 → find id hs ≡ none
count-zero_find id [] e = refl
count-zero_find id (g ∷ hs) e = ground (arith, count-zero_find id hs)
