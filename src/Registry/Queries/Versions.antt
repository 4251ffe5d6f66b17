-- ===== src/Registry/Queries/Versions.antt =====
-- The questions about peers of a type and a version.
use zmf.Prelude.{
  ℕ, ◌≤◌, ◌≡◌, refl, Bool, Option, none, some, [], ◌∷◌, List, arith, ap, if◌then◌else◌, ◌∙◌, ◌==◌,
  head?,
}
use zmf.Data.UniqueId.{ModuleUniqueId}
use zmf.Data.UniqueId.Order.{id_key, number_key}
use zmf.Data.Handle.{ModuleHandle}
use zmf.Registry.{PeerRegistry}
use zmf.Registry.Queries.{
  get_peers_with_type, get_peers_with_type_version, contains_peer_with_type_version,
  get_any_peer_with_type_version, with_version, has_version, any_version,
}
use zmf.Registry.Index.{find, count, count-zero_find}
use zmf.Registry.Consistent.{IsConsistent}
use zmf.Registry.View.{view}
use zmf.Registry.Queries.Answers.{shown, is_some, get_peers_with_type_lem}

-- A peer, if its version is the one that is asked for.
abbrev pub if_version : ℕ → Option ModuleHandle → Option ModuleHandle
if_version n none = none
if_version n (some h) = if h.version == n then some h else none

find-with_version :
    (n : ℕ) (id : ModuleUniqueId) (hs : List ModuleHandle)
    → count id hs ≤ 1
    → find id (with_version n hs) ≡ if_version n (find id hs)
unfolding with_version
find-with_version n id [] c = refl
find-with_version n id (h ∷ hs) c = ground (arith, find-with_version n id hs, count-zero_find id hs)

any_version-head : (n : ℕ) (hs : List ModuleHandle) → any_version n hs ≡ head? (with_version n hs)
unfolding any_version with_version
any_version-head n [] = refl
any_version-head n (h ∷ hs) = ground (arith, any_version-head n hs)

has_version-any : (n : ℕ) (hs : List ModuleHandle) → has_version n hs ≡ is_some (any_version n hs)
unfolding any_version has_version
has_version-any n [] = refl
has_version-any n (h ∷ hs) = ground (arith, has_version-any n hs)

module _ (r : PeerRegistry) (t n : ℕ) (only_active : Bool) where
  versions-list :
      get_peers_with_type_version t n only_active r
      ≡ with_version n (get_peers_with_type t only_active r)
  unfolding get_peers_with_type_version get_peers_with_type
  versions-list = ground arith

  version-any :
      get_any_peer_with_type_version t n only_active r
      ≡ any_version n (get_peers_with_type t only_active r)
  unfolding get_any_peer_with_type_version get_peers_with_type
  version-any = ground arith

  version-has :
      contains_peer_with_type_version t n only_active r
      ≡ has_version n (get_peers_with_type t only_active r)
  unfolding contains_peer_with_type_version get_peers_with_type
  version-has = ground arith

-- The answers by type and version: `getPeersWithTypeVersion` lists the peers of the type in the
-- directory whose version is the one asked for, `getAnyPeerWithTypeVersion` gives the first of them
-- or a null pointer, and `containsPeerWithTypeVersion` says whether there is one. (Active peers, if
-- only those are asked for.)
pub type_version_lem :
    (r : PeerRegistry) (t n : ℕ) (only_active : Bool) (id : ModuleUniqueId)
    → IsConsistent r
    → (find id (get_peers_with_type_version t n only_active r)
        ≡ (if id.type_id == t then if_version n (shown only_active (view r id)) else none))
      × (get_any_peer_with_type_version t n only_active r
          ≡ head? (get_peers_with_type_version t n only_active r))
      × (contains_peer_with_type_version t n only_active r
          ≡ is_some (get_any_peer_with_type_version t n only_active r))
type_version_lem r t n only_active id v =
    let (f, c, _) = get_peers_with_type_lem r v t only_active id in
    let hs = get_peers_with_type t only_active r in
    rw
      (
        versions-list r t n only_active,
        version-any r t n only_active,
        version-has r t n only_active,
      )
      (
        find-with_version n id hs c ∙ ap (if_version n) f ∙ ground arith,
        any_version-head n hs,
        has_version-any n hs,
      )
