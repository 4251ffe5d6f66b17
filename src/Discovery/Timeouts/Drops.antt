-- ===== src/Discovery/Timeouts/Drops.antt =====
-- The loop of `updatePeerTimeouts` that drops the peers over the limit.
use zmf.Prelude.{
  ◌≡◌, refl, sym, ◌∙◌, ap, Bool, true, false, none, some, List, [], ◌∷◌, All, arith, if◌then◌else◌,
  Bool-cases, inl, inr,
}
use zmf.Prelude.Map.{same}
use zmf.Data.UniqueId.{ModuleUniqueId}
use zmf.Data.UniqueId.Order.{id_key}
use zmf.Data.Handle.{ModuleHandle, dead}
use zmf.Registry.{remove_module}
use zmf.Registry.Ordered.{HasOrderedPeers, remove_module-HasOrderedPeers}
use zmf.Registry.Consistent.{IsConsistent}
use zmf.Registry.View.{Entry, Directory, view, remove, apply-promise}
use zmf.Registry.Queries.Answers.{get_peer_state_lem}
use zmf.Discovery.State.{Discovery, PeerStateChange, is_stopping}
use zmf.Discovery.Service.{on_peer_dead}
use zmf.Discovery.Receive.Effects.{state_in}
use zmf.Discovery.Timeouts.{drop_peers}

abbrev pub has_id : ModuleUniqueId → List ModuleHandle → Bool
has_id id [] = false
has_id id (h ∷ hs) = if same h.unique_id id then true else has_id id hs

-- The peers are registered, each under an id of its own.
abbrev pub IsListed : Directory → List ModuleHandle → Type 0
IsListed dir [] = Unit {0}
IsListed dir (h ∷ hs) =
    ((e : Entry) × (dir h.unique_id ≡ some e))
    × All (λ g. same h.unique_id g.unique_id ≡ false) hs
    × IsListed dir hs

module _ {C : Type 0} (notify : PeerStateChange C) where
  -- The core is told that the peers are dead, one after another, with the states that they had.
  abbrev pub tell_dead : Directory → List ModuleHandle → C → C
  tell_dead dir [] c = c
  tell_dead dir (h ∷ hs) c = tell_dead dir hs (notify h dead (state_in (dir h.unique_id)) c)

  -- Without one more peer, another one stands where it stood.
  IsListed-without :
      (id : ModuleUniqueId) (dir dir' : Directory) (hs : List ModuleHandle)
      → ((j : ModuleUniqueId) → dir' j ≡ (if same id j then none else dir j))
      → All (λ g. same id g.unique_id ≡ false) hs
      → IsListed dir hs
      → IsListed dir' hs × ((c : C) → tell_dead dir' hs c ≡ tell_dead dir hs c)
  IsListed-without id dir dir' [] q a l = (tt, λ c. refl)
  IsListed-without id dir dir' (h ∷ hs) q a l =
      let k = IsListed-without id dir dir' hs q a.1 l.2 in
      let p : dir' h.unique_id ≡ dir h.unique_id = ground (arith, q h.unique_id, a.0) in
      (
        ((l.0.0, p ∙ l.0.1), l.1, k.0),
        λ c.
            k.1 (notify h dead (state_in (dir' h.unique_id)) c)
            ∙ ap (λ o. tell_dead dir hs (notify h dead (state_in o) c)) p,
      )

  dropped_one :
      (h : ModuleHandle) (e : Entry) (d : Discovery C)
      → IsConsistent d.registry
      → is_stopping d ≡ false
      → view d.registry h.unique_id ≡ some e
      → on_peer_dead notify h d ≡ record d {
        registry = remove_module h.unique_id d.registry;
        core = notify h dead e.state d.core;
      }
  unfolding on_peer_dead
  dropped_one h e d v running p =
      let (s, _) = get_peer_state_lem d.registry v h.unique_id h e refl p in rw (running, s)

  pub drop_peers_lem :
      (hs : List ModuleHandle) (d : Discovery C)
      → IsConsistent d.registry
      → is_stopping d ≡ false
      → IsListed (view d.registry) hs
      → let d' = drop_peers notify hs d in
        IsConsistent d'.registry
        × ((j : ModuleUniqueId)
            → view d'.registry j ≡ (if has_id j hs then none else view d.registry j))
        × (d'.core ≡ tell_dead (view d.registry) hs d.core)
        × (d'.timeouts ≡ d.timeouts)
        × (d'.next_ref ≡ d.next_ref)
  unfolding drop_peers
  drop_peers_lem [] d v running l = (v, λ j. refl, refl, refl, refl)
  drop_peers_lem (h ∷ hs) d v running l =
      let e : Entry = l.0.0 in
      let p : view d.registry h.unique_id ≡ some e = l.0.1 in
      let d1 : Discovery C = record d {
        registry = remove_module h.unique_id d.registry;
        core = notify h dead e.state d.core;
      } in
      let (c, w) = apply-promise (remove h.unique_id) d.registry v refl in
      let without : (j : ModuleUniqueId)
          → view d1.registry j ≡ (if same h.unique_id j then none else view d.registry j) =
        λ j. ap (λ dir. dir j) w in
      let k =
        IsListed-without h.unique_id (view d.registry) (view d1.registry) hs without l.1 l.2 in
      let r = drop_peers_lem hs d1 c running k.0 in
      let q : drop_peers notify (h ∷ hs) d ≡ drop_peers notify hs d1 =
        ap (drop_peers notify hs) (dropped_one h e d v running p) in
      rw q (
        r.0,
        λ j. r.1 j ∙ ground (arith, without j),
        r.2
            ∙ k.1 d1.core
            ∙ ap (λ o. tell_dead (view d.registry) hs (notify h dead (state_in o) d.core)) (sym p),
        r.3,
        r.4,
      )

  on_peer_dead-HasOrderedPeers :
      (h : ModuleHandle) (d : Discovery C)
      → HasOrderedPeers d.registry
      → HasOrderedPeers (on_peer_dead notify h d).registry
  unfolding on_peer_dead
  on_peer_dead-HasOrderedPeers h d s = elim (Bool-cases (is_stopping d)) [
    | inl e ↦ rw e s
    | inr e ↦ rw e (remove_module-HasOrderedPeers h.unique_id d.registry s)
  ]

  pub drop_peers-HasOrderedPeers :
      (hs : List ModuleHandle) (d : Discovery C)
      → HasOrderedPeers d.registry
      → HasOrderedPeers (drop_peers notify hs d).registry
  unfolding drop_peers
  drop_peers-HasOrderedPeers [] d s = s
  drop_peers-HasOrderedPeers (h ∷ hs) d s =
      drop_peers-HasOrderedPeers hs (on_peer_dead notify h d) (on_peer_dead-HasOrderedPeers h d s)
