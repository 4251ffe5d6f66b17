-- ===== src/Discovery/Timeouts/Round.antt =====
-- What `updatePeerTimeouts` does to the directory.
use zmf.Prelude.{
  ℕ, ltb, ◌≡◌, sym, ◌∙◌, ap, subst, false, Option, none, some, arith, if◌then◌else◌, Option-cases,
  inl, inr,
}
use zmf.Prelude.Map.{lookup, values}
use zmf.Data.UniqueId.{ModuleUniqueId}
use zmf.Data.UniqueId.Order.{id_key}
use zmf.Data.Handle.{ModuleHandle}
use zmf.Registry.Ordered.{HasOrderedPeers}
use zmf.Registry.Consistent.{IsConsistent}
use zmf.Registry.View.{Entry, Directory, view, view_of_registered}
use zmf.Discovery.State.{Discovery, PeerStateChange, is_stopping}
use zmf.Discovery.Receive.Soundness.{IsSound, IsSoundDirectory}
use zmf.Discovery.Timeouts.{age_peers, drop_peers, update_peer_timeouts}
use zmf.Discovery.Timeouts.Ages.{aged, overdue, age_peers_lem}
use zmf.Discovery.Timeouts.Drops.{tell_dead, drop_peers_lem, drop_peers-HasOrderedPeers}
use zmf.Discovery.Timeouts.Peers.{
  IsOwned, values-HasOwnObjects, overdue-IsListed, is_overdue, has_id-overdue, has_object-values,
}

-- The entry of a peer, unless the peer is over the limit once it is aged.
abbrev pub unless_overdue : ℕ → ℕ → (ℕ → ℕ) → Option Entry → Option Entry
unless_overdue frequency limit timeouts none = none
unless_overdue frequency limit timeouts (some e) =
    if ltb limit (aged frequency (timeouts e.handle.ref)) then none else some e

-- A directory with fewer peers is sound.
fewer-IsSoundDirectory :
    (n : ℕ) (dir dir' : Directory)
    → IsSoundDirectory n dir
    → ((j : ModuleUniqueId) (e : Entry) → dir' j ≡ some e → dir j ≡ some e)
    → IsSoundDirectory n dir'
fewer-IsSoundDirectory n dir dir' v f = record {
  keyed = λ j e p. v.keyed j e (f j e p);
  alive = λ j e p. v.alive j e (f j e p);
  allocated = λ j e p. v.allocated j e (f j e p);
  distinct = λ i j e g p q r. v.distinct i j e g (f i e p) (f j g q) r;
}

registered :
    {C : Type 0} (d : Discovery C)
    → IsConsistent d.registry
    → (j : ModuleUniqueId) (h : ModuleHandle) → lookup j d.registry.all_peers ≡ some h
    → (e : Entry) × (view d.registry j ≡ some e) × (e.handle ≡ h)
registered d v j h p = elim (Option-cases (view d.registry j)) [
  | inl q ↦ absurd (ground (arith, view_of_registered d.registry j v q))
  | inr (e, q) ↦ (e, q, ground arith)
]

lookup-view :
    {C : Type 0} (d : Discovery C) (j : ModuleUniqueId) (e : Entry)
    → view d.registry j ≡ some e
    → lookup j d.registry.all_peers ≡ some e.handle
lookup-view d j e p = ground arith

is_overdue-view :
    {C : Type 0} (d : Discovery C) (f l : ℕ) (t : ℕ → ℕ) (j : ModuleUniqueId)
    → IsConsistent d.registry
    → (if is_overdue f l t (lookup j d.registry.all_peers) then none else view d.registry j)
      ≡ unless_overdue f l t (view d.registry j)
is_overdue-view d f l t j v = ground (arith, v.stated j, v.informed j)

module _ {C : Type 0} (notify : PeerStateChange C) where
  -- In a running discovery service with a sound directory, whose map of peers has its keys in
  -- order, `updatePeerTimeouts` drops exactly the peers whose timeout, once the frequency of the
  -- broadcasts is added, is over the limit; every other entry stays. The core is told once of each
  -- of them that it is dead, in the order of their ids and with the state that it had; the timeout
  -- of every registered peer has grown by the frequency, in 32 bits; and the directory stays sound
  -- and the map in order.
  pub update_peer_timeouts_lem :
      (d : Discovery C)
      → IsSound d
      → HasOrderedPeers d.registry
      → is_stopping d ≡ false
      → let d' = update_peer_timeouts notify d in
        let late =
          overdue d.multicast_frequency d.peer_timeout d.timeouts (values d.registry.all_peers) in
        IsSound d'
        × HasOrderedPeers d'.registry
        × ((j : ModuleUniqueId)
            → view d'.registry j
              ≡ unless_overdue d.multicast_frequency d.peer_timeout d.timeouts (view d.registry j))
        × (d'.core ≡ tell_dead notify (view d.registry) late d.core)
        × ((j : ModuleUniqueId) (e : Entry)
            → view d.registry j ≡ some e
            → d'.timeouts e.handle.ref ≡ aged d.multicast_frequency (d.timeouts e.handle.ref))
  unfolding update_peer_timeouts
  update_peer_timeouts_lem d v s running =
      let f = d.multicast_frequency in
      let l = d.peer_timeout in
      let m = d.registry.all_peers in
      let late = overdue f l d.timeouts (values m) in
      let own : IsOwned m = λ i j g h p q r.
        let (e, a, b) = registered d v.consistent i g p in
        let (e', a', b') = registered d v.consistent j h q in
        v.directory.distinct i j e e' a a' (ap (λ x. x.ref) b ∙ r ∙ ap (λ x. x.ref) (sym b')) in
      let a = age_peers_lem f l (values m) d.timeouts (values-HasOwnObjects m s own) in
      let d1 : Discovery C = record d { timeouts = (age_peers f l (values m) d.timeouts).1 } in
      let listed =
        overdue-IsListed f l d.timeouts (view d.registry) m s v.consistent.all.keyed
          (λ j h p. let (e, q, b) = registered d v.consistent j h p in (e, q)) in
      let q : update_peer_timeouts notify d ≡ drop_peers notify late d1 =
        ap (λ hs. drop_peers notify hs d1) a.0 in
      let r = drop_peers_lem notify late d1 v.consistent running listed in
      let shape : (j : ModuleUniqueId)
          → view (drop_peers notify late d1).registry j
            ≡ unless_overdue f l d.timeouts (view d.registry j) =
        λ j.
          r.1 j
          ∙ ap (λ b. if b then none else view d.registry j)
              (has_id-overdue f l d.timeouts m j s v.consistent.all.keyed)
          ∙ is_overdue-view d f l d.timeouts j v.consistent in
      rw q (
        record {
          consistent = r.0;
          directory =
              subst (λ n. IsSoundDirectory n (view (drop_peers notify late d1).registry)) (sym r.4)
                (fewer-IsSoundDirectory d.next_ref (view d.registry)
                  (view (drop_peers notify late d1).registry) v.directory
                  (λ j e p. ground (arith, r.1 j)));
        },
        drop_peers-HasOrderedPeers notify late d1 s,
        shape,
        r.2,
        λ j e p.
            ap (λ t. t e.handle.ref) r.3
            ∙ a.1 e.handle.ref
            ∙ ap (λ b. if b then aged f (d.timeouts e.handle.ref) else d.timeouts e.handle.ref)
                (has_object-values m j e.handle (lookup-view d j e p)),
      )
