-- ===== src/Discovery/Kept.antt =====
-- What hearing peers leaves as it is in the discovery service, and what it keeps true of the core.
use zmf.Prelude.{◌≡◌, refl, ◌∙◌, Bytes, Bool-cases, inl, inr}
use zmf.Data.UniqueId.Order.{id_key}
use zmf.Data.Handle.{ModuleHandle, ModuleState, dead}
use zmf.Registry.Ordered.{
  HasOrderedPeers, add_module-HasOrderedPeers, remove_module-HasOrderedPeers,
}
use zmf.Discovery.State.{Discovery, PeerStateChange, is_stopping}
use zmf.Registry.Queries.{get_peer_state}
use zmf.Discovery.Service.{on_peer_new, on_peer_dead, send_state_multicast}

-- The members that the loop only reads.
abbrev pub IsSameService : {C : Type 0} → Discovery C → Discovery C → Type 0
IsSameService d d' =
    (d'.self_state ≡ d.self_state)
    × (d'.is_started ≡ d.is_started)
    × (d'.stop_requested ≡ d.stop_requested)
    × (d'.multicast_frequency ≡ d.multicast_frequency)
    × (d'.peer_timeout ≡ d.peer_timeout)

-- Those members are the same, the map of peers stays in order, and what holds of the core still
-- holds.
pub record IsKept {C : Type 0} (P : C → Type 0) (d d' : Discovery C) : Type 0 where
  pub core : P d.core → P d'.core
  pub ordered : HasOrderedPeers d.registry → HasOrderedPeers d'.registry
  pub same : IsSameService d d'

module _ {C : Type 0} (notify : PeerStateChange C) (P : C → Type 0)
    (told : (h : ModuleHandle) (new_state last_state : ModuleState) (c : C)
      → P c
      → P (notify h new_state last_state c)) where
  pub same-IsKept : (d : Discovery C) → IsKept P d d
  same-IsKept d = record { core = λ p. p; ordered = λ s. s; same = (refl, refl, refl, refl, refl) }

  pub then-IsKept : (d e f : Discovery C) → IsKept P d e → IsKept P e f → IsKept P d f
  then-IsKept d e f k l = record {
    core = λ p. l.core (k.core p);
    ordered = λ s. l.ordered (k.ordered s);
    same =
        let a = k.same in let b = l.same in (b.0 ∙ a.0, b.1 ∙ a.1, b.2 ∙ a.2, b.3 ∙ a.3, b.4 ∙ a.4);
  }

  pub on_peer_new-IsKept :
      (h : ModuleHandle) (s : ModuleState) (a : Bytes) (d : Discovery C)
      → IsKept P d (on_peer_new notify h s a d)
  unfolding on_peer_new
  on_peer_new-IsKept h s a d = elim (Bool-cases (is_stopping d)) [
    | inl e ↦ rw e (same-IsKept d)
    | inr e ↦ rw e (record {
      core = told h s dead d.core;
      ordered = add_module-HasOrderedPeers h s a d.registry;
      same = (refl, refl, refl, refl, refl);
    })
  ]

  pub on_peer_dead-IsKept :
      (h : ModuleHandle) (d : Discovery C) → IsKept P d (on_peer_dead notify h d)
  unfolding on_peer_dead
  on_peer_dead-IsKept h d = elim (Bool-cases (is_stopping d)) [
    | inl e ↦ rw e (same-IsKept d)
    | inr e ↦ rw e (record {
      core = told h dead (get_peer_state h d.registry) d.core;
      ordered = remove_module-HasOrderedPeers h.unique_id d.registry;
      same = (refl, refl, refl, refl, refl);
    })
  ]

  pub send_state_multicast-IsKept : (d : Discovery C) → IsKept P d (send_state_multicast d)
  unfolding send_state_multicast
  send_state_multicast-IsKept d = elim (Bool-cases (is_stopping d)) [
    | inl e ↦ rw e (same-IsKept d)
    | inr e ↦
        rw e (record { core = λ p. p; ordered = λ s. s; same = (refl, refl, refl, refl, refl) })
  ]
