-- ===== src/Discovery/Runs/Health.antt =====
-- A running service as it should be, and a peer that grows old in it.
use zmf.Prelude.{
  ℕ, ◌+◌, ◌≤◌, ◌<◌, ◌^◌, ltb, ◌≡◌, ◌≢◌, refl, true, ◌∙◌, subst, false, Bytes, Option, none, some,
  arith, Bool-cases, inl, inr, if◌then◌else◌,
}
use zmf.Data.UniqueId.{ModuleUniqueId}
use zmf.Data.UniqueId.Order.{id_key}
use zmf.Registry.Ordered.{HasOrderedPeers}
use zmf.Registry.View.{Entry, view}
use zmf.Discovery.State.{StateBroadcast, Discovery, is_stopping, sender_id, is_loopback}
use zmf.Discovery.Service.{send_state_multicast}
use zmf.Discovery.Receive.Soundness.{IsSound}

-- A running service with a sound directory, whose map of peers is in order.
abbrev pub IsHealthy : {C : Type 0} → Discovery C → Type 0
IsHealthy d = IsSound d × HasOrderedPeers d.registry × (is_stopping d ≡ false)

-- The broadcast comes from another host.
abbrev pub IsRemote : Option (StateBroadcast × Bytes) → Type 0
IsRemote none = Unit
IsRemote (some (b, ip)) = is_loopback ip ≡ false

-- The broadcast is not one of the peer with the id.
abbrev pub IsOther : ModuleUniqueId → Option (StateBroadcast × Bytes) → Type 0
IsOther id none = Unit
IsOther id (some (b, ip)) = sender_id b ≢ id

-- A registered peer and its timeout.
abbrev pub HasPeer : {C : Type 0} → ModuleUniqueId → Entry → ℕ → Discovery C → Type 0
HasPeer id e timeout d = (view d.registry id ≡ some e) × (d.timeouts e.handle.ref ≡ timeout)

-- The peer is there with a timeout, unless that is over the limit.
abbrev pub IsAged : {C : Type 0} → ℕ → ModuleUniqueId → Entry → ℕ → Discovery C → Type 0
IsAged limit id e timeout d =
    if ltb limit timeout then view d.registry id ≡ none else HasPeer id e timeout d

-- A timeout after a round, where the peer was not heard in it.
abbrev pub grown : ℕ → ℕ → ℕ → ℕ
grown frequency time_diff timeout = if ltb frequency time_diff then timeout + frequency else timeout

-- What a peer that a service did not hear is to it afterwards.
abbrev pub IsSilent : {C : Type 0} → ModuleUniqueId → ℕ → Discovery C → Discovery C → Type 0
IsSilent id time_diff d d' =
    (view d.registry id ≡ none → view d'.registry id ≡ none)
    × ((e : Entry) (timeout : ℕ)
        → HasPeer id e timeout d
        → timeout ≤ d.peer_timeout
        → d.peer_timeout + d.multicast_frequency < 2 ^ 32
        → IsAged d.peer_timeout id e (grown d.multicast_frequency time_diff timeout) d')

module _ {C : Type 0} where
  pub send_state_multicast-sent :
      (d : Discovery C)
      → is_stopping d ≡ false
      → send_state_multicast d ≡ record d { sent = (send_state_multicast d).sent }
  unfolding send_state_multicast
  send_state_multicast-sent d running = rw running refl

  pub IsAged-late :
      (limit : ℕ) (id : ModuleUniqueId) (e : Entry) (t : ℕ) (d : Discovery C)
      → ltb limit t ≡ true
      → IsAged limit id e t d
      → view d.registry id ≡ none
  IsAged-late limit id e t d late aged =
      subst (λ x. if x then view d.registry id ≡ none else HasPeer id e t d) late aged

  pub IsAged-low :
      (limit : ℕ) (id : ModuleUniqueId) (e : Entry) (t : ℕ) (d : Discovery C)
      → ltb limit t ≡ false
      → IsAged limit id e t d
      → HasPeer id e t d
  IsAged-low limit id e t d low aged =
      subst (λ x. if x then view d.registry id ≡ none else HasPeer id e t d) low aged

  pub IsAged-of :
      (limit : ℕ) (id : ModuleUniqueId) (e : Entry) (t : ℕ) (d : Discovery C)
      → view d.registry id ≡ (if ltb limit t then none else some e)
      → d.timeouts e.handle.ref ≡ t
      → IsAged limit id e t d
  IsAged-of limit id e t d p q = elim (Bool-cases (ltb limit t)) [
    | inl late ↦ let r : view d.registry id ≡ none = ground arith in rw late r
    | inr low ↦ let r : view d.registry id ≡ some e = ground arith in rw low (r, q)
  ]

  -- Where the entry and the timeout are the same, the peer is the same.
  pub IsAged-same :
      (limit : ℕ) (id : ModuleUniqueId) (e : Entry) (t : ℕ) (d d' : Discovery C)
      → view d'.registry id ≡ view d.registry id
      → (view d.registry id ≡ some e → d'.timeouts e.handle.ref ≡ d.timeouts e.handle.ref)
      → IsAged limit id e t d
      → IsAged limit id e t d'
  IsAged-same limit id e t d d' p q aged = elim (Bool-cases (ltb limit t)) [
    | inl late ↦
        let gone : view d.registry id ≡ none = IsAged-late limit id e t d late aged in
        rw late (p ∙ gone)
    | inr low ↦
        let there : HasPeer id e t d = IsAged-low limit id e t d low aged in
        rw low (p ∙ there.0, q there.0 ∙ there.1)
  ]
