-- ===== src/Discovery/Runs/Rounds.antt =====
-- One round of the loop of a running service: it comes to its end, the service stays as it should
-- be, and a peer that was not heard in the round is older.
use zmf.Prelude.{
  ℕ, ◌+◌, ◌≤◌, ◌<◌, ◌^◌, ltb, ◌≡◌, ◌≢◌, refl, sym, ap, ◌∙◌, subst, false, Bytes, Option, none, some,
  arith, Bool-cases, Option-cases, inl, inr, if◌then◌else◌,
}
use zmf.Prelude.Map.{same, same_iff}
use zmf.Data.UniqueId.{ModuleUniqueId}
use zmf.Data.UniqueId.Order.{id_key}
use zmf.Registry.View.{Entry, view}
use zmf.Discovery.State.{
  StateBroadcast, Discovery, PeerStateChange, new_handle, sender_id, is_loopback,
}
use zmf.Discovery.Service.{send_state_multicast}
use zmf.Discovery.Kept.{IsKept, IsSameService}
use zmf.Discovery.Receive.{is_ignored, process_incoming_multicast}
use zmf.Discovery.Receive.Soundness.{IsSound}
use zmf.Discovery.Receive.Effects.{Heard, known, peer, handle_or_new}
use zmf.Discovery.Receive.Process.{process_incoming_multicast_lem}
use zmf.Discovery.Timeouts.{update_peer_timeouts, loop_round}
use zmf.Discovery.Timeouts.Kept.{tended, loop_round-IsKept}
use zmf.Discovery.Timeouts.Round.{update_peer_timeouts_lem}
use zmf.Discovery.Runs.Health.{
  IsHealthy, IsRemote, IsOther, HasPeer, grown, IsSilent, send_state_multicast-sent, IsAged-of,
  IsAged-same,
}

module _ {C : Type 0} (notify : PeerStateChange C) where
  due_round :
      (d : Discovery C)
      → IsHealthy d
      → let d' = update_peer_timeouts notify (send_state_multicast d) in
        IsSound d'
        × ((id : ModuleUniqueId) → view d.registry id ≡ none → view d'.registry id ≡ none)
        × ((id : ModuleUniqueId) (e : Entry) (t : ℕ)
            → HasPeer id e t d
            → t ≤ d.peer_timeout
            → d.peer_timeout + d.multicast_frequency < 2 ^ 32
            → (view d'.registry id
                ≡ (if ltb d.peer_timeout (t + d.multicast_frequency) then none else some e))
              × (d'.timeouts e.handle.ref ≡ t + d.multicast_frequency))
  due_round d (v, s, running) =
      let q = send_state_multicast-sent d running in
      let d1 : Discovery C = record d { sent = (send_state_multicast d).sent } in
      let r =
        update_peer_timeouts_lem notify d1
          (record { consistent = v.consistent; directory = v.directory }) s running in
      rw q (
        r.0,
        λ j p. r.2 j ∙ ground (arith, p),
        λ id e t has low bound. (r.2 id ∙ ground arith, r.4 id e has.0 ∙ ground arith),
      )

  tended_lem :
      (time_diff : ℕ) (d : Discovery C)
      → IsHealthy d
      → let d' = tended notify time_diff d in
        IsSound d' × ((id : ModuleUniqueId) → IsSilent id time_diff d d')
  tended_lem time_diff d healthy = elim (Bool-cases (ltb d.multicast_frequency time_diff)) [
    | inr early ↦ rw early (
      healthy.0,
      λ id. (λ p. p, λ e t has low bound. IsAged-of d.peer_timeout id e t d (ground arith) has.1),
    )
    | inl due ↦
        let r = due_round d healthy in
        rw due (
          r.0,
          λ id. (
            r.1 id,
            λ e t has low bound.
                let (p, q) = r.2 id e t has low bound in
                IsAged-of d.peer_timeout id e (t + d.multicast_frequency)
                  (update_peer_timeouts notify (send_state_multicast d)) p q,
          ),
        )
  ]

  -- Another peer has another object than the sender of a broadcast.
  other_object :
      (b : StateBroadcast) (ip : Bytes) (d : Discovery C) (id : ModuleUniqueId) (e : Entry)
      → IsSound d
      → sender_id b ≢ id
      → view d.registry id ≡ some e
      → e.handle.ref ≢ (peer notify b ip d).ref
  unfolding new_handle
  other_object b ip d id e v other p q = elim (Option-cases (known notify b ip d)) [
    | inl new ↦
        let below = v.directory.allocated id e p in
        let r : (peer notify b ip d).ref ≡ d.next_ref =
          ap (λ o. (handle_or_new b ip d.next_ref o).ref) new in
        absurd (omega (arith, below, q, r))
    | inr (f, old) ↦
        let r : (peer notify b ip d).ref ≡ f.handle.ref =
          ap (λ o. (handle_or_new b ip d.next_ref o).ref) old in
        other (v.directory.distinct (sender_id b) id f e old p (sym r ∙ sym q))
  ]

  -- What a broadcast of one peer leaves of another.
  others_same :
      (b : StateBroadcast) (ip : Bytes) (d d' : Discovery C) (id : ModuleUniqueId)
      → IsSound d
      → sender_id b ≢ id
      → Heard notify b ip d d'
      → (view d'.registry id ≡ view d.registry id)
        × ((e : Entry)
            → view d.registry id ≡ some e
            → d'.timeouts e.handle.ref ≡ d.timeouts e.handle.ref)
  others_same b ip d d' id v other h = (
    h.directory id ∙ ground (arith, same_iff (sender_id b) id),
    λ e p. h.timed e.handle.ref ∙ ground (arith, other_object b ip d id e v other p),
  )

  IsHealthy-kept :
      (d d' : Discovery C) → IsHealthy d → IsSound d' → IsKept (λ c. Unit {0}) d d' → IsHealthy d'
  IsHealthy-kept d d' healthy v k =
      let same = k.same in (v, k.ordered healthy.1, rw (same.1, same.2) healthy.2)

  -- A broadcast of another host, between two rounds.
  process_lem :
      (b : StateBroadcast) (ip : Bytes) (d : Discovery C)
      → IsSound d
      → is_loopback ip ≡ false
      → (d' : Discovery C) × (process_incoming_multicast notify b ip d ≡ some d')
        × IsSound d'
        × ((id : ModuleUniqueId)
            → sender_id b ≢ id
            → (view d'.registry id ≡ view d.registry id)
              × ((e : Entry)
                  → view d.registry id ≡ some e
                  → d'.timeouts e.handle.ref ≡ d.timeouts e.handle.ref))
  process_lem b ip d v remote =
      let (d', q, h) = process_incoming_multicast_lem notify b ip d v remote in
      elim (Bool-cases (is_ignored b d)) [
        | inl g ↦
            let p : d' ≡ d = subst (λ x. if x then d' ≡ d else Heard notify b ip d d') g h in
            (d, q ∙ ap some p, v, λ id other. (refl, λ e has. refl))
        | inr g ↦
            let k : Heard notify b ip d d' =
              subst (λ x. if x then d' ≡ d else Heard notify b ip d d') g h in
            (d', q, k.sound, λ id other. others_same b ip d d' id v other k)
      ]

  quiet_round :
      (time_diff : ℕ) (input : Option (StateBroadcast × Bytes)) (d : Discovery C)
      → IsHealthy d
      → IsRemote input
      → (d' : Discovery C) × (loop_round notify time_diff input d ≡ some d')
        × IsSound d'
        × ((id : ModuleUniqueId) → IsOther id input → IsSilent id time_diff d d')
  unfolding loop_round
  quiet_round time_diff none d healthy remote =
      let r = tended_lem time_diff d healthy in
      (tended notify time_diff d, refl, r.0, λ id other. r.1 id)
  quiet_round time_diff (some (b, ip)) d healthy remote =
      let r = tended_lem time_diff d healthy in
      let (d', q, v, f) = process_lem b ip (tended notify time_diff d) r.0 remote in
      (
        d',
        q,
        v,
        λ id other.
            let (same, object) = f id other in
            let (gone, aged) = r.1 id in
            (
              λ p. same ∙ gone p,
              λ e t has low bound.
                  IsAged-same d.peer_timeout id e (grown d.multicast_frequency time_diff t)
                    (tended notify time_diff d) d' same (object e) (aged e t has low bound),
            ),
      )

  -- A round comes to its end; the service is healthy after it, and has the same settings; and what
  -- a peer that was not heard in it is to the service is told by `IsSilent`.
  pub loop_round_lem :
      (time_diff : ℕ) (input : Option (StateBroadcast × Bytes)) (d : Discovery C)
      → IsHealthy d
      → IsRemote input
      → (d' : Discovery C) × (loop_round notify time_diff input d ≡ some d')
        × IsHealthy d'
        × IsSameService d d'
        × ((id : ModuleUniqueId) → IsOther id input → IsSilent id time_diff d d')
  loop_round_lem time_diff input d healthy remote =
      let (d', q, v, f) = quiet_round time_diff input d healthy remote in
      let k = loop_round-IsKept notify (λ c. Unit {0}) (λ h n l c p. tt) time_diff input d d' q in
      (d', q, IsHealthy-kept d d' healthy v k, k.same, f)
