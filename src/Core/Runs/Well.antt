-- ===== src/Core/Runs/Well.antt =====
-- What a call or a round of the discovery service keeps of a running instance.
use zmf.Prelude.{
  ℕ, ◌≡◌, refl, false, sym, subst, ◌∙◌, Bytes, Option, some, arith, Option-cases, inl, inr,
}
use zmf.Data.UniqueId.{ModuleUniqueId}
use zmf.Data.RequestIdentity.{ExternalRequestIdentity}
use zmf.Data.Message.{ZmfMessage}
use zmf.Data.Handle.{ModuleHandle, ModuleState}
use zmf.Dispatcher.State.{MessagingService, Dispatcher}
use zmf.Dispatcher.Control.Calm.{IsCalm}
use zmf.Dispatcher.Incoming.{ControlRequest, on_request_msg_received}
use zmf.Dispatcher.Steady.{
  IsSteady, IsSameModule, IsTame, on_request_msg_received-IsTame, on_peer_change-IsTame,
}
use zmf.Discovery.State.{StateBroadcast, Discovery, is_stopping}
use zmf.Registry.Consistent.{IsConsistent}
use zmf.Registry.Ordered.{HasOrderedPeers}
use zmf.Registry.View.{view}
use zmf.Discovery.Receive.Soundness.{IsSound, IsSoundDirectory}
use zmf.Discovery.Timeouts.{loop_round}
use zmf.Discovery.Timeouts.Kept.{loop_round-IsKept}
use zmf.Discovery.Runs.Health.{IsHealthy, IsRemote}
use zmf.Discovery.Runs.Rounds.{loop_round_lem}
use zmf.Core.State.{Core, dispatcher, with_dispatcher}
use zmf.Core.Running.{IsRunning}
use zmf.Core.Loop.Frames.{IsSameDirectory}
use zmf.Core.Requests.{
  request_enable_module, request_disable_module, request_stop_instance, obey, receive_request,
  peer_state_change,
}

-- A running instance whose discovery service runs with a sound directory.
abbrev pub IsWell : {M U : Type 0} {svc : MessagingService M} → IsCalm svc → Core M U → Type 0
IsWell calm c = IsRunning calm c × IsHealthy c.discovery

pub IsHealthy-with :
    {C D : Type 0} (d : Discovery C) (d' : Discovery D)
    → IsSound d
    → HasOrderedPeers d.registry
    → (d'.registry ≡ d.registry)
    → (d'.next_ref ≡ d.next_ref)
    → is_stopping d' ≡ false
    → IsHealthy d'
IsHealthy-with d d' v s p q runs = (
  record {
    consistent = subst IsConsistent (sym p) v.consistent;
    directory =
        subst (λ n. IsSoundDirectory n (view d'.registry)) (sym q)
          (subst (λ r. IsSoundDirectory d.next_ref (view r)) (sym p) v.directory);
  },
  subst HasOrderedPeers (sym p) s,
  runs,
)

pub IsHealthy-same :
    {C D : Type 0} (d : Discovery C) (d' : Discovery D)
    → (d'.registry ≡ d.registry)
    → (d'.next_ref ≡ d.next_ref)
    → is_stopping d' ≡ is_stopping d
    → IsHealthy d
    → IsHealthy d'
IsHealthy-same d d' p q r (v, s, runs) = IsHealthy-with d d' v s p q (r ∙ runs)

module _ {M U : Type 0} (svc : MessagingService M) (calm : IsCalm svc) where
  -- A call that leaves the module as it is.
  pub IsWell-with_dispatcher :
      (c : Core M U) (e : Dispatcher M U)
      → IsWell calm c
      → IsTame svc calm (dispatcher c) e
      → IsWell calm (with_dispatcher e c)
  IsWell-with_dispatcher c e well (up, same) =
      let (running, (v, s, runs)) = well in
      (
        (up running.0, ground arith),
        (record { consistent = v.consistent; directory = v.directory }, s, runs),
      )

  -- A change of the flags of the core, and of what the service broadcasts.
  pub IsWell-flags :
      (c c' : Core M U)
      → IsWell calm c
      → dispatcher c' ≡ dispatcher c
      → c'.module_active ≡ c.module_active
      → c'.discovery.self_state ≡ c.discovery.self_state
      → IsSameDirectory c.discovery c'.discovery
      → IsWell calm c'
  IsWell-flags c c' well p q r same =
      let (up, coherent) = well.0 in
      (
        (subst (λ e. calm.IsUp e.msg_service) (sym p) up, ground arith),
        IsHealthy-same c.discovery c'.discovery same.0 same.1 (ground arith) well.1,
      )

  -- The core as a call of `peerStateChange` leaves it, seen from an earlier one.
  abbrev IsTold : Dispatcher M U → Dispatcher M U → Type 0
  IsTold e e' = calm.IsUp e'.msg_service × IsSameModule e e'

  module _ (steady : IsSteady calm) where
    told :
        (e0 : Dispatcher M U) (h : ModuleHandle) (new_state last_state : ModuleState)
        (e : Dispatcher M U)
        → IsTold e0 e
        → IsTold e0 (peer_state_change svc h new_state last_state e)
    unfolding peer_state_change
    told e0 h new_state last_state e (up, same) =
        let (still, k) = on_peer_change-IsTame svc calm steady h new_state last_state e in
        (still up, (k.0 ∙ same.0, k.1 ∙ same.1, k.2 ∙ same.2))

    pub IsWell-discovery_loop :
        (time_diff : ℕ) (input : Option (StateBroadcast × Bytes)) (c : Core M U)
        (d : Discovery (Dispatcher M U))
        → IsWell calm c
        → IsRemote input
        → loop_round (peer_state_change svc) time_diff input c.discovery ≡ some d
        → IsWell calm (record c { discovery = d })
    IsWell-discovery_loop time_diff input c d (running, healthy) remote q =
        let (d1, p, healthy1, same1, silent) =
          loop_round_lem (peer_state_change svc) time_diff input c.discovery healthy remote in
        let here : d1 ≡ d = ground arith in
        let k =
          loop_round-IsKept (peer_state_change svc) (IsTold (dispatcher c)) (told (dispatcher c))
            time_diff input c.discovery d q in
        let (up, same) = k.core (running.0, (refl, refl, refl)) in
        ((up, ground (arith, k.same)), subst IsHealthy here healthy1)

    pub IsWell-obey :
        (request : Option ControlRequest) (c : Core M U)
        → IsWell calm c
        → IsWell calm (obey request c)
    unfolding obey request_enable_module request_disable_module request_stop_instance
    IsWell-obey request c well =
        IsWell-flags c (obey request c) well (ground arith) (ground arith) (ground arith)
          (ground arith)

    pub IsWell-receive_request :
        (id : ExternalRequestIdentity) (message : ZmfMessage) (sender : ModuleUniqueId)
        (c c' : Core M U)
        → IsWell calm c
        → receive_request svc id message sender c ≡ some c'
        → IsWell calm c'
    unfolding receive_request
    IsWell-receive_request id message sender c c' well q =
        let r = on_request_msg_received svc id message sender (dispatcher c) in
        let k =
          IsWell-with_dispatcher c r.1 well
            (on_request_msg_received-IsTame svc calm steady id message sender (dispatcher c)) in
        elim (Option-cases r.0) [
          | inl p ↦ absurd (ground arith)
          | inr (request, p) ↦
              let here : obey request (with_dispatcher r.1 c) ≡ c' = ground arith in
              subst (IsWell calm) here (IsWell-obey request (with_dispatcher r.1 c) k)
        ]
