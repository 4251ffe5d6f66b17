-- ===== src/Core/Runs/Steps.antt =====
-- What every step of a running instance keeps.
use zmf.Prelude.{◌≡◌, refl, subst, some, arith}
use zmf.Dispatcher.State.{MessagingService, ModuleCode, Dispatcher}
use zmf.Dispatcher.Control.Calm.{IsCalm}
use zmf.Dispatcher.Incoming.{request_enable, request_disable, request_stop}
use zmf.Dispatcher.Delivery.{goes_on, delivery_round}
use zmf.Dispatcher.Delivery.Steady.{IsHandled, delivery_round-IsSmooth, IsSmooth}
use zmf.Dispatcher.Steady.{
  IsSteady, IsTame, on_sub_msg_received-IsTame, subscribe-IsTame, unsubscribe-IsTame,
  publish-IsTame, send_request-IsTame,
}
use zmf.Discovery.Service.{send_state_multicast, update_self_additional_state}
use zmf.Core.State.{Core, returned, dispatcher, with_dispatcher}
use zmf.Core.Switch.{Switches}
use zmf.Core.Running.{IsRunning, IsModest}
use zmf.Core.Loop.{instance_round}
use zmf.Core.Loop.Rounds.{instance_round_lem}
use zmf.Core.Loop.Frames.{instance_round-IsSameInstance}
use zmf.Core.Requests.{
  obey, on_module_additional_state_changed, force_state_broadcast, request_remote,
  core_send_request, core_subscribe, core_publish, remote_message,
}
use zmf.Core.Runs.{
  Step, instance_loop, delivery, discovery_loop, message_comes, request_comes, enable_asked,
  disable_asked, stop_asked, state_set, state_forced, subscribed, unsubscribed, published,
  requested, commanded,
}
use zmf.Core.Runs.Well.{
  IsWell, IsHealthy-same, IsWell-with_dispatcher, IsWell-flags, IsWell-discovery_loop, IsWell-obey,
  IsWell-receive_request,
}

module _ {M U : Type 0} (svc : MessagingService M) (calm : IsCalm svc) (steady : IsSteady calm)
    (module_switch : Switches M U) (modest : IsModest calm module_switch) (code : ModuleCode U)
    (handled : IsHandled code) where
  IsWell-instance_round :
      (others : Dispatcher M U → Dispatcher M U)
      → ((e : Dispatcher M U) → IsTame svc calm e (others e))
      → (c c' : Core M U) → IsWell calm c
      → instance_round svc (record module_switch { others = others }) c ≡ returned c'
      → IsWell calm c'
  IsWell-instance_round others tame c c' (running, healthy) q =
      let (c1, p, running1, round) =
        instance_round_lem svc (record module_switch { others = others }) calm
          (modest.0, modest.1, modest.2, modest.3, tame) c running in
      let here : c1 ≡ c' = ground arith in
      let same =
        instance_round-IsSameInstance svc (record module_switch { others = others }) c c' q in
      (
        subst (IsRunning calm) here running1,
        IsHealthy-same c.discovery c'.discovery same.0 same.1 (ground arith) healthy,
      )

  -- An instance that is well lets its delivery thread go on.
  pub well-IsSmooth :
      (c : Core M U)
      → IsWell calm c
      → IsSmooth svc code calm steady handled
          (dispatcher c)
          (delivery_round svc code (dispatcher c))
  well-IsSmooth c ((up, coherent), healthy) =
      delivery_round-IsSmooth svc code calm steady handled (dispatcher c) (λ on. ground arith)

  IsWell-delivery_round :
      (c : Core M U) (e : Dispatcher M U)
      → IsWell calm c
      → delivery_round svc code (dispatcher c) ≡ goes_on e
      → IsWell calm (with_dispatcher e c)
  IsWell-delivery_round c e well q =
      IsWell-with_dispatcher svc calm c e well
        (subst (IsSmooth svc code calm steady handled (dispatcher c)) q (well-IsSmooth c well))

  pub Step-IsWell :
      {c c' : Core M U} → Step svc calm module_switch code c c' → IsWell calm c → IsWell calm c'
  unfolding obey on_module_additional_state_changed update_self_additional_state
      force_state_broadcast send_state_multicast core_subscribe core_publish core_send_request
      request_remote
  Step-IsWell (instance_loop {c} {c'} others tame q) well =
      IsWell-instance_round others tame c c' well q
  Step-IsWell (delivery {c} {e} q) well = IsWell-delivery_round c e well q
  Step-IsWell (discovery_loop {c} {d} time_diff input remote q) well =
      IsWell-discovery_loop svc calm steady time_diff input c d well remote q
  Step-IsWell (message_comes {c} message sender) well =
      IsWell-with_dispatcher svc calm c _ well
        (on_sub_msg_received-IsTame svc calm message sender (dispatcher c))
  Step-IsWell (request_comes {c} {c'} id message sender q) well =
      IsWell-receive_request svc calm steady id message sender c c' well q
  Step-IsWell (enable_asked {c}) well = IsWell-obey svc calm steady (some request_enable) c well
  Step-IsWell (disable_asked {c}) well = IsWell-obey svc calm steady (some request_disable) c well
  Step-IsWell (stop_asked {c}) well = IsWell-obey svc calm steady (some request_stop) c well
  Step-IsWell (state_set {c} state) well =
      IsWell-flags svc calm c (on_module_additional_state_changed state c) well refl refl refl
        (refl, refl, refl, refl)
  Step-IsWell (state_forced {c}) well =
      IsWell-flags svc calm c (force_state_broadcast c) well (ground arith) (ground arith)
        (ground arith) (ground arith)
  Step-IsWell (subscribed {c} topic callback_id) well =
      IsWell-with_dispatcher svc calm c _ well
        (subscribe-IsTame svc calm steady topic callback_id (dispatcher c))
  Step-IsWell (unsubscribed {c} handle) well =
      IsWell-with_dispatcher svc calm c _ well
        (unsubscribe-IsTame svc calm steady handle (dispatcher c) well.0.0)
  Step-IsWell (published {c} msg) well =
      IsWell-with_dispatcher svc calm c _ well (publish-IsTame svc calm steady msg (dispatcher c))
  Step-IsWell (requested {c} target msg) well =
      IsWell-with_dispatcher svc calm c _ well
        (send_request-IsTame svc calm steady target msg (dispatcher c))
  Step-IsWell (commanded {c} request target) well =
      IsWell-with_dispatcher svc calm c _ well
        (send_request-IsTame svc calm steady target (remote_message request) (dispatcher c))
