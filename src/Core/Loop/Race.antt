-- ===== src/Core/Loop/Race.antt =====
-- A request that comes in while the instance enables its module.
use zmf.Prelude.{
  ◌≡◌, refl, true, false, List, [], ◌∷◌, ◌++◌, none, some, ap, ◌∙◌, arith, Bool-cases, inl, inr,
}
use zmf.Data.UniqueId.{ModuleUniqueId}
use zmf.Data.RequestIdentity.{ExternalRequestIdentity}
use zmf.Data.MessageType.{contains_topic}
use zmf.Data.Message.{ZmfMessage}
use zmf.Module.{is_enabled}
use zmf.Dispatcher.State.{
  MessagingService, ModuleCode, RequestNotification, Dispatcher, delivery_request,
}
use zmf.Dispatcher.Control.{on_enable}
use zmf.Dispatcher.Incoming.{system_request, on_request_msg_received}
use zmf.Dispatcher.Delivery.{
  Progress, goes_on, waits, waits_for_mutex, left, deliver_request, delivery_round,
}
use zmf.Core.State.{Core, blocked, dispatcher}
use zmf.Core.Switch.{Switches, enable_module}
use zmf.Core.Running.Enabling.{on_enable_lem}
use zmf.Core.Loop.Stuck.{enable_module-blocked}

-- The dispatcher after a round of the delivery thread, or as it was if the thread waits.
abbrev pub after_round :
    {M U : Type 0} → Dispatcher M U → Progress (Dispatcher M U) → Dispatcher M U
after_round e (goes_on e') = e'
after_round e waits = e
after_round e waits_for_mutex = e
after_round e left = e

module _ {M U : Type 0} (svc : MessagingService M) (code : ModuleCode U)
    (module_switch : Switches M U) where
  -- The delivery thread runs and takes a request as soon as it comes in.
  abbrev pub request_between :
      ExternalRequestIdentity → ZmfMessage → ModuleUniqueId → Dispatcher M U → Dispatcher M U
  request_between id message sender e =
      let e' = (on_request_msg_received svc id message sender e).1 in
      after_round e' (delivery_round svc code e')

  dropped-locked :
      (before : List RequestNotification) (n : RequestNotification) (e d : Dispatcher M U)
      → is_enabled d.activity ≡ false
      → e.module_locked ≡ d.module_locked
      → (after_round e (deliver_request svc code (before ++ n ∷ []) d)).module_locked ≡ true
  unfolding deliver_request
  dropped-locked [] n e d off same = elim (Bool-cases d.module_locked) [
    | inl locked ↦ ground arith
    | inr free ↦ ground arith
  ]
  dropped-locked (m ∷ ms) n e d off same = elim (Bool-cases d.module_locked) [
    | inl locked ↦ ground arith
    | inr free ↦ ground arith
  ]

  request_between-locked :
      (id : ExternalRequestIdentity) (message : ZmfMessage) (sender : ModuleUniqueId)
      (e : Dispatcher M U)
      → contains_topic system_request message.type ≡ false
      → e.alive ≡ true
      → is_enabled e.activity ≡ false
      → (request_between id message sender e).module_locked ≡ true
  unfolding on_request_msg_received delivery_round
  request_between-locked id message sender e plain on off =
      let n : RequestNotification = record {
        message = message;
        peer_identity = sender;
        message_id = id;
      } in
      let e' : Dispatcher M U = record e {
        request_queue = e.request_queue ++ n ∷ [];
        meta_queue = delivery_request ∷ e.meta_queue;
      } in
      let q : on_request_msg_received svc id message sender e ≡ (some none, e') = ground arith in
      let p : delivery_round svc code e'
          ≡ deliver_request svc code (e.request_queue ++ n ∷ [])
              (record e' { meta_queue = e.meta_queue }) =
        ground arith in
      ap (λ r. (after_round r.1 (delivery_round svc code r.1)).module_locked) q
      ∙ ap (λ r. (after_round e' r).module_locked) p
      ∙ dropped-locked e.request_queue n e' (record e' { meta_queue = e.meta_queue }) off refl

  -- Where the module of an instance is neither active nor enabled, and a request that is no system
  -- message comes in after enableModule has started the delivery thread and is delivered before it
  -- locks the mutex of the module, enableModule waits for that mutex for ever. It must have been
  -- called without a check of the dependencies, as the loop of the instance calls it.
  pub request_while_enabling-blocked :
      (id : ExternalRequestIdentity) (message : ZmfMessage) (sender : ModuleUniqueId) (c : Core M U)
      → contains_topic system_request message.type ≡ false
      → c.module_active ≡ false
      → is_enabled (dispatcher c).activity ≡ false
      → enable_module svc
          (record module_switch { others = request_between id message sender })
          false
          c
        ≡ blocked
  request_while_enabling-blocked id message sender c plain inactive off =
      let k = on_enable_lem svc module_switch (dispatcher c) in
      enable_module-blocked svc code
        (record module_switch { others = request_between id message sender }) c inactive
        (request_between-locked id message sender (on_enable svc (dispatcher c)) plain k.0
          (ground arith))
