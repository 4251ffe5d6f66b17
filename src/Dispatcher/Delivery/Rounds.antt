-- ===== src/Dispatcher/Delivery/Rounds.antt =====
-- What the delivery of one notification does.
use zmf.Prelude.{◌≡◌, refl, true, false, List, [], ◌∷◌, arith, Bool-cases, inl, inr, if◌then◌else◌}
use zmf.Prelude.Map.{values}
use zmf.Data.UniqueId.Order.{number_key}
use zmf.Data.MessageType.{contains_topic}
use zmf.Module.{is_enabled}
use zmf.Dispatcher.State.{
  MessagingService, ModuleCode, SubscriptionHandle, EventNotification, RequestNotification,
  StateNotification, Dispatcher,
}
use zmf.Dispatcher.Delivery.{
  goes_on, waits_for_mutex, deliver_to, deliver_event, deliver_request, deliver_state,
}

-- The callbacks of the subscriptions that contain a topic, called in their order.
abbrev pub call_all :
    {U : Type 0} → ModuleCode U → EventNotification → List SubscriptionHandle → U → U
call_all code n [] u = u
call_all code n (s ∷ subs) u =
    if contains_topic s.topic n.message.type
    then call_all code n subs (code.callback s.callback_id n.message n.peer_identity u)
    else call_all code n subs u

module _ {M U : Type 0} (svc : MessagingService M) (code : ModuleCode U) where
  deliver_to-enabled :
      (n : EventNotification) (subs : List SubscriptionHandle) (d : Dispatcher M U)
      → d.module_locked ≡ false
      → is_enabled d.activity ≡ true
      → deliver_to svc code n subs d
        ≡ goes_on (record d { module_state = call_all code n subs d.module_state })
  unfolding deliver_to
  deliver_to-enabled n [] d free on = refl
  deliver_to-enabled n (s ∷ subs) d free on =
      elim (Bool-cases (contains_topic s.topic n.message.type)) [
        | inr e ↦ ground (arith, deliver_to-enabled n subs d free on)
        | inl e ↦ ground (
          arith,
          deliver_to-enabled n subs
              (record d {
                module_state = code.callback s.callback_id n.message n.peer_identity d.module_state;
              })
              free on,
        )
      ]

  deliver_to-disabled :
      (n : EventNotification) (subs : List SubscriptionHandle) (d : Dispatcher M U)
      → d.module_locked ≡ false
      → is_enabled d.activity ≡ false
      → deliver_to svc code n subs d ≡ goes_on d
  unfolding deliver_to
  deliver_to-disabled n [] d free on = refl
  deliver_to-disabled n (s ∷ subs) d free on =
      elim (Bool-cases (contains_topic s.topic n.message.type)) [
        | inr e ↦ ground (arith, deliver_to-disabled n subs d free on)
        | inl e ↦ ground (arith, deliver_to-disabled n subs d free on)
      ]

  -- While the module's mutex is free, the delivery of an event takes it off its queue and calls, if
  -- the module is enabled, the callbacks of exactly the subscriptions whose topic contains that of
  -- the message, each once and in the order of their numbers; nothing else changes, and the mutex
  -- is free again.
  pub deliver_event_lem :
      (n : EventNotification) (rest : List EventNotification) (d : Dispatcher M U)
      → d.module_locked ≡ false
      → deliver_event svc code (n ∷ rest) d
        ≡ goes_on (record d {
          event_queue = rest;
          module_state =
              if is_enabled d.activity
              then call_all code n (values d.subscriptions) d.module_state
              else d.module_state;
        })
  unfolding deliver_event
  deliver_event_lem n rest d free = elim (Bool-cases (is_enabled d.activity)) [
    | inl on ↦
        rw on
          (deliver_to-enabled n (values d.subscriptions) (record d { event_queue = rest }) free on)
    | inr off ↦
        rw off (
          deliver_to-disabled n (values d.subscriptions) (record d { event_queue = rest }) free off)
  ]

  -- A request that is delivered to a module that is not enabled is dropped with the module's mutex
  -- locked, after which every delivery of a request or of a state change waits for the mutex.
  pub deliver_request-mutex :
      (n m : RequestNotification) (k : StateNotification) (rest ms : List RequestNotification)
      (ks : List StateNotification) (d : Dispatcher M U)
      → d.module_locked ≡ false
      → is_enabled d.activity ≡ false
      → (d' : Dispatcher M U) × (deliver_request svc code (n ∷ rest) d ≡ goes_on d')
        × (d'.request_queue ≡ rest)
        × (d'.module_locked ≡ true)
        × (deliver_request svc code (m ∷ ms) d' ≡ waits_for_mutex)
        × (deliver_state svc code (k ∷ ks) d' ≡ waits_for_mutex)
  unfolding deliver_request deliver_state
  deliver_request-mutex n m k rest ms ks d free off = (
    record d { request_queue = rest; module_locked = true },
    ground arith,
    refl,
    refl,
    refl,
    refl,
  )
