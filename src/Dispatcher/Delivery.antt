-- ===== src/Dispatcher/Delivery.antt =====
-- deliveryLoop: one notification at a time, from the meta queue to the module.
pub mod Rounds
pub mod Steady
pub mod Balance
pub mod Replay
pub mod Drained
pub mod Joined
use zmf.Prelude.{ℕ, zero, suc, Bool, true, false, Option, none, some, List, [], ◌∷◌, if◌then◌else◌}
use zmf.Prelude.Map.{Map, values}
use zmf.Data.Message.{ZmfMessage}
use zmf.Data.UniqueId.{ModuleUniqueId}
use zmf.Data.UniqueId.Order.{number_key}
use zmf.Data.MessageType.{contains_topic}
use zmf.Data.RequestIdentity.{ExternalRequestIdentity}
use zmf.Data.Reply.{ZmfOutReply, immediate_reply, future_reply, no_reply}
use zmf.Module.{Activity, is_enabled}
use zmf.Dispatcher.State.{
  MessagingService, ModuleCode, SubscriptionHandle, DeliveryMethod, delivery_event,
  delivery_request, delivery_state, EventNotification, RequestNotification, StateNotification,
  Dispatcher,
}

-- What a piece of the delivery thread comes to: it goes on with a state, it waits on an empty
-- queue, it waits for the module's mutex, or it has left its loop.
pub data Progress {ℓ} (A : Type ℓ) : Type ℓ where
  goes_on : A → Progress A
  waits : Progress A
  waits_for_mutex : Progress A
  left : Progress A

module _ {M U : Type 0} (svc : MessagingService M) (code : ModuleCode U) where
  open svc use {send_reply, inject_reply}
  open code use {callback, handle_request, handle_state_change}

  -- The loop of deliverEvent. Each matching subscription locks the module and lets it go again; an
  -- exception of the callback is caught.
  deliver_to :
      EventNotification → List SubscriptionHandle → Dispatcher M U → Progress (Dispatcher M U)
  deliver_to n [] d = goes_on d
  deliver_to n (s ∷ subs) d = elim (contains_topic s.topic n.message.type) [
    | false ↦ deliver_to n subs d
    | true ↦ elim d.module_locked [
      | true ↦ waits_for_mutex
      | false ↦ deliver_to n subs (
          if is_enabled d.activity
          then record d {
            module_state = callback s.callback_id n.message n.peer_identity d.module_state;
          }
          else d)
    ]
  ]

  -- deliverEvent
  unfoldable pub deliver_event : List EventNotification → Dispatcher M U → Progress (Dispatcher M U)
  unfolding deliver_to
  deliver_event [] d = waits
  deliver_event (n ∷ rest) d =
      deliver_to n (values d.subscriptions) (record d { event_queue = rest })

  -- The reply of a module; an exception of the messaging service is caught.
  give_reply : ExternalRequestIdentity → ZmfOutReply → Dispatcher M U → Dispatcher M U
  give_reply id (immediate_reply reply) d = elim (send_reply id reply d.msg_service) [
    | none ↦ d
    | some m ↦ record d { msg_service = m }
  ]
  give_reply id future_reply d = record d { msg_service = inject_reply id d.msg_service }
  give_reply id no_reply d = d

  -- The module's answer, with the module unlocked.
  answer_request :
      ExternalRequestIdentity → Option ZmfOutReply × U → Dispatcher M U → Dispatcher M U
  unfolding give_reply
  answer_request id (some reply, u) d =
      give_reply id reply (record d { module_state = u; module_locked = false })
  answer_request id (none, u) d = record d { module_state = u; module_locked = false }

  -- deliverRequest: the mutex is locked before the test on the module, and is let go inside the
  -- branch of an enabled module only.
  unfoldable pub deliver_request :
      List RequestNotification → Dispatcher M U → Progress (Dispatcher M U)
  unfolding answer_request
  deliver_request [] d = waits
  deliver_request (n ∷ rest) d =
      if d.module_locked
      then waits_for_mutex
      else if is_enabled d.activity
      then goes_on (
          answer_request n.message_id (handle_request n.message n.peer_identity d.module_state)
            (record d { request_queue = rest; module_locked = true }))
      else goes_on (record d { request_queue = rest; module_locked = true })

  -- The call of the module's handler; where it throws, the `unlock` after it is not reached.
  state_changed : Bool × U → Dispatcher M U → Dispatcher M U
  state_changed (true, u) d = record d { module_state = u; module_locked = false }
  state_changed (false, u) d = record d { module_state = u; module_locked = true }

  -- deliverState
  unfoldable pub deliver_state : List StateNotification → Dispatcher M U → Progress (Dispatcher M U)
  unfolding state_changed
  deliver_state [] d = waits
  deliver_state (n ∷ rest) d =
      if d.module_locked
      then waits_for_mutex
      else if is_enabled d.activity
      then goes_on (
          state_changed
            (handle_state_change n.module_handle n.new_state n.last_state d.module_state)
            (record d { state_queue = rest }))
      else goes_on (record d { state_queue = rest })

  -- The `switch` of deliveryLoop.
  dispatch : DeliveryMethod → Dispatcher M U → Progress (Dispatcher M U)
  dispatch delivery_event d = deliver_event d.event_queue d
  dispatch delivery_request d = deliver_request d.request_queue d
  dispatch delivery_state d = deliver_state d.state_queue d

  next_of : List DeliveryMethod → Dispatcher M U → Progress (Dispatcher M U)
  unfolding dispatch
  next_of [] d = waits
  next_of (method ∷ rest) d = dispatch method (record d { meta_queue = rest })

  -- One round of deliveryLoop.
  unfoldable pub delivery_round : Dispatcher M U → Progress (Dispatcher M U)
  unfolding next_of
  delivery_round d = if d.alive then next_of d.meta_queue d else left

  -- Some rounds of deliveryLoop, up to the first that does not go on.
  unfoldable pub delivery_rounds : ℕ → Dispatcher M U → Progress (Dispatcher M U)
  delivery_rounds zero d = goes_on d
  delivery_rounds (suc n) d = elim (delivery_round d) [
    | goes_on d' ↦ delivery_rounds n d'
    | waits ↦ waits
    | waits_for_mutex ↦ waits_for_mutex
    | left ↦ left
  ]
