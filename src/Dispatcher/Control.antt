-- ===== src/Dispatcher/Control.antt =====
-- Starting, enabling, disabling and stopping the dispatcher, and the calls that a module makes.
-- A call that may throw returns whether it came to its end (or its result, `none` for an exception)
-- beside the dispatcher as the call leaves it; onDisable and stop may hang besides.
pub mod Calm
use zmf.Prelude.{
  ℕ, ◌+◌, ◌%◌, ◌^◌, Bool, true, false, Option, none, some, List, [], ◌∷◌, ◌&&◌, not, if◌then◌else◌,
}
use zmf.Prelude.Int.{ℤ}
use zmf.Prelude.Map.{Map, insert, erase, values}
use zmf.Data.UniqueId.{ModuleUniqueId}
use zmf.Data.UniqueId.Order.{number_key}
use zmf.Data.Handle.{ModuleHandle}
use zmf.Data.MessageType.{MessageType, contains_topic}
use zmf.Data.Message.{ZmfMessage}
use zmf.Dispatcher.State.{
  MessagingService, SubscriptionHandle, DeliveryMethod, delivery_event, delivery_request,
  delivery_state, EventNotification, Dispatcher,
}

-- getSubId: an `atomic_uint` that wraps.
abbrev pub next_counter : ℕ → ℕ
next_counter n = (n + 1) % 2 ^ 32

-- The loop of onDisable over the subscriptions, up to an exception.
pub unsubscribe_all : {M : Type 0} → MessagingService M → List SubscriptionHandle → M → Bool × M
unsubscribe_all svc [] m = (true, m)
unsubscribe_all svc (s ∷ subs) m = elim (svc.unsubscribe_topic s.topic m) [
  | none ↦ (false, m)
  | some m' ↦ unsubscribe_all svc subs m'
]

-- How onDisable and stop come out.
pub data Ending : Type 0 where
  ended threw hangs : Ending

abbrev pub is_empty : {A : Type 0} → List A → Bool
is_empty [] = true
is_empty (x ∷ xs) = false

-- Whether a subscription matches the first of the events, whose delivery then locks the module.
unfoldable pub event_locks : List EventNotification → List SubscriptionHandle → Bool
event_locks [] subs = false
event_locks (n ∷ ns) [] = false
event_locks (n ∷ ns) (s ∷ subs) =
    let others = event_locks (n ∷ ns) subs in
    if contains_topic s.topic n.message.type then true else others

-- The buffer size, where one is configured.
abbrev configured_or : Option ℤ → ℤ → ℤ
configured_or none n = n
configured_or (some size) n = size

module _ {M U : Type 0} (svc : MessagingService M) where
  open svc use {
    start_service, stop_service, peer_join, subscribe_topic, unsubscribe_topic, publish_message,
    send_request_to, disable_service,
  }

  abbrev with_service : M → Dispatcher M U → Dispatcher M U
  with_service m d = record d { msg_service = m }

  -- start: the module joins itself as a peer, once the messaging service has started.
  unfoldable pub start :
      ModuleHandle → Option ℤ → Dispatcher M U → Option Bool × ModuleHandle × Dispatcher M U
  start self_handle configured d =
      let sized : Dispatcher M U = record d {
        inmsg_buffer_size = configured_or configured d.inmsg_buffer_size;
      } in
      let (started, h, m) = start_service self_handle d.msg_service in
      elim started [
        | none ↦ (none, h, with_service m sized)
        | some false ↦ (some false, h, with_service m sized)
        | some true ↦ elim (peer_join h m) [
          | none ↦ (none, h, with_service m sized)
          | some m' ↦ (some true, h, with_service m' sized)
        ]
      ]

  -- onEnable; the delivery thread starts.
  unfoldable pub on_enable : Dispatcher M U → Dispatcher M U
  on_enable d = if d.alive then d else record d { alive = true }

  -- Whether the delivery of the next notification locks the module's mutex.
  unfoldable pub next_locks : List DeliveryMethod → Dispatcher M U → Bool
  next_locks [] d = false
  next_locks (delivery_event ∷ ms) d = event_locks d.event_queue (values d.subscriptions)
  next_locks (delivery_request ∷ ms) d = not (is_empty d.request_queue)
  next_locks (delivery_state ∷ ms) d = not (is_empty d.state_queue)

  -- The delivery thread waits for the mutex, which is locked, inside a delivery.
  abbrev pub awaits_mutex : Dispatcher M U → Bool
  awaits_mutex d = d.module_locked && next_locks d.meta_queue d

  -- onDisable, before the subscriptions: the delivery thread has been joined.
  abbrev cleared : Dispatcher M U → Dispatcher M U
  cleared d = record d {
    alive = false;
    meta_queue = [];
    event_queue = [];
    state_queue = [];
    request_queue = [];
  }

  -- onDisable, from the outcome of the loop over the subscriptions.
  end_disable : Bool × M → Dispatcher M U → Ending × Dispatcher M U
  end_disable (false, m) d = (threw, with_service m d)
  end_disable (true, m) d = elim (disable_service m) [
    | none ↦ (threw, record d { msg_service = m; subscriptions = [] })
    | some m' ↦ (ended, record d { msg_service = m'; subscriptions = [] })
  ]

  -- onDisable. The `join` hangs on a delivery thread that waits for the mutex; any other has
  -- nothing left to do once `alive_` is reset and leaves its loop.
  unfoldable pub on_disable : Dispatcher M U → Ending × Dispatcher M U
  unfolding end_disable unsubscribe_all
  on_disable d =
      if not d.alive
      then (ended, d)
      else if awaits_mutex d
      then (hangs, record d { alive = false })
      else end_disable (unsubscribe_all svc (values d.subscriptions) d.msg_service) (cleared d)

  -- The end of stop, behind `onDisable`.
  end_stop : Ending × Dispatcher M U → Ending × Dispatcher M U
  end_stop (ended, d) = (ended, with_service (stop_service d.msg_service) d)
  end_stop (threw, d) = (threw, d)
  end_stop (hangs, d) = (hangs, d)

  -- stop
  unfoldable pub stop : Dispatcher M U → Ending × Dispatcher M U
  unfolding end_stop
  stop d = end_stop (on_disable d)

  -- subscribe: the handle takes its number from `getSubId` and is put into the map, which keeps an
  -- older handle of that number; then the messaging service subscribes to the topic.
  unfoldable pub subscribe :
      MessageType → ℕ → Dispatcher M U → Option SubscriptionHandle × Dispatcher M U
  subscribe topic callback_id d =
      let handle : SubscriptionHandle = record {
        sub_id = d.sub_counter;
        topic = topic;
        callback_id = callback_id;
      } in
      let d' : Dispatcher M U = record d {
        sub_counter = next_counter d.sub_counter;
        subscriptions = insert handle.sub_id handle d.subscriptions;
      } in
      if d.alive
      then elim (subscribe_topic topic d.msg_service) [
        | none ↦ (none, d')
        | some m ↦ (some handle, with_service m d')
      ]
      else (none, d)

  -- unsubscribe
  unfoldable pub unsubscribe : SubscriptionHandle → Dispatcher M U → Bool × Dispatcher M U
  unsubscribe handle d =
      let d' : Dispatcher M U = record d { subscriptions = erase handle.sub_id d.subscriptions } in
      if d.alive
      then elim (unsubscribe_topic handle.topic d.msg_service) [
        | none ↦ (false, d')
        | some m ↦ (true, with_service m d')
      ]
      else (false, d)

  -- publish
  unfoldable pub publish : ZmfMessage → Dispatcher M U → Bool × Dispatcher M U
  publish msg d =
      if d.alive
      then elim (publish_message msg d.msg_service) [
        | none ↦ (false, d)
        | some m ↦ (true, with_service m d)
      ]
      else (false, d)

  -- sendRequest
  unfoldable pub send_request :
      ModuleUniqueId → ZmfMessage → Dispatcher M U → Option ℕ × Dispatcher M U
  send_request target msg d =
      if d.alive
      then elim (send_request_to target msg d.msg_service) [
        | none ↦ (none, d)
        | some (id, m) ↦ (some id, with_service m d)
      ]
      else (none, d)
