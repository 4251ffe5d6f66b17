-- ===== src/Dispatcher/Examples.antt =====
-- The theorems on the dispatcher at a messaging service that counts what it is asked, and a module
-- that counts what reaches it.
use zmf.Prelude.{
  ◌≤◌, ◌++◌, ltb, ℕ, suc, ◌≡◌, refl, true, false, some, [], ◌∷◌, length, arith, if◌then◌else◌,
}
use zmf.Prelude.Int.{pos}
use zmf.Prelude.Map.{values}
use zmf.Data.UniqueId.Order.{number_key}
use zmf.Data.Handle.{inactive, active}
use zmf.Data.Message.{ZmfMessage}
use zmf.Data.Reply.{no_reply}
use zmf.Data.RequestIdentity.{ExternalRequestIdentity}
use zmf.Module.{disabled, enabled, is_enabled}
use zmf.Registry.Examples.{sensor}
use zmf.Dispatcher.State.{
  MessagingService, ModuleCode, EventNotification, RequestNotification, StateNotification,
  Dispatcher, delivery_event, delivery_request,
}
use zmf.Dispatcher.Control.Calm.{IsCalm}
use zmf.Dispatcher.Incoming.{on_sub_msg_received, on_request_msg_received, on_peer_change}
use zmf.Dispatcher.Incoming.Balance.{IsBalanced, incoming-IsBalanced}
use zmf.Dispatcher.Incoming.Bounds.{on_sub_msg_received_lem}
use zmf.Dispatcher.Delivery.{goes_on, waits, deliver_event, delivery_round, delivery_rounds}
use zmf.Dispatcher.Delivery.Rounds.{call_all, deliver_event_lem}
use zmf.Dispatcher.Delivery.Replay.{outcome}
use zmf.Dispatcher.Delivery.Drained.{IsEmpty, delivery_rounds_lem}
use zmf.Dispatcher.Steady.{IsSameModule}

abbrev pub service : MessagingService ℕ
service = record {
  start_service = λ h m. (some true, h, suc m);
  stop_service = λ m. m;
  peer_join = λ h m. some (suc m);
  peer_leave = λ h m. some m;
  subscribe_topic = λ t m. some m;
  unsubscribe_topic = λ t m. some m;
  publish_message = λ msg m. some (suc m);
  send_request_to = λ id msg m. some (m, suc m);
  send_reply = λ id msg m. some (suc m);
  inject_reply = λ id m. m;
  disable_service = λ m. some m;
}

abbrev pub service-IsCalm : IsCalm service
service-IsCalm = record {
  IsUp = λ m. Unit {0};
  unsubscribes = λ t m up. (m, refl, tt);
  disables = λ m up. (m, refl, tt);
}

abbrev pub code : ModuleCode ℕ
code = record {
  callback = λ id msg sender u. suc u;
  handle_request = λ msg sender u. (some no_reply, suc u);
  handle_state_change = λ h s t u. (true, suc u);
}

abbrev pub message : ZmfMessage
message = record { type = record { match = 5 ∷ 6 ∷ [] }; payload = 1 ∷ [] }

abbrev pub identity : ExternalRequestIdentity
identity = record { sender_id = sensor.unique_id; request_id = 4 }

abbrev event : EventNotification
event = record { message = message; peer_identity = sensor.unique_id }

abbrev pub request : RequestNotification
request = record { message = message; peer_identity = sensor.unique_id; message_id = identity }

abbrev change : StateNotification
change = record { module_handle = sensor; new_state = active; last_state = inactive }

abbrev pub idle : Dispatcher ℕ ℕ
idle = record {
  msg_service = 0;
  module_state = 0;
  activity = disabled;
  module_locked = false;
  alive = false;
  meta_queue = [];
  event_queue = [];
  request_queue = [];
  state_queue = [];
  subscriptions = [];
  sub_counter = 0;
  inmsg_buffer_size = pos 0;
}

abbrev busy : Dispatcher ℕ ℕ
busy = record idle {
  activity = enabled;
  alive = true;
  meta_queue = delivery_request ∷ delivery_event ∷ [];
  event_queue = event ∷ [];
  request_queue = request ∷ [];
  subscriptions =
      (0, record { sub_id = 0; topic = record { match = 5 ∷ [] }; callback_id = 0 }) ∷ [];
  sub_counter = 1;
}

deliver_event_lem_example :
    deliver_event service code (event ∷ []) busy
    ≡ goes_on (record busy {
      event_queue = [];
      module_state =
          if is_enabled busy.activity
          then call_all code event (values busy.subscriptions) busy.module_state
          else busy.module_state;
    })
deliver_event_lem_example = deliver_event_lem service code event [] busy refl

delivery_rounds_lem_example :
    (d' : Dispatcher ℕ ℕ) × (delivery_rounds service code 2 busy ≡ goes_on d')
    × IsEmpty d'
    × IsSameModule busy d'
    × ((d'.module_state, d'.msg_service) ≡ outcome service code busy)
    × (delivery_round service code d' ≡ waits)
delivery_rounds_lem_example =
    delivery_rounds_lem service code (λ h s t u. refl) 2 busy (refl, refl) refl (refl, refl, refl)
      refl

incoming-IsBalanced_example :
    IsBalanced (on_sub_msg_received service message sensor.unique_id busy)
    × IsBalanced (on_request_msg_received service identity message sensor.unique_id busy).1
    × IsBalanced (on_peer_change service sensor active inactive busy).1
incoming-IsBalanced_example =
    incoming-IsBalanced service message sensor.unique_id identity sensor active inactive busy
      (refl, refl, refl)

abbrev bounded : Dispatcher ℕ ℕ
bounded = record busy { inmsg_buffer_size = pos 2 }

on_sub_msg_received_lem_example :
    let d' = on_sub_msg_received service message sensor.unique_id bounded in
    (d'.event_queue ≡ (
      if ltb (length bounded.event_queue) 2
      then bounded.event_queue ++ event ∷ []
      else bounded.event_queue))
    × (length d'.event_queue ≤ 2)
on_sub_msg_received_lem_example =
    on_sub_msg_received_lem service message sensor.unique_id bounded 2 refl refl (omega arith)
      (omega arith)

-- The mutex is held, and the delivery thread waits for it with an event in its hands.
abbrev held : Dispatcher ℕ ℕ
held = record busy { module_locked = true }
