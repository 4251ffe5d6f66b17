-- ===== src/Messaging/Poller.antt =====
-- Starting and stopping the service, the thread of the poller, and the service as the dispatcher
-- uses it.
pub mod RoundTrip
pub mod Ports
pub mod Changes
pub mod Runs
pub mod Hello
pub mod Calm
pub mod Steady
mod Examples
use zmf.Prelude.{
  ℕ, suc, ◌+◌, ◌%◌, ◌^◌, ◌-◌, ◌==◌, Bool, true, false, Bytes, Option, none, some, List, [], ◌∷◌,
  ◌++◌, if◌then◌else◌,
}
use zmf.Prelude.Optional.{◌>>=◌}
use zmf.Prelude.Int.{ℤ, pos, negsuc}
use zmf.Prelude.Decimal.Parse.{stoi}
use zmf.Data.UniqueId.{ModuleUniqueId}
use zmf.Data.Handle.{ModuleHandle, self_set_pub_port, self_set_rep_port}
use zmf.Data.MessageType.{MessageType}
use zmf.Data.Message.{ZmfMessage}
use zmf.Dispatcher.State.{MessagingService, Dispatcher}
use zmf.Dispatcher.Incoming.{ControlRequest, on_sub_msg_received, on_request_msg_received}
use zmf.Messaging.State.{
  Wire, Host, Messaging, NotifyType, subscription_change, membership_change, shutdown, part,
  message_type_request, message_type_reply, message_type_hello,
}
use zmf.Messaging.Peers.{peer_join, peer_leave, handle_hello_received, apply_membership_change}
use zmf.Messaging.Topics.{subscribe, unsubscribe, publish, handle_sub_in, apply_subscription_change}
use zmf.Messaging.Requests.{
  break_promises, on_disable, send_request, send_reply, Request, handle_request_received,
  handle_reply_received,
}

-- `static_cast<uint16_t>` of an `int`.
abbrev pub to_uint16 : ℤ → ℕ
to_uint16 (pos n) = n % 2 ^ 16
to_uint16 (negsuc n) = 2 ^ 16 - 1 - n % 2 ^ 16

-- What stands behind the last colon, if there is one.
after_last_colon : Bytes → Option Bytes
after_last_colon [] = none
after_last_colon (c ∷ s) = elim (after_last_colon s) [
  | some t ↦ some t
  | none ↦ if c == b':' then some s else none
]

-- extractPort; without a colon, `find_last_of` gives `npos`, and `npos + 1` is 0. `none` is an
-- exception of `stoi`.
unfoldable pub extract_port : Bytes → Option ℕ
unfolding after_last_colon
extract_port last_endpoint = do
  port ← stoi (elim (after_last_colon last_endpoint) [ none ↦ last_endpoint | some s ↦ s ])
  some (to_uint16 port)

-- handleNotify, for the notification that was received.
unfoldable pub handle_notify : NotifyType → Messaging → Messaging
handle_notify subscription_change m = apply_subscription_change m
handle_notify membership_change m = apply_membership_change m
handle_notify shutdown m = m

-- A round of pollerLoop for the socket of the notifications: nothing happens while it is empty.
unfoldable pub poll_notify : Messaging → Messaging
unfolding handle_notify
poll_notify m = elim m.notifications [
  | [] ↦ m
  | t ∷ rest ↦ handle_notify t (record m { notifications = rest })
]

module _ (host : Host) where
  -- start, from the sockets on: the ports are read from the endpoints that `bind` gives. The first
  -- component is `none` where an exception leaves `start`.
  unfoldable pub bound : Messaging → Option Bool × ModuleHandle × Messaging
  bound m = elim host.pub_endpoint [
    | none ↦ (some false, m.self, m)
    | some pub_endpoint ↦ elim (extract_port pub_endpoint) [
      | none ↦ (none, m.self, m)
      | some pub_port ↦
          let h = self_set_pub_port m.self pub_port in
          elim host.rep_endpoint [
            | none ↦ (some false, h, record m { self = h })
            | some rep_endpoint ↦ elim (extract_port rep_endpoint) [
              | none ↦ (none, h, record m { self = h })
              | some rep_port ↦
                  let h' = self_set_rep_port h rep_port in
                  (some true, h', record m { self = h'; alive = true })
            ]
          ]
    ]
  ]

  -- start; the sockets are new.
  unfoldable pub start : ModuleHandle → Messaging → Option Bool × ModuleHandle × Messaging
  unfolding bound
  start self_handle m =
      if m.alive
      then (some false, self_handle, m)
      else bound (record m { self = self_handle; sub_calls = []; notifications = [] })

-- A service that was never started.
abbrev pub new_service : ModuleHandle → Messaging
new_service self = record {
  alive = false;
  self = self;
  sockets_req = [];
  outbox = [];
  published = [];
  subscription_changes = [];
  membership_changes = [];
  notifications = [];
  sub_calls = [];
  outstanding_requests = [];
  answers = [];
  outstanding_replies = [];
  next_request_id = 0;
}

-- stop: `empty()` of the two queues and of the replies that are owed only asks whether they are
-- empty, so they stay as they are. The poller ends after the round that it is in; where that round
-- takes a message, it comes in front of the stop.
unfoldable pub stop : Messaging → Messaging
stop m =
    if m.alive
    then record (break_promises m) { alive = false; notifications = []; sockets_req = [] }
    else m

module _ (w : Wire) (host : Host) where
  abbrev asking : Option (Request × Messaging) → Option (Option Request × Messaging)
  asking none = none
  asking (some (r, m)) = some (some r, m)

  abbrev silent : Option Messaging → Option (Option Request × Messaging)
  silent none = none
  silent (some m) = some (none, m)

  -- The `switch` of handleRepIn: what is handed to the core, if anything.
  handle_typed : ℕ → List Bytes → Messaging → Option (Option Request × Messaging)
  handle_typed type message m =
      if type == message_type_request
      then asking (handle_request_received w message m)
      else if type == message_type_reply
      then silent (handle_reply_received w message m)
      else if type == message_type_hello
      then silent (handle_hello_received w host message m)
      else some (none, m)

  -- The body of the loop of handleRepIn.
  unfoldable pub handle_rep_in : List Bytes → Messaging → Option (Option Request × Messaging)
  unfolding handle_typed
  handle_rep_in message m = do
    type_part ← part 1 message
    type ← w.get_octet type_part
    handle_typed type message m

  -- The service as the dispatcher uses it.
  abbrev pub zmq_service : MessagingService Messaging
  zmq_service = record {
    start_service = start host;
    stop_service = stop;
    peer_join = peer_join w host;
    peer_leave = peer_leave;
    subscribe_topic = subscribe;
    unsubscribe_topic = unsubscribe;
    publish_message = publish w;
    send_request_to = send_request w;
    send_reply = send_reply w;
    inject_reply = λ id m. m;
    disable_service = on_disable;
  }

  -- `onRequestMsgReceived`, where there is something to hand to the core.
  to_core :
      {U : Type 0}
      → Option Request
      → Dispatcher Messaging U
      → Option (Option ControlRequest) × Dispatcher Messaging U
  to_core none d = (some none, d)
  to_core (some r) d = on_request_msg_received zmq_service r.identity r.message r.sender d

  -- A message on the reply socket, with the call of the core that it leads to.
  unfoldable pub poll_rep :
      {U : Type 0}
      → List Bytes
      → Dispatcher Messaging U
      → Option (Option ControlRequest × Dispatcher Messaging U)
  unfolding to_core
  poll_rep message d = elim (handle_rep_in message d.msg_service) [
    | none ↦ none
    | some (handed, m) ↦
        let (asked, d') = to_core handed (record d { msg_service = m }) in
        elim asked [ none ↦ none | some request ↦ some (request, d') ]
  ]

  -- A message on the subscriber socket.
  unfoldable pub poll_sub :
      {U : Type 0} → List Bytes → Dispatcher Messaging U → Option (Dispatcher Messaging U)
  poll_sub event d = elim (handle_sub_in w event) [
    | none ↦ none
    | some (message, sender) ↦ some (on_sub_msg_received zmq_service message sender d)
  ]
