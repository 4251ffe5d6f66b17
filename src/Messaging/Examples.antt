-- ===== src/Messaging/Examples.antt =====
-- The theorems on the messaging service, at a wire that writes a number as one element.
use zmf.Prelude.{ℕ, ◌≡◌, refl, Bytes, true, false, Option, none, some, List, [], ◌∷◌, codes, arith}
use zmf.Prelude.Decimal.{to_string}
use zmf.Prelude.Decimal.Parse.{stoi}
use zmf.Prelude.Map.{same, lookup, contains}
use zmf.Data.UniqueId.{ModuleUniqueId, lt}
use zmf.Data.UniqueId.Order.{id_key, number_key}
use zmf.Data.Handle.{ModuleHandle, self_set_pub_port, self_set_rep_port}
use zmf.Data.RequestIdentity.{ExternalRequestIdentity, identity_key}
use zmf.Data.MessageType.{MessageType}
use zmf.Data.Message.{ZmfMessage}
use zmf.Registry.Examples.{router, sensor}
use zmf.Messaging.State.{Wire, IsWire, Host, Messaging, reply}
use zmf.Messaging.Peers.{tcp_address, peer_join}
use zmf.Messaging.Topics.{publish, handle_sub_in}
use zmf.Messaging.Topics.Events.{publish_roundtrip}
use zmf.Messaging.Requests.{send_request, send_reply}
use zmf.Dispatcher.State.{Dispatcher}
use zmf.Dispatcher.Incoming.{on_sub_msg_received}
use zmf.Prelude.Int.{pos}
use zmf.Module.{disabled}
use zmf.Messaging.Poller.{
  poll_sub, zmq_service, start, bound, new_service, extract_port, handle_rep_in,
}
use zmf.Messaging.Poller.RoundTrip.{request_reply_roundtrip}
use zmf.Messaging.Poller.Hello.{hello_roundtrip}

abbrev pub first_number : Bytes → Option ℕ
first_number [] = none
first_number (n ∷ s) = some n

abbrev pub first_two : Bytes → ℕ × ℕ
first_two [] = (0, 0)
first_two (t ∷ []) = (t, 0)
first_two (t ∷ i ∷ s) = (t, i)

abbrev pub wire : Wire
wire = record {
  put_octet = λ n. n ∷ [];
  get_octet = first_number;
  put_number = λ n. n ∷ [];
  get_number = first_number;
  put_sender = λ t i. t ∷ i ∷ [];
  get_sender = first_two;
}

wire-IsWire : IsWire wire
wire-IsWire = record {
  octet = λ n small. refl;
  number = λ n small. refl;
  sender = λ t i small small'. refl;
}

abbrev pub host : Host
host = record {
  pub_endpoint = some (codes "tcp://0.0.0.0:5001");
  rep_endpoint = some (codes "tcp://0.0.0.0:5002");
  own_ip = some (codes "10.0.0.1");
  connects = λ address. true;
}

abbrev pub topic : MessageType
topic = record { match = 7 ∷ [] }

abbrev pub other_topic : MessageType
other_topic = record { match = 8 ∷ [] }

abbrev pub message : ZmfMessage
message = record { type = topic; payload = 1 ∷ 2 ∷ [] }

abbrev pub own : ModuleHandle
own = record router { self = true }

abbrev pub live : Messaging
live =
    record (new_service (record own {
      self_zmq_pub_port = some 5001;
      self_zmq_rep_port = some 5002;
      zmq_pub_addr = codes "tcp://127.0.0.1:5001";
      zmq_rep_addr = codes "tcp://127.0.0.1:5002";
    })) { alive = true }

pub start-own : start host own (new_service sensor) ≡ (some true, live.self, live)
unfolding start bound extract_port stoi self_set_rep_port self_set_pub_port to_string
start-own = refl

abbrev pub there : Bytes
there = codes "tcp://10.0.0.2:6002"

abbrev pub peer : ModuleHandle
peer = record sensor { zmq_rep_addr = there; zmq_pub_addr = codes "tcp://10.0.0.2:6001" }

abbrev here : Bytes
here = codes "tcp://10.0.0.1:5002"

-- The services that know each other.
abbrev pub asker : Messaging
asker = record live { sockets_req = (sensor.unique_id, there) ∷ [] }

abbrev answerer : Messaging
answerer = record live { self = sensor; sockets_req = (router.unique_id, here) ∷ [] }

asker-knows : lookup sensor.unique_id asker.sockets_req ≡ some there
unfolding lookup same lt
asker-knows = refl

answerer-knows : lookup router.unique_id answerer.sockets_req ≡ some here
unfolding lookup same lt
answerer-knows = refl

nobody : (id : ModuleUniqueId) → contains id live.sockets_req ≡ false
unfolding contains lookup
nobody id = refl

request_reply_roundtrip_example :
    let identity : ExternalRequestIdentity = record {
      sender_id = router.unique_id;
      request_id = 0;
    } in
    (a' a'' b' b'' : Messaging) × (question solution : List Bytes) × (send_request wire
        sensor.unique_id message asker
      ≡ some (0, a'))
    × (a'.outbox ≡ (there, question) ∷ [])
    × (handle_rep_in wire host ([] ∷ question) answerer
        ≡ some (
          some (record { identity = identity; message = message; sender = router.unique_id }),
          b',
        ))
    × (send_reply wire identity message b' ≡ some b'')
    × (b''.outbox ≡ (here, solution) ∷ [])
    × (lookup identity b''.outstanding_replies ≡ none)
    × (handle_rep_in wire host ([] ∷ solution) a' ≡ some (none, a''))
    × (a''.answers ≡ (0, reply message) ∷ [])
    × (lookup 0 a''.outstanding_requests ≡ none)
request_reply_roundtrip_example =
    request_reply_roundtrip wire wire-IsWire host sensor.unique_id message message there here [] []
      asker answerer (omega arith) (omega arith) (omega arith, omega arith) (omega arith) refl refl
      asker-knows answerer-knows

hello_roundtrip_example :
    let rep_addr = tcp_address (codes "10.0.0.1") (some 5002) in
    let pub_addr = tcp_address (codes "10.0.0.1") (some 5001) in
    (a' b' : Messaging) × (hello : List Bytes) × (peer_join wire host peer live ≡ some a')
    × (a'.outbox ≡ (there, hello) ∷ [])
    × (lookup sensor.unique_id a'.sockets_req ≡ some there)
    × (handle_rep_in wire host ([] ∷ hello) (record live { self = sensor }) ≡ some (none, b'))
    × (lookup router.unique_id b'.sockets_req ≡ some rep_addr)
    × (b'.membership_changes ≡ (pub_addr, true) ∷ [])
hello_roundtrip_example =
    hello_roundtrip wire wire-IsWire host host peer (codes "10.0.0.1") (codes "10.0.0.1") [] live
      (record live { self = sensor }) (omega arith, omega arith) refl (nobody sensor.unique_id)
      (nobody router.unique_id) refl refl refl refl

abbrev idle : Dispatcher Messaging ℕ
idle = record {
  msg_service = live;
  module_state = 0;
  activity = disabled;
  module_locked = false;
  alive = true;
  meta_queue = [];
  event_queue = [];
  request_queue = [];
  state_queue = [];
  subscriptions = [];
  sub_counter = 0;
  inmsg_buffer_size = pos 0;
}

publish_roundtrip_example :
    (m' : Messaging) × (event : List Bytes) × (publish wire message live ≡ some m')
    × (m'.published ≡ event ∷ [])
    × (handle_sub_in wire event ≡ some (message, router.unique_id))
    × (poll_sub wire host event idle
        ≡ some (on_sub_msg_received (zmq_service wire host) message router.unique_id idle))
publish_roundtrip_example =
    publish_roundtrip wire host message live idle wire-IsWire refl (omega arith) (omega arith)
      (omega arith)
