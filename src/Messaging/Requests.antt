-- ===== src/Messaging/Requests.antt =====
-- Requests and replies.
pub mod Accounts
pub mod Errors
mod Examples
use zmf.Prelude.{
  ℕ, ◌+◌, ◌%◌, ◌^◌, ◌==◌, Bool, true, false, Bytes, Option, none, some, List, [], ◌∷◌, ◌++◌, map,
  if◌then◌else◌,
}
use zmf.Prelude.Optional.{◌>>=◌}
use zmf.Prelude.Map.{Map, contains, lookup, put, erase, keys}
use zmf.Data.UniqueId.{ModuleUniqueId}
use zmf.Data.UniqueId.Order.{id_key, number_key}
use zmf.Data.RequestIdentity.{ExternalRequestIdentity, identity_key}
use zmf.Data.MessageType.{MessageType, of_bytes}
use zmf.Data.Message.{ZmfMessage}
use zmf.Messaging.State.{
  Wire, Messaging, Fulfilment, reply, target_unknown, broken, message_type_request,
  message_type_reply, part, own_sender, sender_of, check_alive,
}

-- The promise of a request is destroyed, if there is one.
unfoldable pub break_promise : ℕ → Messaging → Messaging
break_promise id m =
    if contains id m.outstanding_requests
    then record m {
      outstanding_requests = erase id m.outstanding_requests;
      answers = (id, broken) ∷ m.answers;
    }
    else m

-- `outstanding_requests.clear()`
unfoldable pub break_promises : Messaging → Messaging
break_promises m = record m {
  outstanding_requests = [];
  answers = map (λ id. (id, broken)) (keys m.outstanding_requests) ++ m.answers;
}

-- cancelRequest; `manual` is for the log only.
unfoldable pub cancel_request : ℕ → Messaging → Messaging
cancel_request id m = if m.alive then break_promise id m else m

-- onDisable
unfoldable pub on_disable : Messaging → Option Messaging
on_disable m = check_alive m (some (record (break_promises m) { outstanding_replies = [] }))

-- What the service hands to `onRequestMsgReceived`.
pub record Request : Type 0 where
  pub identity : ExternalRequestIdentity
  pub message : ZmfMessage
  pub sender : ModuleUniqueId

module _ (w : Wire) where
  unfoldable pub request_parts : ℕ → ZmfMessage → Messaging → List Bytes
  request_parts id msg m =
      w.put_octet message_type_request
      ∷ w.put_number id
      ∷ own_sender w m
      ∷ msg.type.match
      ∷ msg.payload
      ∷ []

  unfoldable pub reply_parts : ℕ → ZmfMessage → List Bytes
  reply_parts id msg =
      w.put_octet message_type_reply ∷ w.put_number id ∷ msg.type.match ∷ msg.payload ∷ []

  -- The end of sendRequest: the request goes to the socket of the target, if there is one.
  unfoldable pub to_target : Option Bytes → ℕ → ZmfMessage → Messaging → Messaging
  to_target (some address) id msg m = record m {
    outbox = (address, request_parts id msg m) ∷ m.outbox;
  }
  to_target none id msg m = record m {
    outstanding_requests = erase id m.outstanding_requests;
    answers = (id, target_unknown) ∷ m.answers;
  }

  -- sendRequest; an id comes again after 2^64 requests only, and what becomes of an older promise
  -- that still waits under it then is left out.
  unfoldable pub send_request : ModuleUniqueId → ZmfMessage → Messaging → Option (ℕ × Messaging)
  send_request target msg m =
      let id = m.next_request_id in
      check_alive m (
        some (
          id,
          to_target (lookup target m.sockets_req) id msg (record m {
            next_request_id = (id + 1) % 2 ^ 64;
            outstanding_requests = put id tt m.outstanding_requests;
          }),
        ))

  -- The end of sendReply: the reply goes to the socket of the sender, if there is one.
  unfoldable pub to_sender : Option Bytes → ℕ → ZmfMessage → Messaging → Messaging
  to_sender (some address) id msg m = record m { outbox = (address, reply_parts id msg) ∷ m.outbox }
  to_sender none id msg m = m

  -- sendReply
  unfoldable pub send_reply : ExternalRequestIdentity → ZmfMessage → Messaging → Option Messaging
  send_reply identity msg m = check_alive m (elim (lookup identity m.outstanding_replies) [
    | none ↦ some m
    | some sender ↦ some (
        to_sender (lookup sender m.sockets_req) identity.request_id msg
          (record m { outstanding_replies = erase identity m.outstanding_replies }))
  ])

  -- handleRequestReceived; `none` is an exception, which leaves the thread of the poller.
  unfoldable pub handle_request_received : List Bytes → Messaging → Option (Request × Messaging)
  handle_request_received message m = do
    raw ← part 3 message
    id_part ← part 2 message
    id ← w.get_number id_part
    match ← part 4 message
    payload ← part 5 message
    type ← of_bytes match
    some (
      record {
        identity = record { sender_id = sender_of w raw; request_id = id };
        message = record { type = type; payload = payload };
        sender = sender_of w raw;
      },
      record m {
        outstanding_replies =
            put (record { sender_id = sender_of w raw; request_id = id }) (sender_of w raw)
              m.outstanding_replies;
      },
    )

  -- The branch of handleReplyReceived for a request that waits.
  unfoldable pub answered : ℕ → List Bytes → Messaging → Option Messaging
  answered id message m = do
    match ← part 3 message
    payload ← part 4 message
    type ← of_bytes match
    some (record m {
      outstanding_requests = erase id m.outstanding_requests;
      answers = (id, reply (record { type = type; payload = payload })) ∷ m.answers;
    })

  -- handleReplyReceived
  unfoldable pub handle_reply_received : List Bytes → Messaging → Option Messaging
  handle_reply_received message m = do
    id_part ← part 2 message
    id ← w.get_number id_part
    if contains id m.outstanding_requests then answered id message m else some m
