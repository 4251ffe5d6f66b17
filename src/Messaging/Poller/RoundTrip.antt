-- ===== src/Messaging/Poller/RoundTrip.antt =====
-- A request goes from one service to another and its reply comes back.
use zmf.Prelude.{
  ℕ, ◌+◌, ◌%◌, ◌^◌, ◌≡◌, ◌<◌, refl, ap, true, Bytes, none, some, List, ◌∷◌, length, arith,
}
use zmf.Prelude.Map.{same_refl, lookup, put, erase, lookup-put, lookup-erase, contains_of_some}
use zmf.Data.UniqueId.{ModuleUniqueId}
use zmf.Data.UniqueId.Order.{id_key, number_key}
use zmf.Data.RequestIdentity.{ExternalRequestIdentity, identity_key}
use zmf.Data.MessageType.{MessageType, of_bytes, check_size}
use zmf.Data.Message.{ZmfMessage}
use zmf.Messaging.State.{Wire, IsWire, Host, Messaging, reply, sender_of}
use zmf.Messaging.Requests.{
  request_parts, reply_parts, to_target, to_sender, send_request, send_reply,
  handle_request_received, answered, handle_reply_received,
}
use zmf.Messaging.Poller.{handle_typed, handle_rep_in}

-- A message that its receiver can construct.
abbrev pub IsMessage : ZmfMessage → Type 0
IsMessage msg = length msg.type.match < 32

of_bytes-match : (t : MessageType) → length t.match < 32 → of_bytes t.match ≡ some t
unfolding of_bytes check_size
of_bytes-match t h = ground arith

-- The id of a module, in the range of its C++ types.
abbrev pub IsId : ModuleUniqueId → Type 0
IsId id = (id.type_id < 2 ^ 16) × (id.instance_id < 2 ^ 64)

module _ (w : Wire) (wire : IsWire w) (host : Host) where
  pub sender_of-put_sender :
      (id : ModuleUniqueId) → IsId id → sender_of w (w.put_sender id.type_id id.instance_id) ≡ id
  unfolding sender_of
  sender_of-put_sender id h =
      ground (arith, wire.sender id.type_id id.instance_id (omega arith) h.1)

  -- The messages that come in: zmq puts the identity of the sender's socket in front.
  handle_request_parts :
      (routing : Bytes) (id : ℕ) (msg : ZmfMessage) (a b : Messaging)
      → IsMessage msg
      → IsId a.self.unique_id
      → id < 2 ^ 64
      → handle_rep_in w host (routing ∷ request_parts w id msg a) b
        ≡ some (
          some (record {
            identity = record { sender_id = a.self.unique_id; request_id = id };
            message = msg;
            sender = a.self.unique_id;
          }),
          record b {
            outstanding_replies =
                put
                  (record { sender_id = a.self.unique_id; request_id = id })
                  a.self.unique_id
                  b.outstanding_replies;
          },
        )
  unfolding handle_rep_in handle_typed handle_request_received request_parts
  handle_request_parts routing id msg a b fits own small = rw (
    wire.octet 0 (omega arith),
    wire.number id small,
    of_bytes-match msg.type fits,
    sender_of-put_sender a.self.unique_id own,
  )

  handle_reply_parts :
      (routing : Bytes) (id : ℕ) (msg : ZmfMessage) (a : Messaging)
      → IsMessage msg
      → id < 2 ^ 64
      → lookup id a.outstanding_requests ≡ some tt
      → handle_rep_in w host (routing ∷ reply_parts w id msg) a
        ≡ some (
          none,
          record a {
            outstanding_requests = erase id a.outstanding_requests;
            answers = (id, reply msg) ∷ a.answers;
          },
        )
  unfolding handle_rep_in handle_typed handle_reply_received answered reply_parts
  handle_reply_parts routing id msg a fits small waiting = rw (
    wire.octet 1 (omega arith),
    wire.number id small,
    contains_of_some id a.outstanding_requests waiting,
    of_bytes-match msg.type fits,
  )

  sent_request :
      (target : ModuleUniqueId) (msg : ZmfMessage) (address : Bytes) (a : Messaging)
      → a.alive ≡ true
      → lookup target a.sockets_req ≡ some address
      → (a' : Messaging) × (send_request w target msg a ≡ some (a.next_request_id, a'))
        × (a'.outbox ≡ (address, request_parts w a.next_request_id msg a) ∷ a.outbox)
        × (lookup a.next_request_id a'.outstanding_requests ≡ some tt)
        × (a'.answers ≡ a.answers)
  unfolding send_request to_target request_parts
  sent_request target msg address a on known =
      let id = a.next_request_id in
      (
        record a {
          next_request_id = (id + 1) % 2 ^ 64;
          outstanding_requests = put id tt a.outstanding_requests;
          outbox = (address, request_parts w id msg a) ∷ a.outbox;
        },
        ground arith,
        refl,
        ground (arith, lookup-put id id tt a.outstanding_requests, same_refl id),
        refl,
      )

  sent_reply :
      (identity : ExternalRequestIdentity) (msg : ZmfMessage) (back : Bytes)
      (sender : ModuleUniqueId) (b : Messaging)
      → b.alive ≡ true
      → lookup identity b.outstanding_replies ≡ some sender
      → lookup sender b.sockets_req ≡ some back
      → (b' : Messaging) × (send_reply w identity msg b ≡ some b')
        × (b'.outbox ≡ (back, reply_parts w identity.request_id msg) ∷ b.outbox)
        × (lookup identity b'.outstanding_replies ≡ none)
  unfolding send_reply to_sender
  sent_reply identity msg back sender b on owed known = (
    record b {
      outstanding_replies = erase identity b.outstanding_replies;
      outbox = (back, reply_parts w identity.request_id msg) ∷ b.outbox;
    },
    ground arith,
    refl,
    ground (arith, lookup-erase identity identity b.outstanding_replies, same_refl identity),
  )

  -- A request of one service to a peer that it knows reaches the core of the peer with its message
  -- and its sender, and the reply that the peer sends to it fulfils the promise of that request
  -- with the message of the reply: the request then waits no longer, and the peer owes no reply.
  -- Both services must be alive and the peer must know the first, the matches must be short enough
  -- to be constructed again, and the numbers must be in the range of their types.
  pub request_reply_roundtrip :
      (target : ModuleUniqueId) (msg answer : ZmfMessage) (address back routing routing' : Bytes)
      (a b : Messaging)
      → IsMessage msg
      → IsMessage answer
      → IsId a.self.unique_id
      → a.next_request_id < 2 ^ 64
      → a.alive ≡ true
      → b.alive ≡ true
      → lookup target a.sockets_req ≡ some address
      → lookup a.self.unique_id b.sockets_req ≡ some back
      → let id = a.next_request_id in
        let identity : ExternalRequestIdentity = record {
          sender_id = a.self.unique_id;
          request_id = id;
        } in
        (a' a'' b' b'' : Messaging) × (there here : List Bytes) × (send_request w target msg a
          ≡ some (id, a'))
        × (a'.outbox ≡ (address, there) ∷ a.outbox)
        × (handle_rep_in w host (routing ∷ there) b
            ≡ some (
              some (record { identity = identity; message = msg; sender = a.self.unique_id }),
              b',
            ))
        × (send_reply w identity answer b' ≡ some b'')
        × (b''.outbox ≡ (back, here) ∷ b.outbox)
        × (lookup identity b''.outstanding_replies ≡ none)
        × (handle_rep_in w host (routing' ∷ here) a' ≡ some (none, a''))
        × (a''.answers ≡ (id, reply answer) ∷ a.answers)
        × (lookup id a''.outstanding_requests ≡ none)
  request_reply_roundtrip target msg answer address back routing routing' a b fits fits' own small
        on_a on_b known known' =
      let id = a.next_request_id in
      let identity : ExternalRequestIdentity = record {
        sender_id = a.self.unique_id;
        request_id = id;
      } in
      let (a', sent, out, waiting, same_answers) = sent_request target msg address a on_a known in
      let b' : Messaging = record b {
        outstanding_replies = put identity a.self.unique_id b.outstanding_replies;
      } in
      let owed : lookup identity b'.outstanding_replies ≡ some a.self.unique_id = ground (
        arith,
        lookup-put identity identity a.self.unique_id b.outstanding_replies,
        same_refl identity,
      ) in
      let (b'', replied, out', settled) =
        sent_reply identity answer back a.self.unique_id b' on_b owed known' in
      (
        a',
        record a' {
          outstanding_requests = erase id a'.outstanding_requests;
          answers = (id, reply answer) ∷ a'.answers;
        },
        b',
        b'',
        request_parts w id msg a,
        reply_parts w id answer,
        sent,
        out,
        handle_request_parts routing id msg a b fits own small,
        replied,
        out',
        settled,
        handle_reply_parts routing' id answer a' fits' small waiting,
        ap (◌∷◌ (id, reply answer)) same_answers,
        ground (arith, lookup-erase id id a'.outstanding_requests, same_refl id),
      )
