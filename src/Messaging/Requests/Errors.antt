-- ===== src/Messaging/Requests/Errors.antt =====
-- Requests to a target that is not known, and replies that come too late.
use zmf.Prelude.{ℕ, ◌+◌, ◌%◌, ◌^◌, ◌≡◌, refl, true, false, Bytes, none, some, List, ◌∷◌, arith}
use zmf.Prelude.Map.{lookup, contains, put}
use zmf.Data.UniqueId.{ModuleUniqueId}
use zmf.Data.UniqueId.Order.{id_key, number_key}
use zmf.Data.RequestIdentity.{ExternalRequestIdentity, identity_key}
use zmf.Data.Message.{ZmfMessage}
use zmf.Messaging.State.{Wire, Messaging, target_unknown, part}
use zmf.Messaging.Requests.{
  break_promises, on_disable, to_target, send_request, send_reply, handle_reply_received,
}
use zmf.Messaging.Requests.Accounts.{contains-erase}

-- A message of the reply socket that carries the request id `id`.
abbrev pub IsReplyTo : Wire → ℕ → List Bytes → Type 0
IsReplyTo w id message = (raw : Bytes) × (part 2 message ≡ some raw) × (w.get_number raw ≡ some id)

pub no_request_waits :
    (w : Wire) (id : ℕ) (message : List Bytes) (m : Messaging)
    → IsReplyTo w id message
    → contains id m.outstanding_requests ≡ false
    → handle_reply_received w message m ≡ some m
unfolding handle_reply_received
no_request_waits w id message m (raw, p, q) absent = ground arith

-- A request to a target that is not connected is not sent; its id is used up, its future gets the
-- exception at once, and a reply to it is ignored.
pub unknown_target :
    (w : Wire) (target : ModuleUniqueId) (msg : ZmfMessage) (m : Messaging)
    → m.alive ≡ true
    → lookup target m.sockets_req ≡ none
    → (m' : Messaging) × (send_request w target msg m ≡ some (m.next_request_id, m'))
      × (m'.outbox ≡ m.outbox)
      × (m'.next_request_id ≡ (m.next_request_id + 1) % 2 ^ 64)
      × (m'.answers ≡ (m.next_request_id, target_unknown) ∷ m.answers)
      × ((message : List Bytes)
          → IsReplyTo w m.next_request_id message
          → handle_reply_received w message m' ≡ some m')
unfolding send_request to_target
unknown_target w target msg m on absent =
    let id = m.next_request_id in
    let m' = to_target w none id msg (record m {
      next_request_id = (id + 1) % 2 ^ 64;
      outstanding_requests = put id tt m.outstanding_requests;
    }) in
    (
      m',
      ground arith,
      refl,
      refl,
      refl,
      λ message is.
          no_request_waits w id message m' is
            (ground (arith, contains-erase id id (put id tt m.outstanding_requests))),
    )

-- Once `onDisable` has returned, no request waits, a reply that comes late changes nothing, and a
-- reply to a request from before is not sent.
pub disabled_lem :
    (w : Wire) (m m' : Messaging)
    → on_disable m ≡ some m'
    → ((id : ℕ) → contains id m'.outstanding_requests ≡ false)
      × ((id : ℕ) (message : List Bytes)
          → IsReplyTo w id message
          → handle_reply_received w message m' ≡ some m')
      × ((identity : ExternalRequestIdentity) (msg : ZmfMessage)
          → send_reply w identity msg m' ≡ some m')
unfolding on_disable break_promises send_reply contains lookup
disabled_lem w m m' e =
    let absent : (id : ℕ) → contains id m'.outstanding_requests ≡ false = λ id. ground arith in
    (
      absent,
      λ id message is. no_request_waits w id message m' is (absent id),
      λ identity msg. ground arith,
    )
