-- ===== src/Messaging/Poller/Runs/Incoming.antt =====
-- What a message on the reply socket leaves in order.
use zmf.Prelude.{
  ℕ, ◌==◌, ◌≡◌, sym, Bool, true, Bytes, Option, none, some, List, [], arith, Bool-cases, inl, inr,
}
use zmf.Prelude.Optional.{returned}
use zmf.Prelude.Map.{contains}
use zmf.Data.UniqueId.{ModuleUniqueId}
use zmf.Data.UniqueId.Order.{id_key, number_key}
use zmf.Data.MessageType.{MessageType, of_bytes}
use zmf.Messaging.State.{
  Wire, Host, Messaging, reply, part, sender_of, message_type_request, message_type_reply,
  message_type_hello,
}
use zmf.Messaging.Peers.{internal_connect, handle_hello_received}
use zmf.Messaging.Requests.{Request, handle_request_received, answered, handle_reply_received}
use zmf.Messaging.Requests.Accounts.{IsAccounted, settled}
use zmf.Messaging.Poller.{asking, silent, handle_typed, handle_rep_in}
use zmf.Messaging.Poller.Changes.{IsNotified}
use zmf.Messaging.Poller.Changes.Arrivals.{Asks, nothing_comes, internal_connect-Asks}
use zmf.Messaging.Poller.Runs.Frames.{
  SameChanges, same_IsAccounted, handle_request_received_changes, internal_connect_requests,
}

-- What a step keeps: the changes that wait have their notifications, and the requests are accounted
-- for.
abbrev pub IsSound : Messaging → Type 0
IsSound m = IsNotified m × IsAccounted m

-- What a step leads to.
abbrev pub IsStep : Messaging → List (MessageType × Bool) → Messaging → Type 0
IsStep m asked m' = Asks m asked m' × IsAccounted m'

pub quiet : (m m' : Messaging) → SameChanges m m' → IsNotified m → Asks m [] m'
quiet m m' q b = ground (arith, nothing_comes m b)

module _ (w : Wire) (host : Host) where
  pub connected :
      (identity : ModuleUniqueId) (rep_addr pub_addr : Bytes) (m m' : Messaging)
      → internal_connect w host identity rep_addr pub_addr m ≡ some m'
      → IsSound m
      → IsStep m [] m'
  connected identity rep_addr pub_addr m m' e s = (
    internal_connect-Asks w host identity rep_addr pub_addr m m' e s.0,
    same_IsAccounted m m' (internal_connect_requests w host identity rep_addr pub_addr m m' e) s.1,
  )

  request_arrives :
      (message : List Bytes) (m m' : Messaging) (r : Request)
      → handle_request_received w message m ≡ some (r, m')
      → IsSound m
      → IsStep m [] m'
  request_arrives message m m' r e s =
      let k = handle_request_received_changes w message m m' r e in
      (quiet m m' k.0 s.0, same_IsAccounted m m' k.1 s.1)

  answer_arrives :
      (id : ℕ) (message : List Bytes) (m m' : Messaging)
      → contains id m.outstanding_requests ≡ true
      → answered w id message m ≡ some m'
      → IsSound m
      → IsStep m [] m'
  unfolding answered
  answer_arrives id message m m' waits e s =
      let (match, f, e1) = returned (part 3 message) _ e in
      let (payload, g, e2) = returned (part 4 message) _ e1 in
      let (type, h, e3) = returned (of_bytes match) _ e2 in
      let k = settled id (reply (record { type = type; payload = payload })) m waits s.1 in
      (quiet m m' (ground arith) s.0, ground (arith, k))

  reply_arrives :
      (message : List Bytes) (m m' : Messaging)
      → handle_reply_received w message m ≡ some m'
      → IsSound m
      → IsStep m [] m'
  unfolding handle_reply_received
  reply_arrives message m m' e s =
      let (id_part, f, e1) = returned (part 2 message) _ e in
      let (id, g, e2) = returned (w.get_number id_part) _ e1 in
      elim (Bool-cases (contains id m.outstanding_requests)) [
        | inl waits ↦ answer_arrives id message m m' waits (ground arith) s
        | inr new ↦ let q : m ≡ m' = ground arith in rw (sym q) (nothing_comes m s.0, s.1)
      ]

  hello_arrives :
      (message : List Bytes) (m m' : Messaging)
      → handle_hello_received w host message m ≡ some m'
      → IsSound m
      → IsStep m [] m'
  unfolding handle_hello_received
  hello_arrives message m m' e s =
      let (raw, f, e1) = returned (part 2 message) _ e in
      let (rep_addr, g, e2) = returned (part 3 message) _ e1 in
      let (pub_addr, h, e3) = returned (part 4 message) _ e2 in
      connected (sender_of w raw) rep_addr pub_addr m m' e3 s

  asked_some :
      (o : Option (Request × Messaging)) (m' : Messaging) (handed : Option Request)
      → asking w host o ≡ some (handed, m')
      → (r : Request) × (o ≡ some (r, m'))
  asked_some none m' handed e = absurd (ground arith)
  asked_some (some (r, m)) m' handed e = (r, ground arith)

  silent-some :
      (o : Option Messaging) (m' : Messaging) (handed : Option Request)
      → silent w host o ≡ some (handed, m')
      → o ≡ some m'
  silent-some none m' handed e = absurd (ground arith)
  silent-some (some m) m' handed e = ground arith

  typed_arrives :
      (type : ℕ) (message : List Bytes) (m m' : Messaging) (handed : Option Request)
      → handle_typed w host type message m ≡ some (handed, m')
      → IsSound m
      → IsStep m [] m'
  unfolding handle_typed
  typed_arrives type message m m' handed e s = elim (Bool-cases (type == message_type_request)) [
    | inl a ↦
        let (r, p) = asked_some (handle_request_received w message m) m' handed (ground arith) in
        request_arrives message m m' r p s
    | inr a ↦ elim (Bool-cases (type == message_type_reply)) [
      | inl b ↦
          reply_arrives message m m'
            (silent-some (handle_reply_received w message m) m' handed (ground arith)) s
      | inr b ↦ elim (Bool-cases (type == message_type_hello)) [
        | inl c ↦
            hello_arrives message m m'
              (silent-some (handle_hello_received w host message m) m' handed (ground arith)) s
        | inr c ↦ let q : m ≡ m' = ground arith in rw (sym q) (nothing_comes m s.0, s.1)
      ]
    ]
  ]

  pub message_arrives :
      (message : List Bytes) (m m' : Messaging) (handed : Option Request)
      → handle_rep_in w host message m ≡ some (handed, m')
      → IsSound m
      → IsStep m [] m'
  unfolding handle_rep_in
  message_arrives message m m' handed e s =
      let (type_part, f, e1) = returned (part 1 message) _ e in
      let (type, g, e2) = returned (w.get_octet type_part) _ e1 in
      typed_arrives type message m m' handed e2 s
