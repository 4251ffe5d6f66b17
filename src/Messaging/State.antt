-- ===== src/Messaging/State.antt =====
-- The members of the service, the messages on its sockets, and the libraries that it stands on.
use zmf.Prelude.{
  ℕ, zero, suc, ◌%◌, ◌^◌, ◌≡◌, ◌<◌, Bool, Bytes, Option, none, some, List, [], ◌∷◌, ◌++◌,
  if◌then◌else◌,
}
use zmf.Prelude.Map.{Map}
use zmf.Data.UniqueId.{ModuleUniqueId}
use zmf.Data.Handle.{ModuleHandle}
use zmf.Data.RequestIdentity.{ExternalRequestIdentity}
use zmf.Data.MessageType.{MessageType}
use zmf.Data.Message.{ZmfMessage}

-- How zmqpp writes an integer as a part of a message and reads it back (`none` is its exception),
-- and how protobuf writes and reads a `SenderId`: a 32-bit type and a 64-bit instance.
pub record Wire : Type 0 where
  pub put_octet : ℕ → Bytes
  pub get_octet : Bytes → Option ℕ
  pub put_number : ℕ → Bytes
  pub get_number : Bytes → Option ℕ
  pub put_sender : ℕ → ℕ → Bytes
  pub get_sender : Bytes → ℕ × ℕ

-- What is written is read back.
pub record IsWire (w : Wire) : Type 0 where
  pub octet : (n : ℕ) → n < 2 ^ 8 → w.get_octet (w.put_octet n) ≡ some n
  pub number : (n : ℕ) → n < 2 ^ 64 → w.get_number (w.put_number n) ≡ some n
  pub sender : (t i : ℕ) → t < 2 ^ 32 → i < 2 ^ 64 → w.get_sender (w.put_sender t i) ≡ (t, i)

-- What the host does: the two endpoints that `bind` gives (`none` where it throws), the address of
-- the configured network interface, and whether `connect` takes an address.
pub record Host : Type 0 where
  pub pub_endpoint : Option Bytes
  pub rep_endpoint : Option Bytes
  pub own_ip : Option Bytes
  pub connects : Bytes → Bool

pub data NotifyType : Type 0 where
  subscription_change membership_change shutdown : NotifyType

-- The calls on the subscriber socket.
pub data SubCall : Type 0 where
  connect disconnect : Bytes → SubCall
  subscribe_to unsubscribe_from : Bytes → SubCall

-- What the future of a request gets: the reply, the exception for an unknown target, or the one of
-- a promise that is destroyed.
pub data Fulfilment : Type 0 where
  reply : ZmfMessage → Fulfilment
  target_unknown : Fulfilment
  broken : Fulfilment

-- `sockets_req` has the address of each dealer socket. `outbox` and `published` are what was sent
-- by the dealer sockets and the publisher socket, the newest first; `sub_calls` are the calls on
-- the subscriber socket and `notifications` what is on the way to the poller, the oldest first.
-- `answers` is what the futures got, the newest first.
pub record Messaging : Type 0 where
  pub alive : Bool
  pub self : ModuleHandle
  pub sockets_req : Map ModuleUniqueId Bytes
  pub outbox : List (Bytes × List Bytes)
  pub published : List (List Bytes)
  pub subscription_changes : List (MessageType × Bool)
  pub membership_changes : List (Bytes × Bool)
  pub notifications : List NotifyType
  pub sub_calls : List SubCall
  pub outstanding_requests : Map ℕ (Unit {0})
  pub answers : List (ℕ × Fulfilment)
  pub outstanding_replies : Map ExternalRequestIdentity ModuleUniqueId
  pub next_request_id : ℕ

abbrev pub message_type_request : ℕ
message_type_request = 0

abbrev pub message_type_reply : ℕ
message_type_reply = 1

abbrev pub message_type_hello : ℕ
message_type_hello = 2

-- `message.get(i)`; zmqpp throws where the message has no such part.
abbrev pub part : ℕ → List Bytes → Option Bytes
part n [] = none
part zero (x ∷ xs) = some x
part (suc n) (x ∷ xs) = part n xs

-- `selfSenderId.SerializeAsString()`
abbrev pub own_sender : Wire → Messaging → Bytes
own_sender w m = w.put_sender m.self.unique_id.type_id m.self.unique_id.instance_id

-- The id that a message says it comes from; the 32-bit type id is cut to 16 bits.
unfoldable pub sender_of : Wire → Bytes → ModuleUniqueId
sender_of w raw =
    let (type_id, instance_id) = w.get_sender raw in
    record { type_id = type_id % 2 ^ 16; instance_id = instance_id }

-- notifyPoller
unfoldable pub notify_poller : NotifyType → Messaging → Messaging
notify_poller t m = record m { notifications = m.notifications ++ t ∷ [] }

-- checkAlive, in front of the rest of a call.
abbrev pub check_alive {ℓ} : {A : Type ℓ} → Messaging → Option A → Option A
check_alive m rest = if m.alive then rest else none
