-- ===== src/Dispatcher/State.antt =====
-- The members of the dispatcher, the messaging service that it talks to
-- (src/messaging/IZmfMessagingService.hpp), and the functions of the module that it calls.
use zmf.Prelude.{ℕ, Bool, Option, List}
use zmf.Prelude.Int.{ℤ}
use zmf.Prelude.Map.{Map}
use zmf.Data.UniqueId.{ModuleUniqueId}
use zmf.Data.Handle.{ModuleHandle, ModuleState}
use zmf.Data.RequestIdentity.{ExternalRequestIdentity}
use zmf.Data.MessageType.{MessageType}
use zmf.Data.Message.{ZmfMessage}
use zmf.Data.Reply.{ZmfOutReply}
use zmf.Module.{Activity}

-- The calls of `IZmfMessagingService` that the dispatcher makes, on a state `M`. `none` is an
-- exception: most calls throw where the service is not alive. `start_service` hands back the handle
-- that it is given, into which it writes the ports of its sockets.
pub record MessagingService (M : Type 0) : Type 0 where
  pub start_service : ModuleHandle → M → Option Bool × ModuleHandle × M
  pub stop_service : M → M
  pub peer_join : ModuleHandle → M → Option M
  pub peer_leave : ModuleHandle → M → Option M
  pub subscribe_topic : MessageType → M → Option M
  pub unsubscribe_topic : MessageType → M → Option M
  pub publish_message : ZmfMessage → M → Option M
  pub send_request_to : ModuleUniqueId → ZmfMessage → M → Option (ℕ × M)
  pub send_reply : ExternalRequestIdentity → ZmfMessage → M → Option M
  pub inject_reply : ExternalRequestIdentity → M → M
  pub disable_service : M → Option M

-- The module's own functions, on a state `U`: a subscription's callback, `handleRequest` and
-- `handleModuleStateChange`. `none` and `false` say that the function threw.
pub record ModuleCode (U : Type 0) : Type 0 where
  pub callback : ℕ → ZmfMessage → ModuleUniqueId → U → U
  pub handle_request : ZmfMessage → ModuleUniqueId → U → Option ZmfOutReply × U
  pub handle_state_change : ModuleHandle → ModuleState → ModuleState → U → Bool × U

-- IZmfInstanceAccess::SubscriptionHandle; the callback is known by a number.
pub record SubscriptionHandle : Type 0 where
  pub sub_id : ℕ
  pub topic : MessageType
  pub callback_id : ℕ

pub data DeliveryMethod : Type 0 where
  delivery_event delivery_request delivery_state : DeliveryMethod

pub record EventNotification : Type 0 where
  pub message : ZmfMessage
  pub peer_identity : ModuleUniqueId

pub record RequestNotification : Type 0 where
  pub message : ZmfMessage
  pub peer_identity : ModuleUniqueId
  pub message_id : ExternalRequestIdentity

pub record StateNotification : Type 0 where
  pub module_handle : ModuleHandle
  pub new_state : ModuleState
  pub last_state : ModuleState

-- `module_locked` is the module's internal mutex, and `activity` its enabled state.
pub record Dispatcher (M U : Type 0) : Type 0 where
  pub msg_service : M
  pub module_state : U
  pub activity : Activity
  pub module_locked : Bool
  pub alive : Bool
  pub meta_queue : List DeliveryMethod
  pub event_queue : List EventNotification
  pub request_queue : List RequestNotification
  pub state_queue : List StateNotification
  pub subscriptions : Map ℕ SubscriptionHandle
  pub sub_counter : ℕ
  pub inmsg_buffer_size : ℤ
