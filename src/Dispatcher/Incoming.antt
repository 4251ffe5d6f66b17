-- ===== src/Dispatcher/Incoming.antt =====
-- What the messaging service and the discovery service hand to the dispatcher.
pub mod Balance
pub mod Bounds
use zmf.Prelude.{
  Bool, true, false, Bytes, codes, Option, none, some, [], ◌∷◌, ◌++◌, ◌&&◌, ltb, leb, length,
  bytes_eq, if◌then◌else◌,
}
use zmf.Prelude.Int.{pos, negsuc}
use zmf.Data.UniqueId.{ModuleUniqueId}
use zmf.Data.Handle.{ModuleHandle, ModuleState, dead, state_eq}
use zmf.Data.RequestIdentity.{ExternalRequestIdentity}
use zmf.Data.MessageType.{MessageType, contains_topic}
use zmf.Data.Message.{ZmfMessage}
use zmf.Dispatcher.State.{
  MessagingService, Dispatcher, delivery_event, delivery_request, delivery_state,
}

abbrev pub system_request : MessageType
system_request = record { match = 3 ∷ 255 ∷ [] }

abbrev pub system_reply : MessageType
system_reply = record { match = 4 ∷ 255 ∷ [] }

-- What a system message asks of the core.
pub data ControlRequest : Type 0 where
  request_enable request_disable request_stop : ControlRequest

-- The comparisons of handleSystemMessage, in their order.
unfoldable pub control_request : Bytes → Option ControlRequest
control_request payload =
    if bytes_eq (3 ∷ []) payload
    then some request_enable
    else if bytes_eq (1 ∷ []) payload
    then some request_disable
    else if bytes_eq (2 ∷ []) payload
    then some request_stop
    else none

-- The reply to a system message.
unfoldable pub system_answer : Option ControlRequest → Bytes
system_answer (some request_enable) = 3 ∷ []
system_answer (some request_disable) = 1 ∷ []
system_answer (some request_stop) = 2 ∷ []
system_answer none = codes "unknown system messsage"

-- The first part of onPeerChange: the messaging service is told of a peer that came or went.
unfoldable pub tell_service :
    {M : Type 0} → MessagingService M → ModuleHandle → ModuleState → ModuleState → M → Option M
tell_service svc h new_state last_state m =
    if state_eq last_state dead
    then svc.peer_join h m
    else if state_eq new_state dead
    then svc.peer_leave h m
    else some m

module _ {M U : Type 0} (svc : MessagingService M) where
  open svc use {send_reply}

  -- checkQueueSizeEventInsert: true where the message is to be dropped.
  unfoldable pub check_queue_size_event_insert : Dispatcher M U → Bool
  check_queue_size_event_insert d = elim d.inmsg_buffer_size [
    | pos size ↦ ltb 0 size && leb size (length d.event_queue)
    | negsuc n ↦ false
  ]

  -- onSubMsgReceived
  unfoldable pub on_sub_msg_received : ZmfMessage → ModuleUniqueId → Dispatcher M U → Dispatcher M U
  unfolding check_queue_size_event_insert
  on_sub_msg_received message sender d =
      if d.alive
      then if check_queue_size_event_insert d then d else record d {
        event_queue = d.event_queue ++ record { message = message; peer_identity = sender } ∷ [];
        meta_queue = d.meta_queue ++ delivery_event ∷ [];
      }
      else d

  -- handleSystemMessage: the reply goes out first; what is asked of the core is
  -- returned, or `none` where the reply threw.
  unfoldable pub handle_system_message :
      ExternalRequestIdentity
      → ZmfMessage
      → Dispatcher M U
      → Option (Option ControlRequest) × Dispatcher M U
  handle_system_message id message d =
      let request = control_request message.payload in
      elim (send_reply id (record { type = system_reply; payload = system_answer request })
        d.msg_service) [ none ↦ (none, d) | some m ↦ (some request, record d { msg_service = m }) ]

  -- onRequestMsgReceived: system messages are answered also while the dispatcher is not alive, and
  -- requests are urgent.
  unfoldable pub on_request_msg_received :
      ExternalRequestIdentity
      → ZmfMessage
      → ModuleUniqueId
      → Dispatcher M U
      → Option (Option ControlRequest) × Dispatcher M U
  unfolding handle_system_message
  on_request_msg_received id message sender d =
      if contains_topic system_request message.type
      then handle_system_message id message d
      else if d.alive
      then (
        some none,
        record d {
          request_queue =
              d.request_queue
              ++ record { message = message; peer_identity = sender; message_id = id } ∷ [];
          meta_queue = delivery_request ∷ d.meta_queue;
        },
      )
      else (some none, d)

  -- onPeerChange: state changes are queued whether the dispatcher is alive or not, and are urgent.
  unfoldable pub on_peer_change :
      ModuleHandle → ModuleState → ModuleState → Dispatcher M U → Bool × Dispatcher M U
  unfolding tell_service
  on_peer_change h new_state last_state d =
      elim (tell_service svc h new_state last_state d.msg_service) [
        | none ↦ (false, d)
        | some m ↦ (
          true,
          record d {
            msg_service = m;
            state_queue =
                d.state_queue
                ++ record { module_handle = h; new_state = new_state; last_state = last_state }
                  ∷ [];
            meta_queue = delivery_state ∷ d.meta_queue;
          },
        )
      ]
