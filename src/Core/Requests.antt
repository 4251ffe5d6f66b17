-- ===== src/Core/Requests.antt =====
-- The commands of the instance, and those that it sends to other instances.
pub mod Remote
use zmf.Prelude.{
  ℕ, Bool, true, false, Bytes, Option, none, some, List, [], ◌∷◌, ◌==◌, ◌&&◌, ◌||◌, not,
  if◌then◌else◌,
}
use zmf.Data.UniqueId.{ModuleUniqueId}
use zmf.Data.Handle.{ModuleHandle, ModuleState}
use zmf.Data.RequestIdentity.{ExternalRequestIdentity}
use zmf.Data.MessageType.{MessageType}
use zmf.Data.Message.{ZmfMessage}
use zmf.Dispatcher.State.{MessagingService, Dispatcher, SubscriptionHandle}
use zmf.Dispatcher.Control.{publish, send_request, subscribe}
use zmf.Dispatcher.Incoming.{
  ControlRequest, request_enable, request_disable, request_stop, system_request,
  on_request_msg_received, on_peer_change,
}
use zmf.Discovery.Service.{update_self_additional_state, send_state_multicast}
use zmf.Core.State.{Core, dispatcher, with_dispatcher}

module _ {M U : Type 0} where
  -- requestEnableModule
  unfoldable pub request_enable_module : Core M U → Core M U
  request_enable_module c =
      if c.module_active then c else record c { disable_requested = false; enable_requested = true }

  -- requestDisableModule
  unfoldable pub request_disable_module : Core M U → Core M U
  request_disable_module c =
      if not c.module_active && not c.enable_requested
      then c
      else record c { enable_requested = false; disable_requested = true }

  -- requestStopInstance
  unfoldable pub request_stop_instance : Core M U → Core M U
  request_stop_instance c =
      if not c.is_started && not c.enable_requested
      then c
      else record c { enable_requested = false; stop_requested = true }

  -- The call of the core in each branch of handleSystemMessage.
  unfoldable pub obey : Option ControlRequest → Core M U → Core M U
  obey (some request_enable) c = request_enable_module c
  obey (some request_disable) c = request_disable_module c
  obey (some request_stop) c = request_stop_instance c
  obey none c = c

  -- stopInstance, up to the `join` of the thread; true says that it joins.
  unfoldable pub stop_instance : Core M U → Bool × Core M U
  stop_instance c =
      if not c.is_started && c.enable_requested
      then (false, record c { enable_requested = false })
      else if not c.is_started
      then (false, c)
      else (true, record c { stop_requested = true })

  -- The destructor, up to the `join`; true says that it joins.
  unfoldable pub destroy : Core M U → Bool × Core M U
  unfolding stop_instance
  destroy c =
      let c' : Core M U = if c.is_started && not c.stop_requested then (stop_instance c).1 else c in
      (c'.thread_initialized, c')

  -- onModuleAdditionalStateChanged
  unfoldable pub on_module_additional_state_changed : Bytes → Core M U → Core M U
  on_module_additional_state_changed state c = record c {
    discovery = update_self_additional_state state c.discovery;
  }

  -- forceStateBroadcast
  unfoldable pub force_state_broadcast : Core M U → Core M U
  force_state_broadcast c = record c { discovery = send_state_multicast c.discovery }

-- The message of requestEnableRemoteInstance, requestDisableRemoteInstance and
-- requestStopRemoteInstance.
unfoldable pub remote_message : ControlRequest → ZmfMessage
remote_message request_enable = record { type = system_request; payload = 3 ∷ [] }
remote_message request_disable = record { type = system_request; payload = 1 ∷ [] }
remote_message request_stop = record { type = system_request; payload = 2 ∷ [] }

expected : ControlRequest → ℕ
expected request_enable = 3
expected request_disable = 1
expected request_stop = 2

-- What the three functions return once they have waited: `none` is a reply that did not come in
-- time. Where the reply is empty, the source reads past its end; the model answers false.
unfoldable pub remote_confirmed : ControlRequest → Option Bytes → Bool
unfolding expected
remote_confirmed request none = false
remote_confirmed request (some []) = false
remote_confirmed request (some (first ∷ rest)) = expected request == first

module _ {M U : Type 0} (svc : MessagingService M) where
  -- `onRequestMsgReceived`, with the call of the core that it makes; `none` where the reply threw.
  unfoldable pub receive_request :
      ExternalRequestIdentity → ZmfMessage → ModuleUniqueId → Core M U → Option (Core M U)
  receive_request id message sender c =
      let (asked, e) = on_request_msg_received svc id message sender (dispatcher c) in
      elim asked [ none ↦ none | some request ↦ some (obey request (with_dispatcher e c)) ]

  -- peerStateChange; where the messaging service throws, the dispatcher is as it was.
  unfoldable pub peer_state_change :
      ModuleHandle → ModuleState → ModuleState → Dispatcher M U → Dispatcher M U
  peer_state_change h new_state last_state e = (on_peer_change svc h new_state last_state e).1

  -- requestEnableRemoteInstance and the two others, up to the wait for the reply.
  unfoldable pub request_remote : ControlRequest → ModuleUniqueId → Core M U → Option ℕ × Core M U
  request_remote request target c =
      let (id, e) = send_request svc target (remote_message request) (dispatcher c) in
      (id, with_dispatcher e c)

  -- sendRequest
  unfoldable pub core_send_request : ModuleUniqueId → ZmfMessage → Core M U → Option ℕ × Core M U
  core_send_request target msg c =
      let (id, e) = send_request svc target msg (dispatcher c) in (id, with_dispatcher e c)

  -- subscribe
  unfoldable pub core_subscribe : MessageType → ℕ → Core M U → Option SubscriptionHandle × Core M U
  core_subscribe topic callback_id c =
      let (handle, e) = subscribe svc topic callback_id (dispatcher c) in
      (handle, with_dispatcher e c)

  -- publish
  unfoldable pub core_publish : ZmfMessage → Core M U → Bool × Core M U
  core_publish msg c = let (ok, e) = publish svc msg (dispatcher c) in (ok, with_dispatcher e c)
