-- ===== src/Core/Runs.antt =====
-- The threads of a running instance, one step after another: the loop of the instance, the delivery
-- thread, the loop of the discovery service, the calls of the module and the requests that come in.
-- A round of a loop is one step, but in a round of the instance's loop other threads act on the
-- dispatcher where enableModule and disableModule let them, and each round has its own such acts.
pub mod Well
pub mod Steps
pub mod Progress
pub mod Stops
use zmf.Prelude.{ℕ, ◌≡◌, Bytes, Option, some}
use zmf.Data.UniqueId.{ModuleUniqueId}
use zmf.Data.RequestIdentity.{ExternalRequestIdentity}
use zmf.Data.MessageType.{MessageType}
use zmf.Data.Message.{ZmfMessage}
use zmf.Dispatcher.State.{MessagingService, ModuleCode, SubscriptionHandle, Dispatcher}
use zmf.Dispatcher.Control.{unsubscribe}
use zmf.Dispatcher.Control.Calm.{IsCalm}
use zmf.Dispatcher.Steady.{IsTame}
use zmf.Dispatcher.Incoming.{ControlRequest, on_sub_msg_received}
use zmf.Dispatcher.Delivery.{goes_on, delivery_round}
use zmf.Discovery.State.{StateBroadcast, Discovery}
use zmf.Discovery.Timeouts.{loop_round}
use zmf.Discovery.Runs.Health.{IsRemote}
use zmf.Core.State.{Core, returned, dispatcher, with_dispatcher}
use zmf.Core.Switch.{Switches}
use zmf.Core.Loop.{instance_round}
use zmf.Core.Requests.{
  request_enable_module, request_disable_module, request_stop_instance,
  on_module_additional_state_changed, force_state_broadcast, receive_request, peer_state_change,
  request_remote, core_send_request, core_subscribe, core_publish,
}

module _ {M U : Type 0} (svc : MessagingService M) (calm : IsCalm svc)
    (module_switch : Switches M U) (code : ModuleCode U) where
  -- A step of one thread that comes to its end. In `instance_loop` the other threads do not drop a
  -- request outside of the module's mutex.
  pub data Step : Core M U → Core M U → Type 0 where
    instance_loop :
        {c c' : Core M U} (others : Dispatcher M U → Dispatcher M U)
        → ((e : Dispatcher M U) → IsTame svc calm e (others e))
        → instance_round svc (record module_switch { others = others }) c ≡ returned c'
        → Step c c'
    delivery :
        {c : Core M U} {e : Dispatcher M U}
        → delivery_round svc code (dispatcher c) ≡ goes_on e
        → Step c (with_dispatcher e c)
    discovery_loop :
        {c : Core M U} {d : Discovery (Dispatcher M U)} (time_diff : ℕ)
        (input : Option (StateBroadcast × Bytes))
        → IsRemote input
        → loop_round (peer_state_change svc) time_diff input c.discovery ≡ some d
        → Step c (record c { discovery = d })
    message_comes :
        {c : Core M U} (message : ZmfMessage) (sender : ModuleUniqueId)
        → Step c (with_dispatcher (on_sub_msg_received svc message sender (dispatcher c)) c)
    request_comes :
        {c c' : Core M U} (id : ExternalRequestIdentity) (message : ZmfMessage)
        (sender : ModuleUniqueId)
        → receive_request svc id message sender c ≡ some c'
        → Step c c'
    enable_asked : {c : Core M U} → Step c (request_enable_module c)
    disable_asked : {c : Core M U} → Step c (request_disable_module c)
    stop_asked : {c : Core M U} → Step c (request_stop_instance c)
    state_set : {c : Core M U} (state : Bytes) → Step c (on_module_additional_state_changed state c)
    state_forced : {c : Core M U} → Step c (force_state_broadcast c)
    subscribed :
        {c : Core M U} (topic : MessageType) (callback_id : ℕ)
        → Step c (core_subscribe svc topic callback_id c).1
    unsubscribed :
        {c : Core M U} (handle : SubscriptionHandle)
        → Step c (with_dispatcher (unsubscribe svc handle (dispatcher c)).1 c)
    published : {c : Core M U} (msg : ZmfMessage) → Step c (core_publish svc msg c).1
    requested :
        {c : Core M U} (target : ModuleUniqueId) (msg : ZmfMessage)
        → Step c (core_send_request svc target msg c).1
    commanded :
        {c : Core M U} (request : ControlRequest) (target : ModuleUniqueId)
        → Step c (request_remote svc request target c).1

  -- Any number of steps of the threads, in any order.
  pub data Run : Core M U → Core M U → Type 0 where
    starts : {c : Core M U} → Run c c
    goes : {c c' c'' : Core M U} → Run c c' → Step c' c'' → Run c c''
