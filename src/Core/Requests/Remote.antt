-- ===== src/Core/Requests/Remote.antt =====
-- One instance commands another.
use zmf.Prelude.{
  ◌≡◌, ◌↔◌, refl, true, false, some, ◌&&◌, ◌||◌, not, arith, bytes_eq, Bool-cases, inl, inr,
}
use zmf.Data.UniqueId.{ModuleUniqueId}
use zmf.Data.RequestIdentity.{ExternalRequestIdentity}
use zmf.Data.MessageType.{contains_topic}
use zmf.Dispatcher.State.{MessagingService, Dispatcher}
use zmf.Dispatcher.Incoming.{
  ControlRequest, request_enable, request_disable, request_stop, system_reply, system_answer,
  control_request, handle_system_message, on_request_msg_received,
}
use zmf.Core.State.{Core, dispatcher, with_dispatcher}
use zmf.Core.Requests.{
  remote_message, remote_confirmed, obey, receive_request, request_enable_module,
  request_disable_module, request_stop_instance,
}

confirmed_iff :
    (asked answered : ControlRequest)
    → (remote_confirmed asked (some (system_answer (some answered))) ≡ true) ↔ (asked ≡ answered)
unfolding remote_confirmed system_answer
confirmed_iff asked answered = ground arith

control_request-remote_message :
    (request : ControlRequest) → control_request (remote_message request).payload ≡ some request
unfolding control_request remote_message bytes_eq
control_request-remote_message request_enable = refl
control_request-remote_message request_disable = refl
control_request-remote_message request_stop = refl

module _ {M U : Type 0} (svc : MessagingService M) where
  handle_remote :
      (request : ControlRequest) (id : ExternalRequestIdentity) (e : Dispatcher M U) (m : M)
      → svc.send_reply id
          (record { type = system_reply; payload = system_answer (some request) })
          e.msg_service
        ≡ some m
      → handle_system_message svc id (remote_message request) e
        ≡ (some (some request), record e { msg_service = m })
  unfolding handle_system_message
  handle_remote request id e m replied = ground (arith, control_request-remote_message request)

  receive_remote :
      (request : ControlRequest) (id : ExternalRequestIdentity) (sender : ModuleUniqueId)
      (e : Dispatcher M U)
      → on_request_msg_received svc id (remote_message request) sender e
        ≡ handle_system_message svc id (remote_message request) e
  unfolding on_request_msg_received remote_message contains_topic
  receive_remote request_enable id sender e = refl
  receive_remote request_disable id sender e = refl
  receive_remote request_stop id sender e = refl

  -- The instance after a command.
  abbrev pub after_command : ControlRequest → Core M U → Core M U
  after_command request_enable c = record c {
    enable_requested = not c.module_active || c.enable_requested;
    disable_requested = c.module_active && c.disable_requested;
  }
  after_command request_disable c = record c {
    enable_requested = false;
    disable_requested = c.module_active || (c.enable_requested || c.disable_requested);
  }
  after_command request_stop c = record c {
    enable_requested = false;
    stop_requested = c.is_started || (c.enable_requested || c.stop_requested);
  }

  obey-after_command :
      (request : ControlRequest) (c : Core M U) → obey (some request) c ≡ after_command request c
  unfolding obey request_enable_module request_disable_module request_stop_instance
  obey-after_command request_enable c = elim (Bool-cases c.module_active) [
    | inl on ↦ ground arith
    | inr off ↦ ground arith
  ]
  obey-after_command request_disable c =
      elim (Bool-cases (not c.module_active && not c.enable_requested)) [
        | inl nothing ↦ ground arith
        | inr some_thing ↦ ground arith
      ]
  obey-after_command request_stop c =
      elim (Bool-cases (not c.is_started && not c.enable_requested)) [
        | inl nothing ↦ ground arith
        | inr some_thing ↦ ground arith
      ]

  -- The command that one instance sends to another is the command that the other carries out,
  -- whether its dispatcher is alive or not, after it has sent the reply: an enable makes it to
  -- enable a module that is not active, and not to disable it any more; a disable or a stop makes it
  -- not to enable the module any more, and to disable a module that is active or was to be enabled,
  -- or to stop an instance that is started or was to enable its module; and nothing else changes.
  -- That reply confirms this command to the first
  -- and no other. The messaging service must have sent the reply.
  pub remote_control_lem :
      (request : ControlRequest) (id : ExternalRequestIdentity) (sender : ModuleUniqueId)
      (c : Core M U) (m : M)
      → svc.send_reply id
          (record { type = system_reply; payload = system_answer (some request) })
          (dispatcher c).msg_service
        ≡ some m
      → (receive_request svc id (remote_message request) sender c
          ≡ some (
              after_command request
                (with_dispatcher (record (dispatcher c) { msg_service = m }) c)))
        × ((asked : ControlRequest)
            → (remote_confirmed asked (some (system_answer (some request))) ≡ true)
              ↔ (asked ≡ request))
  unfolding receive_request
  remote_control_lem request id sender c m replied = (
    ground (
      arith,
      receive_remote request id sender (dispatcher c),
      handle_remote request id (dispatcher c) m replied,
      obey-after_command request (with_dispatcher (record (dispatcher c) { msg_service = m }) c),
    ),
    λ asked. confirmed_iff asked request,
  )
