-- ===== src/Core/Examples.antt =====
-- The theorems on the instance at a module that always enables.
use zmf.Prelude.{ℕ, suc, ◌≡◌, ◌↔◌, refl, true, false, some, [], ◌∷◌, codes}
use zmf.Data.Handle.{inactive}
use zmf.Registry.Examples.{
  router, sensor, two_peers, two_peers-active_router, two_peers-none_of_type_3,
}
use zmf.Dispatcher.State.{Dispatcher}
use zmf.Dispatcher.Incoming.{ControlRequest, request_disable, system_answer}
use zmf.Dispatcher.Delivery.{goes_on, deliver_request}
use zmf.Dispatcher.Examples.{service, code, idle, message, request, identity}
use zmf.Discovery.State.{Discovery}
use zmf.Data.MessageType.{contains_topic}
use zmf.Core.State.{
  Core, blocked, with_dispatcher, check_dependencies_satisfied, module_is_unique, all_satisfied,
}
use zmf.Core.Switch.{Switches, enable_module}
use zmf.Core.Loop.{instance_round}
use zmf.Core.Loop.Race.{request_between, request_while_enabling-blocked}
use zmf.Core.Loop.Stuck.{drop_then_enable-blocked}
use zmf.Core.Requests.{remote_message, remote_confirmed, receive_request}
use zmf.Core.Requests.Remote.{after_command, remote_control_lem}

abbrev pub module_switch : Switches ℕ ℕ
module_switch = record {
  enable = λ e. (true, record e { module_state = suc e.module_state });
  disable = λ e. record e { module_state = 0 };
  others = λ e. e;
}

abbrev found : Discovery (Dispatcher ℕ ℕ)
found = record {
  core = idle;
  registry = two_peers;
  timeouts = λ ref. 0;
  next_ref = 2;
  self_handle = router;
  self_state = inactive;
  self_additional_state = [];
  multicast_frequency = 1000;
  peer_timeout = 4000;
  multicast_identifier = 0;
  disable_equal_module_interconnect = false;
  is_started = true;
  stop_requested = false;
  thread_initialized = true;
  sent = [];
}

-- An instance of type 3 that needs a module of type 1, and is to be enabled.
abbrev pub instance3 : Core ℕ ℕ
instance3 = record {
  info = record {
    unique_id = record { type_id = 3; instance_id = 0 };
    version = 1;
    name = codes "three";
    dependencies = record { module_type_id = 1; module_version = 1 } ∷ [];
  };
  self_handle = router;
  discovery = found;
  exit_when_enable_fail = false;
  is_started = true;
  is_stopped = false;
  module_active = false;
  stop_requested = false;
  disable_requested = false;
  enable_requested = true;
  thread_initialized = true;
  stopped = [];
}

satisfied : check_dependencies_satisfied instance3 ≡ true
satisfied = unfold check_dependencies_satisfied all_satisfied in rw two_peers-active_router

unique : module_is_unique instance3 ≡ true
unique = unfold module_is_unique in rw two_peers-none_of_type_3

drop_then_enable-blocked_example :
    (e : Dispatcher ℕ ℕ) × (deliver_request service code (request ∷ []) idle ≡ goes_on e)
    × (instance_round service module_switch (with_dispatcher e instance3) ≡ blocked)
drop_then_enable-blocked_example =
    drop_then_enable-blocked service code module_switch request [] instance3 refl refl refl refl
      satisfied unique (λ e p. p)

request_while_enabling-blocked_example :
    enable_module service
      (record module_switch {
        others = request_between service code module_switch identity message sensor.unique_id;
      })
      false
      instance3
    ≡ blocked
unfolding contains_topic
request_while_enabling-blocked_example =
    request_while_enabling-blocked service code module_switch identity message sensor.unique_id
      instance3 refl refl refl

remote_control_lem_example :
    (receive_request service identity (remote_message request_disable) sensor.unique_id instance3
      ≡ some (
          after_command service request_disable
            (with_dispatcher (record idle { msg_service = 1 }) instance3)))
    × ((asked : ControlRequest)
        → (remote_confirmed asked (some (system_answer (some request_disable))) ≡ true)
          ↔ (asked ≡ request_disable))
remote_control_lem_example =
    remote_control_lem service request_disable identity sensor.unique_id instance3 1 refl
