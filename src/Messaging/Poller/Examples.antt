-- ===== src/Messaging/Poller/Examples.antt =====
-- An instance whose messages go by the service on ZeroMQ.
use zmf.Prelude.{ℕ, suc, refl, inl, true, false, some, [], ◌∷◌, codes}
use zmf.Prelude.Int.{pos}
use zmf.Data.Handle.{inactive}
use zmf.Module.{disabled}
use zmf.Registry.Examples.{router, two_peers}
use zmf.Data.Reply.{future_reply}
use zmf.Dispatcher.State.{Dispatcher, ModuleCode}
use zmf.Discovery.Timeouts.Examples.{heard, heard-Heard, heard-HasOrderedPeers}
use zmf.Core.Runs.Well.{IsWell, IsHealthy-same}
use zmf.Dispatcher.Steady.{on_sub_msg_received-IsTame}
use zmf.Dispatcher.Incoming.{on_sub_msg_received}
use zmf.Discovery.State.{Discovery}
use zmf.Core.State.{Core}
use zmf.Core.Switch.{Switches}
use zmf.Core.Running.{IsModest}
use zmf.Core.Loop.Rounds.{instance_round_lem}
use zmf.Messaging.State.{Messaging}
use zmf.Messaging.Poller.{zmq_service}
use zmf.Messaging.Poller.Calm.{zmq_service-IsCalm}
use zmf.Messaging.Examples.{wire, host, live}

-- The module counts its calls.
abbrev module_switch : Switches Messaging ℕ
module_switch = record {
  enable = λ e. (true, record e { module_state = 1 });
  disable = λ e. record e { module_state = 0 };
  others =
      on_sub_msg_received (zmq_service wire host)
        (record { type = record { match = 5 ∷ [] }; payload = [] }) router.unique_id;
}

module_switch-IsModest : IsModest (zmq_service-IsCalm wire host) module_switch
module_switch-IsModest = (
  (λ e. refl),
  (λ e. refl),
  (λ e up. up),
  (λ e up. up),
  on_sub_msg_received-IsTame (zmq_service wire host) (zmq_service-IsCalm wire host)
      (record { type = record { match = 5 ∷ [] }; payload = [] }) router.unique_id,
)

abbrev silent_core : Dispatcher Messaging ℕ
silent_core = record {
  msg_service = live;
  module_state = 0;
  activity = disabled;
  module_locked = false;
  alive = false;
  meta_queue = [];
  event_queue = [];
  request_queue = [];
  state_queue = [];
  subscriptions = [];
  sub_counter = 0;
  inmsg_buffer_size = pos 0;
}

abbrev found : Discovery (Dispatcher Messaging ℕ)
found = record {
  core = silent_core;
  registry = two_peers;
  timeouts = λ ref. 0;
  next_ref = 2;
  self_handle = router;
  self_state = inactive;
  self_additional_state = [];
  multicast_frequency = 1000;
  peer_timeout = 4000;
  multicast_identifier = 0;
  disable_equal_module_interconnect = false;
  is_started = true;
  stop_requested = false;
  thread_initialized = true;
  sent = [];
}

abbrev instance3 : Core Messaging ℕ
instance3 = record {
  info = record {
    unique_id = record { type_id = 3; instance_id = 0 };
    version = 1;
    name = codes "three";
    dependencies = record { module_type_id = 1; module_version = 1 } ∷ [];
  };
  self_handle = router;
  discovery = found;
  exit_when_enable_fail = false;
  is_started = true;
  is_stopped = false;
  module_active = false;
  stop_requested = false;
  disable_requested = false;
  enable_requested = true;
  thread_initialized = true;
  stopped = [];
}

-- The instance with the peers that a discovery service has heard.
abbrev instance4 : Core Messaging ℕ
instance4 = record instance3 {
  discovery = record found { registry = heard.registry; next_ref = heard.next_ref };
}

instance4-IsWell : IsWell (zmq_service-IsCalm wire host) instance4
instance4-IsWell = (
  (refl, (inl refl, refl, refl, refl, refl)),
  IsHealthy-same heard instance4.discovery refl refl refl
      (heard-Heard.sound, heard-HasOrderedPeers, refl),
)

abbrev code : ModuleCode ℕ
code = record {
  callback = λ id msg sender u. suc u;
  handle_request = λ msg sender u. (some future_reply, suc u);
  handle_state_change = λ h s t u. (true, suc u);
}

-- The module is enabled, subscribes, and commands another instance.
abbrev enabled_one : Core Messaging ℕ
enabled_one =
    (instance_round_lem (zmq_service wire host) module_switch (zmq_service-IsCalm wire host)
      module_switch-IsModest instance4 instance4-IsWell.0).0
