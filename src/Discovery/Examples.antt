-- ===== src/Discovery/Examples.antt =====
-- A broadcast that a service hears for the first time.
use zmf.Prelude.{
  inl, inr, ◌≡◌, refl, true, false, none, some, List, [], ◌∷◌, codes, bytes_eq, arith,
  if◌then◌else◌,
}
use zmf.Prelude.Map.{lookup}
use zmf.Data.Handle.{ModuleState, inactive}
use zmf.Registry.{init}
use zmf.Registry.Consistent.{init-IsConsistent}
use zmf.Registry.Examples.{router}
use zmf.Discovery.State.{
  state_of_number, sender_id, additional_state_of, new_handle, StateBroadcast, Discovery,
  PeerStateChange, is_loopback,
}
use zmf.Discovery.Service.{send_state_multicast}
use zmf.Discovery.Service.Broadcasts.{send_state_multicast_lem}
use zmf.Discovery.Receive.{is_ignored, process_incoming_multicast}
use zmf.Discovery.Receive.Soundness.{IsSound}
use zmf.Discovery.Receive.Effects.{Heard}
use zmf.Discovery.Receive.Process.{process_incoming_multicast_lem}

-- The core collects the states that it is told.
abbrev pub collect : PeerStateChange (List ModuleState)
collect h new_state last_state states = new_state ∷ states

abbrev pub listening : Discovery (List ModuleState)
listening = record {
  core = [];
  registry = init;
  timeouts = λ ref. 0;
  next_ref = 0;
  self_handle = router;
  self_state = inactive;
  self_additional_state = [];
  multicast_frequency = 1000;
  peer_timeout = 4000;
  multicast_identifier = 11;
  disable_equal_module_interconnect = false;
  is_started = true;
  stop_requested = false;
  thread_initialized = true;
  sent = [];
}

pub listening-IsSound : IsSound listening
listening-IsSound = record {
  consistent = init-IsConsistent;
  directory =
      unfold init lookup in
      record {
        keyed = λ id e p. ground arith;
        alive = λ id e p. ground arith;
        allocated = λ id e p. ground arith;
        distinct = λ i j e f p q s. ground arith;
      };
}

abbrev pub broadcast : StateBroadcast
broadcast = record {
  zmq_pub_port = 5000;
  zmq_rep_port = 5001;
  sender_type_id = 2;
  sender_instance_id = 0;
  sender_name = codes "sensor";
  version = 1;
  lifecycle_state = 2;
  additional_state_infos = none;
  multicast_identifier = 12;
}

remote : is_loopback (codes "10.0.0.2") ≡ false
unfolding is_loopback bytes_eq
remote = refl

process_incoming_multicast_lem_example :
    (d' : Discovery (List ModuleState)) × (process_incoming_multicast collect broadcast
        (codes "10.0.0.2")
        listening
      ≡ some d')
    × (if is_ignored broadcast listening
        then d' ≡ listening
        else Heard collect broadcast (codes "10.0.0.2") listening d')
process_incoming_multicast_lem_example =
    process_incoming_multicast_lem collect broadcast (codes "10.0.0.2") listening listening-IsSound
      remote

send_state_multicast_lem_example :
    (b : StateBroadcast) × ((send_state_multicast listening).sent ≡ b ∷ [])
    × (sender_id b ≡ router.unique_id)
    × (state_of_number b.lifecycle_state ≡ inactive)
    × (additional_state_of b ≡ [])
    × ((new_handle b (codes "10.0.0.2") 3).unique_id ≡ router.unique_id)
    × ((new_handle b (codes "10.0.0.2") 3).name ≡ router.name)
    × ((new_handle b (codes "10.0.0.2") 3).version ≡ router.version)
send_state_multicast_lem_example =
    send_state_multicast_lem listening (codes "10.0.0.2") 3 refl (omega arith) (omega arith)
      (inr (inl refl))
