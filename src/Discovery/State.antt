-- ===== src/Discovery/State.antt =====
-- src/discovery_implementation/PeerDiscoveryService.hpp: the members of the service, and the
-- broadcasts of proto/FrameworkProto.proto.
use zmf.Prelude.{
  ℕ, ◌%◌, ◌^◌, Bool, false, Bytes, codes, Option, none, some, List, [], ◌++◌, ◌==◌, ◌||◌, not,
  bytes_eq, if◌then◌else◌,
}
use zmf.Prelude.Decimal.{to_string}
use zmf.Data.UniqueId.{ModuleUniqueId}
use zmf.Data.Handle.{ModuleHandle, ModuleState, dead, inactive, active, other}
use zmf.Registry.{PeerRegistry}

-- proto/FrameworkProto.proto: `StateBroadcast` and its `SenderId`, as protobuf hands them over.
pub record StateBroadcast : Type 0 where
  pub zmq_pub_port : ℕ
  pub zmq_rep_port : ℕ
  pub sender_type_id : ℕ
  pub sender_instance_id : ℕ
  pub sender_name : Bytes
  pub version : ℕ
  pub lifecycle_state : ℕ
  pub additional_state_infos : Option Bytes
  pub multicast_identifier : ℕ

-- The cast of a number to `ModuleState`.
abbrev pub state_of_number : ℕ → ModuleState
state_of_number n =
    if n == 0 then dead else if n == 1 then inactive else if n == 2 then active else other n

abbrev pub number_of_state : ModuleState → ℕ
number_of_state dead = 0
number_of_state inactive = 1
number_of_state active = 2
number_of_state (other n) = n

-- `C` is the state of the core. `timeouts` holds the field `PeerTimeout` of each handle object, and
-- `next_ref` is the object that the next `new` gives. `sent` is what was handed to the socket, the
-- newest first.
pub record Discovery (C : Type 0) : Type 0 where
  pub core : C
  pub registry : PeerRegistry
  pub timeouts : ℕ → ℕ
  pub next_ref : ℕ
  pub self_handle : ModuleHandle
  pub self_state : ModuleState
  pub self_additional_state : Bytes
  pub multicast_frequency : ℕ
  pub peer_timeout : ℕ
  pub multicast_identifier : ℕ
  pub disable_equal_module_interconnect : Bool
  pub is_started : Bool
  pub stop_requested : Bool
  pub thread_initialized : Bool
  pub sent : List StateBroadcast

abbrev pub peer_timeout_factor : ℕ
peer_timeout_factor = 4

-- An unset port is an indeterminate value; 0 stands for it.
abbrev pub port_value : Option ℕ → ℕ
port_value none = 0
port_value (some port) = port

abbrev pub update : (ℕ → ℕ) → ℕ → ℕ → ℕ → ℕ
update f r v x = if x == r then v else f x

-- `IPeerDiscoveryCoreInterface::peerStateChange`.
abbrev pub PeerStateChange : Type 0 → Type 0
PeerStateChange C = ModuleHandle → ModuleState → ModuleState → C → C

-- The id of the sender: a 32-bit type id is cut to 16 bits.
abbrev pub sender_id : StateBroadcast → ModuleUniqueId
sender_id b = record { type_id = b.sender_type_id % 2 ^ 16; instance_id = b.sender_instance_id }

abbrev pub additional_state_of : StateBroadcast → Bytes
additional_state_of b = elim b.additional_state_infos [ none ↦ [] | some bytes ↦ bytes ]

abbrev address : Bytes → ℕ → Bytes
address ip port = codes "tcp://" ++ (ip ++ (codes ":" ++ to_string port))

-- The handle of a newly seen peer.
unfoldable pub new_handle : StateBroadcast → Bytes → ℕ → ModuleHandle
new_handle b ip ref = record {
  unique_id = sender_id b;
  version = b.version % 2 ^ 16;
  name = b.sender_name;
  zmq_pub_addr = address ip b.zmq_pub_port;
  zmq_rep_addr = address ip b.zmq_rep_port;
  self_zmq_pub_port = none;
  self_zmq_rep_port = none;
  self = false;
  ref = ref;
}

-- `assert(ip != "127.0.0.1")`
unfoldable pub is_loopback : Bytes → Bool
is_loopback ip = bytes_eq ip (codes "127.0.0.1")

module _ {C : Type 0} where
  -- `!isStarted_ || stopRequested_`
  abbrev pub is_stopping : Discovery C → Bool
  is_stopping d = not d.is_started || d.stop_requested
