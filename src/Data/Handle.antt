-- ===== src/Data/Handle.antt =====
-- include/zmf/ModuleHandle.hpp, src/data/ModuleHandleInternal.hpp and include/zmf/ModuleState.hpp.
-- Handles are shared by pointer. `ref` is the object that a pointer points to; the one field that
-- changes while peers share the object, `PeerTimeout`, stands in a store by `ref` (`Discovery`).
use zmf.Prelude.{
  ℕ, ◌≡◌, ◌↔◌, true, false, ◌==◌, arith, Bool, Bytes, codes, Option, some, ◌++◌, if◌then◌else◌, not,
}
use zmf.Prelude.Decimal.{to_string}
use zmf.Data.UniqueId.{ModuleUniqueId}

-- The three names of the enumeration, and any other number that a broadcast of a peer may carry.
pub data ModuleState : Type 0 where
  dead inactive active : ModuleState
  other : ℕ → ModuleState

-- `==` on states.
abbrev pub state_eq : ModuleState → ModuleState → Bool
state_eq dead dead = true
state_eq inactive inactive = true
state_eq active active = true
state_eq (other m) (other n) = m == n
state_eq _ _ = false

pub state_eq_iff : (s t : ModuleState) → (state_eq s t ≡ true) ↔ (s ≡ t)
state_eq_iff s t = ground arith

pub record ModuleHandle : Type 0 where
  pub unique_id : ModuleUniqueId
  pub version : ℕ
  pub name : Bytes
  pub zmq_pub_addr : Bytes
  pub zmq_rep_addr : Bytes
  -- `none` while the port has not been set
  pub self_zmq_pub_port : Option ℕ
  pub self_zmq_rep_port : Option ℕ
  pub self : Bool
  pub ref : ℕ

abbrev local_address : ℕ → Bytes
local_address port = codes "tcp://127.0.0.1:" ++ to_string port

-- selfSetPubPort
unfoldable pub self_set_pub_port : ModuleHandle → ℕ → ModuleHandle
self_set_pub_port h port =
    if not h.self
    then h
    else record h { self_zmq_pub_port = some port; zmq_pub_addr = local_address port }

-- selfSetRepPort
unfoldable pub self_set_rep_port : ModuleHandle → ℕ → ModuleHandle
self_set_rep_port h port =
    if not h.self
    then h
    else record h { self_zmq_rep_port = some port; zmq_rep_addr = local_address port }
