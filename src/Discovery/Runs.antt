-- ===== src/Discovery/Runs.antt =====
-- `multicastLoop` over its rounds, from its first broadcast on.
pub mod Health
pub mod Rounds
pub mod Silence
pub mod Told
mod Examples
use zmf.Prelude.{ℕ, ◌+◌, Bytes, Option, none, some, List, [], ◌∷◌, ltb, if◌then◌else◌}
use zmf.Prelude.Optional.{◌>>=◌}
use zmf.Discovery.State.{StateBroadcast, Discovery, PeerStateChange}
use zmf.Discovery.Service.{send_state_multicast}
use zmf.Discovery.Timeouts.{loop_round}

-- What the clock and the socket give to a round: the milliseconds since the last broadcast, and a
-- broadcast with the address of its sender, if one came in.
pub record Turn : Type 0 where
  pub time_diff : ℕ
  pub input : Option (StateBroadcast × Bytes)

module _ {C : Type 0} (notify : PeerStateChange C) where
  -- The rounds of the `while`, until another thread sets `stopRequested_`.
  pub go_rounds : List Turn → Discovery C → Option (Discovery C)
  go_rounds [] d = some d
  go_rounds (turn ∷ turns) d = loop_round notify turn.time_diff turn.input d >>= go_rounds turns

  -- multicastLoop; `none` is a failed assertion or a null pointer followed.
  unfoldable pub multicast_loop : List Turn → Discovery C → Option (Discovery C)
  unfolding go_rounds
  multicast_loop turns d = go_rounds turns (send_state_multicast d)
