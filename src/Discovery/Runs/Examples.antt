-- ===== src/Discovery/Runs/Examples.antt =====
-- A peer that says nothing more for five seconds.
use zmf.Prelude.{◌≡◌, ◌∙◌, refl, false, none, some, List, [], ◌∷◌, codes, arith, bytes_eq}
use zmf.Prelude.Map.{same_refl}
use zmf.Data.UniqueId.Order.{id_key}
use zmf.Data.Handle.{ModuleState}
use zmf.Registry.View.{Entry, view}
use zmf.Discovery.State.{
  StateBroadcast, Discovery, sender_id, new_handle, additional_state_of, is_loopback,
}
use zmf.Discovery.Receive.Effects.{heard_state}
use zmf.Discovery.Examples.{collect, broadcast}
use zmf.Discovery.Timeouts.Examples.{heard, heard-Heard, nobody_known, heard-HasOrderedPeers}
use zmf.Discovery.Runs.{Turn, multicast_loop}
use zmf.Discovery.Runs.Health.{IsHealthy, HasPeer}
use zmf.Discovery.Runs.Told.{multicast_loop-IsHealthy}
use zmf.Discovery.Runs.Silence.{multicast_loop_lem}

abbrev sensor : Entry
sensor = record {
  handle = new_handle broadcast (codes "10.0.0.2") 0;
  state = heard_state broadcast;
  additional_state = additional_state_of broadcast;
}

abbrev second_peer : StateBroadcast
second_peer = record broadcast { sender_instance_id = 7 }

abbrev due : Turn
due = record { time_diff = 1001; input = none }

abbrev due_and_heard : Turn
due_and_heard = record { time_diff = 1001; input = some (second_peer, codes "10.0.0.3") }

abbrev five_seconds : List Turn
five_seconds = due ∷ due_and_heard ∷ due ∷ due ∷ due ∷ []

remote : is_loopback (codes "10.0.0.3") ≡ false
unfolding is_loopback bytes_eq
remote = refl

heard-IsHealthy : IsHealthy heard
heard-IsHealthy = (heard-Heard.sound, heard-HasOrderedPeers, refl)

sensor-there : HasPeer (sender_id broadcast) sensor 0 heard
unfolding new_handle
sensor-there = (
  heard-Heard.directory (sender_id broadcast)
      ∙ ground (arith, same_refl (sender_id broadcast), nobody_known),
  refl,
)

multicast_loop_lem_example :
    (d' : Discovery (List ModuleState)) × (multicast_loop collect five_seconds heard ≡ some d')
    × IsHealthy d'
    × (view d'.registry (sender_id broadcast) ≡ none)
multicast_loop_lem_example =
    multicast_loop_lem collect (sender_id broadcast) sensor 0 five_seconds heard heard-IsHealthy
      sensor-there (omega arith) (omega arith) (tt, (remote, (tt, (tt, (tt, tt)))))
      (tt, ((λ e. ground arith), (tt, (tt, (tt, tt)))))

-- The first peer is heard again, and then the second one.
abbrev both_heard : List Turn
both_heard =
    record { time_diff = 1001; input = some (broadcast, codes "10.0.0.3") } ∷ due_and_heard ∷ []

multicast_loop-IsHealthy_example :
    (d' : Discovery (List ModuleState)) × (multicast_loop collect both_heard heard ≡ some d')
    × IsHealthy d'
    × Unit {0}
multicast_loop-IsHealthy_example =
    multicast_loop-IsHealthy collect (λ states. Unit {0}) (λ h n l states p. tt) both_heard heard
      heard-IsHealthy tt (remote, (remote, tt))
