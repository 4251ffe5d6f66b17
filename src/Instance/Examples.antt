-- ===== src/Instance/Examples.antt =====
-- An instance that is started without an automatic enable.
use zmf.Prelude.{ℕ, ◌≡◌, refl, true, false, none, some, [], codes, bytes_eq, ◌∷◌}
use zmf.Dispatcher.Control
use zmf.Dispatcher.Examples.{service, service-IsCalm}
use zmf.Core.State.{Core, returned}
use zmf.Core.Runs.Well.{IsWell}
use zmf.Discovery.Receive.Soundness.{IsSound}
use zmf.Discovery.Timeouts.Examples.{heard, heard-Heard, heard-HasOrderedPeers}
use zmf.Core.Examples.{module_switch, instance3}
use zmf.Dispatcher.Steady.{IsSteady}
use zmf.Discovery.State.{StateBroadcast, is_loopback}
use zmf.Discovery.Examples.{broadcast}
use zmf.Discovery.Runs.{Turn}
use zmf.Instance.{no_auto_enable, no_peer_discovery_wait, start_with_options}
use zmf.Instance.Hears.{hears, start_with_options_lem}

abbrev due : Turn
due = record { time_diff = 1001; input = none }

abbrev second_peer : StateBroadcast
second_peer = record broadcast { sender_instance_id = 7 }

abbrev due_and_heard : Turn
due_and_heard = record { time_diff = 1001; input = some (second_peer, codes "10.0.0.3") }

abbrev new_one : Core ℕ ℕ
new_one = record instance3 {
  is_started = false;
  discovery = record instance3.discovery {
    registry = heard.registry;
    next_ref = heard.next_ref;
    is_started = false;
  };
}

new_one-IsSound : IsSound new_one.discovery
new_one-IsSound = record {
  consistent = heard-Heard.sound.consistent;
  directory = heard-Heard.sound.directory;
}

service-IsSteady : IsSteady service-IsCalm
service-IsSteady = record {
  joins = λ h m m' up p. tt;
  leaves = λ h m m' up p. tt;
  subscribes = λ topic m m' up p. tt;
  publishes = λ msg m m' up p. tt;
  requests = λ target msg id m m' up p. tt;
  replies = λ id msg m m' up p. tt;
  injects = λ id m up. tt;
}

remote : is_loopback (codes "10.0.0.3") ≡ false
unfolding is_loopback bytes_eq
remote = refl

start_with_options_lem_example :
    (c : Core ℕ ℕ) × (start_with_options service module_switch
        (no_peer_discovery_wait ∷ no_auto_enable ∷ [])
        none
        11
        true
        (hears service (due ∷ due_and_heard ∷ []))
        new_one
      ≡ returned c)
    × IsWell service-IsCalm c
    × (c.is_started ≡ true)
    × (c.stop_requested ≡ false)
    × (c.enable_requested ≡ false)
    × (c.exit_when_enable_fail ≡ true)
unfolding zmf.Instance.has_option Control.start
start_with_options_lem_example =
    start_with_options_lem service service-IsCalm service-IsSteady module_switch
      (no_peer_discovery_wait ∷ no_auto_enable ∷ []) none 11 (due ∷ due_and_heard ∷ []) new_one refl
      refl new_one-IsSound heard-HasOrderedPeers (refl, refl, refl, refl) refl tt (tt, (remote, tt))
