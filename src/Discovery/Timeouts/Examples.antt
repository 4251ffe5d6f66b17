-- ===== src/Discovery/Timeouts/Examples.antt =====
-- A peer that has not been heard for too long.
use zmf.Prelude.{◌≡◌, ◌≢◌, refl, none, some, arith, codes}
use zmf.Prelude.Map.{lookup, values}
use zmf.Data.UniqueId.{ModuleUniqueId}
use zmf.Data.UniqueId.Order.{id_key}
use zmf.Data.Handle.{ModuleState, dead}
use zmf.Registry.{init}
use zmf.Registry.Ordered.{HasOrderedPeers, init-HasOrderedPeers, add_module-HasOrderedPeers}
use zmf.Registry.View.{Entry, view}
use zmf.Discovery.State.{Discovery, new_handle, additional_state_of}
use zmf.Discovery.Receive.Soundness.{IsSound}
use zmf.Discovery.Receive.Effects.{known, heard_state, joined, joined-Heard, Heard}
use zmf.Discovery.Examples.{collect, broadcast, listening, listening-IsSound}
use zmf.Discovery.Timeouts.{update_peer_timeouts}
use zmf.Discovery.Timeouts.Ages.{aged, overdue}
use zmf.Discovery.Timeouts.Drops.{tell_dead}
use zmf.Discovery.Timeouts.Round.{unless_overdue, update_peer_timeouts_lem}
use mathlib.Core.List.{List}

abbrev pub heard : Discovery (List ModuleState)
heard = joined collect broadcast (codes "10.0.0.2") listening listening-IsSound

abbrev silent_for_long : Discovery (List ModuleState)
silent_for_long = record heard { timeouts = λ ref. 4000 }

pub nobody_known : known collect broadcast (codes "10.0.0.2") listening ≡ none
unfolding init lookup
nobody_known = refl

is_alive : heard_state broadcast ≢ dead
is_alive e = absurd (ground arith)

pub heard-Heard : Heard collect broadcast (codes "10.0.0.2") listening heard
heard-Heard =
    joined-Heard collect broadcast (codes "10.0.0.2") listening listening-IsSound nobody_known
      is_alive

silent_for_long-IsSound : IsSound silent_for_long
silent_for_long-IsSound = record {
  consistent = heard-Heard.sound.consistent;
  directory = heard-Heard.sound.directory;
}

pub heard-HasOrderedPeers : HasOrderedPeers heard.registry
heard-HasOrderedPeers =
    add_module-HasOrderedPeers (new_handle broadcast (codes "10.0.0.2") 0) (heard_state broadcast)
      (additional_state_of broadcast) init init-HasOrderedPeers

update_peer_timeouts_lem_example :
    let d = silent_for_long in
    let d' = update_peer_timeouts collect d in
    let late = overdue 1000 4000 d.timeouts (values d.registry.all_peers) in
    IsSound d'
    × HasOrderedPeers d'.registry
    × ((j : ModuleUniqueId)
        → view d'.registry j ≡ unless_overdue 1000 4000 d.timeouts (view d.registry j))
    × (d'.core ≡ tell_dead collect (view d.registry) late d.core)
    × ((j : ModuleUniqueId) (e : Entry)
        → view d.registry j ≡ some e
        → d'.timeouts e.handle.ref ≡ aged 1000 (d.timeouts e.handle.ref))
update_peer_timeouts_lem_example =
    update_peer_timeouts_lem collect silent_for_long silent_for_long-IsSound heard-HasOrderedPeers
      refl
