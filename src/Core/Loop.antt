-- ===== src/Core/Loop.antt =====
-- The thread of the instance: one round of its loop, and what it does when the loop has ended.
pub mod Rounds
pub mod Ends
pub mod Frames
pub mod Stuck
pub mod Race
use zmf.Prelude.{Bool, true, false, List, [], ◌∷◌, ◌&&◌, not, if◌then◌else◌}
use zmf.Data.Handle.{dead}
use zmf.Dispatcher.State.{MessagingService, Dispatcher}
use zmf.Dispatcher.Control
use zmf.Discovery.Service
use zmf.Core.State.{
  Core, Fate, returned, blocked, thrown, then_do, check_dependencies_satisfied, module_is_unique,
  dispatcher, with_dispatcher, announce,
}
use zmf.Core.Switch.{Switches, fate_of, enable_module, disable_module}

module _ {M U : Type 0} (svc : MessagingService M) (module_switch : Switches M U) where
  -- The branch of an active module.
  unfoldable pub active_round : Core M U → Fate (Core M U)
  active_round c =
      if c.disable_requested
      then disable_module svc module_switch (record c { disable_requested = false })
      else if not (check_dependencies_satisfied c)
      then then_do (disable_module svc module_switch c)
          (λ c'. returned (record c' { enable_requested = true }))
      else if not (module_is_unique c)
      then returned (record c { stop_requested = true })
      else returned c

  -- What follows a try to enable the module.
  after_enable : Bool × Core M U → Fate (Core M U)
  after_enable (success, c) =
      if not success && c.exit_when_enable_fail
      then returned (record c { stop_requested = true })
      else returned c

  -- The branch of an inactive module.
  unfoldable pub inactive_round : Core M U → Fate (Core M U)
  unfolding after_enable
  inactive_round c =
      if c.enable_requested && (check_dependencies_satisfied c && module_is_unique c)
      then then_do (enable_module svc module_switch false (record c { enable_requested = false }))
          after_enable
      else returned c

  -- The body of the loop of zmfInstanceLoop.
  unfoldable pub instance_round : Core M U → Fate (Core M U)
  instance_round c = if c.module_active then active_round c else inactive_round c

  -- The end of onInstanceStopped: the services are stopped.
  services_off : Core M U → Fate (Core M U)
  unfolding then_do
  services_off c =
      let d = Service.stop c.discovery in
      then_do (fate_of svc module_switch (Control.stop svc d.core)) (λ e.
        returned (record (with_dispatcher e (record c { discovery = d })) { is_stopped = true }))

  -- onInstanceStopped
  unfoldable pub on_instance_stopped : Core M U → Fate (Core M U)
  unfolding services_off
  on_instance_stopped c =
      if not c.is_started
      then returned c
      else then_do (if c.module_active then disable_module svc module_switch c else returned c)
          (λ c'. services_off (
            announce dead
              (record c' { stopped = c'.self_handle.unique_id ∷ c'.stopped; is_started = false })))

  -- One turn of zmfInstanceLoop: the test of the loop, then its body or what follows the loop.
  -- True says that the loop goes on.
  unfoldable pub loop_turn : Core M U → Fate (Bool × Core M U)
  loop_turn c =
      if not c.stop_requested
      then then_do (instance_round c) (λ c'. returned (true, c'))
      else then_do (on_instance_stopped c) (λ c'. returned (false, c'))
