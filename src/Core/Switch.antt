-- ===== src/Core/Switch.antt =====
-- Starting the instance, and switching its module on and off.
use zmf.Prelude.{ℕ, Bool, true, false, Option, none, some, ◌&&◌, not, if◌then◌else◌}
use zmf.Prelude.Int.{ℤ}
use zmf.Data.Handle.{inactive, active}
use zmf.Module.{internal_enable, internal_disable}
use zmf.Dispatcher.State.{MessagingService, Dispatcher}
use zmf.Dispatcher.Control.{Ending, ended, threw, hangs, on_enable, on_disable}
use zmf.Dispatcher.Control
use zmf.Discovery.State.{Discovery}
use zmf.Discovery.Service
use zmf.Core.State.{
  Core, Fate, returned, blocked, thrown, then_do, check_dependencies_satisfied, module_is_unique,
  dispatcher, with_dispatcher, announce,
}

-- The module's `enable` and `disable`. They may call the instance that they are given, so that they
-- act on the whole dispatcher, in which the module's own state is. `others` is what the delivery
-- thread and the threads that bring messages do to the dispatcher while enableModule is between
-- `onEnable` and the lock of the module, or enableModule or disableModule between the unlock and
-- `onDisable`.
pub record Switches (M U : Type 0) : Type 0 where
  pub enable : Dispatcher M U → Bool × Dispatcher M U
  pub disable : Dispatcher M U → Dispatcher M U
  pub others : Dispatcher M U → Dispatcher M U

module _ {M U : Type 0} (svc : MessagingService M) (module_switch : Switches M U) where
  -- The module enabled under its mutex.
  unfoldable pub locked_enable : Dispatcher M U → Fate (Bool × Dispatcher M U)
  locked_enable e =
      if e.module_locked
      then blocked
      else (let (success, a, e') =
            internal_enable module_switch.enable e.activity (record e { module_locked = true }) in
          returned (success, record e' { activity = a; module_locked = false }))

  -- The module disabled under its mutex.
  unfoldable pub locked_disable : Dispatcher M U → Fate (Dispatcher M U)
  locked_disable e =
      if e.module_locked
      then blocked
      else (let (a, e') =
            internal_disable module_switch.disable e.activity (record e { module_locked = true }) in
          returned (record e' { activity = a; module_locked = false }))

  -- What a call that ends the dispatcher comes to: what it throws goes on to the caller.
  unfoldable pub fate_of : Ending × Dispatcher M U → Fate (Dispatcher M U)
  fate_of (ended, e) = returned e
  fate_of (threw, e) = thrown
  fate_of (hangs, e) = blocked

  -- `onDisable` of the dispatcher, behind the unlock of the module.
  unfoldable pub dispatcher_off : Dispatcher M U → Fate (Dispatcher M U)
  unfolding fate_of
  dispatcher_off e = fate_of (on_disable svc (module_switch.others e))

  -- The end of enableModule.
  unfoldable pub enabled_or_not : Core M U → Bool × Dispatcher M U → Fate (Bool × Core M U)
  enabled_or_not c (true, e) =
      returned (true, announce active (record (with_dispatcher e c) { module_active = true }))
  enabled_or_not c (false, e) =
      then_do (dispatcher_off e) (λ e'. returned (false, with_dispatcher e' c))

  -- enableModule
  unfoldable pub enable_module : Bool → Core M U → Fate (Bool × Core M U)
  unfolding enabled_or_not then_do
  enable_module check_dependencies c =
      if c.module_active
      then returned (false, c)
      else if check_dependencies && not (check_dependencies_satisfied c)
      then returned (false, c)
      else then_do (locked_enable (module_switch.others (on_enable svc (dispatcher c))))
          (enabled_or_not c)

  -- disableModule
  unfoldable pub disable_module : Core M U → Fate (Core M U)
  unfolding then_do
  disable_module c =
      if not c.module_active
      then returned c
      else then_do (locked_disable (dispatcher c)) (λ e. then_do (dispatcher_off e) (λ e'.
        returned (announce inactive (record (with_dispatcher e' c) { module_active = false }))))

  -- The check of startInstance that the id of the module is unique.
  unfoldable pub uniqueness_checked : Core M U → Core M U
  uniqueness_checked c = if not (module_is_unique c) then record c { stop_requested = true } else c

  -- The part of startInstance behind the start of both services; the thread is started at its end.
  unfoldable pub started : Bool → Bool → Core M U → Core M U
  started module_auto_enable exit_when_enable_fail c =
      let announced = announce inactive c in
      let configured : Core M U = record announced {
        exit_when_enable_fail = exit_when_enable_fail;
        enable_requested = module_auto_enable;
      } in
      record (uniqueness_checked configured) {
        stop_requested = false;
        thread_initialized = true;
        is_started = true;
      }

  -- startInstance. `heard` is what the threads of the discovery service do until its `start`
  -- returns; `random` and `network_up` are as there.
  unfoldable pub start_instance :
      Bool
      → Bool
      → Bool
      → Option ℤ
      → ℕ
      → Bool
      → (Discovery (Dispatcher M U) → Discovery (Dispatcher M U))
      → Core M U
      → Fate (Bool × Core M U)
  unfolding then_do started fate_of
  start_instance auto_enable exit_when_enable_fail disable_equal buffer_size random network_up heard
        c =
      if c.is_started
      then returned (false, c)
      else (let (ok, h, e) = Control.start svc c.self_handle buffer_size (dispatcher c) in
          let c' : Core M U = record (with_dispatcher e c) {
            is_stopped = false;
            self_handle = h;
          } in
          elim ok [
            | none ↦ thrown
            | some false ↦ returned (false, c')
            | some true ↦
                let (up, d) = Service.start e h 1000 disable_equal random network_up c'.discovery in
                if up
                then returned (
                  true,
                  started auto_enable exit_when_enable_fail (record c' { discovery = heard d }),
                )
                else then_do (fate_of (Control.stop svc e))
                    (λ e'. returned (false, with_dispatcher e' (record c' { discovery = d })))
          ])
