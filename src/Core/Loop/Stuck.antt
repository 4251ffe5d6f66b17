-- ===== src/Core/Loop/Stuck.antt =====
-- An instance whose loop waits for the mutex of its module for ever.
use zmf.Prelude.{◌≡◌, true, false, List, ◌∷◌, arith}
use zmf.Module.{is_enabled}
use zmf.Dispatcher.State.{MessagingService, ModuleCode, RequestNotification, Dispatcher}
use zmf.Dispatcher.Control.{on_enable}
use zmf.Dispatcher.Delivery.{goes_on, deliver_request}
use zmf.Core.State.{
  Core, blocked, then_do, check_dependencies_satisfied, module_is_unique, dispatcher,
  with_dispatcher,
}
use zmf.Core.Switch.{Switches, locked_enable, enable_module}
use zmf.Core.Running.Enabling.{on_enable_lem}
use zmf.Core.Loop.{inactive_round, instance_round}

module _ {M U : Type 0} (svc : MessagingService M) (code : ModuleCode U)
    (module_switch : Switches M U) where
  locked_enable-blocked :
      (e : Dispatcher M U) → e.module_locked ≡ true → locked_enable svc module_switch e ≡ blocked
  unfolding locked_enable
  locked_enable-blocked e locked = ground arith

  pub enable_module-blocked :
      (c : Core M U)
      → c.module_active ≡ false
      → (module_switch.others (on_enable svc (dispatcher c))).module_locked ≡ true
      → enable_module svc module_switch false c ≡ blocked
  unfolding enable_module then_do
  enable_module-blocked c off locked =
      ground
        (arith, locked_enable-blocked (module_switch.others (on_enable svc (dispatcher c))) locked)

  round-blocked :
      (c : Core M U)
      → c.module_active ≡ false
      → (module_switch.others (on_enable svc (dispatcher c))).module_locked ≡ true
      → c.enable_requested ≡ true
      → check_dependencies_satisfied c ≡ true
      → module_is_unique c ≡ true
      → instance_round svc module_switch c ≡ blocked
  unfolding instance_round inactive_round then_do
  round-blocked c off locked asked satisfied unique =
      ground (arith, enable_module-blocked (record c { enable_requested = false }) off locked)

  -- Where a request reaches a module that is not enabled, with the mutex free, its delivery leaves
  -- the dispatcher in such a state that the next round of the instance that tries to enable the
  -- module waits for the mutex for ever. Other threads must leave a locked mutex locked.
  pub drop_then_enable-blocked :
      (n : RequestNotification) (rest : List RequestNotification) (c : Core M U)
      → c.module_active ≡ false
      → is_enabled (dispatcher c).activity ≡ false
      → (dispatcher c).module_locked ≡ false
      → c.enable_requested ≡ true
      → check_dependencies_satisfied c ≡ true
      → module_is_unique c ≡ true
      → ((e : Dispatcher M U)
          → e.module_locked ≡ true
          → (module_switch.others e).module_locked ≡ true)
      → (e : Dispatcher M U) × (deliver_request svc code (n ∷ rest) (dispatcher c) ≡ goes_on e)
        × (instance_round svc module_switch (with_dispatcher e c) ≡ blocked)
  unfolding deliver_request check_dependencies_satisfied module_is_unique
  drop_then_enable-blocked n rest c off idle free asked satisfied unique stays =
      let e : Dispatcher M U = record (dispatcher c) {
        request_queue = rest;
        module_locked = true;
      } in
      let k = on_enable_lem svc module_switch e in
      (
        e,
        ground arith,
        round-blocked (with_dispatcher e c) off (stays (on_enable svc e) k.2) asked satisfied
            unique,
      )
