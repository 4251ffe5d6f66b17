-- ===== src/Core/Running.antt =====
-- The states of a running instance, and what switching its module does to them.
pub mod Enabling
use zmf.Prelude.{◌≡◌, refl, sym, subst, ◌∙◌, Bool, true, false, arith, if◌then◌else◌}
use zmf.Data.Handle.{ModuleState, inactive, active}
use zmf.Module.{enabled, disabled, is_enabled, internal_enable, internal_disable}
use zmf.Module.Lifecycle.{IsSettled}
use zmf.Dispatcher.State.{MessagingService, Dispatcher}
use zmf.Dispatcher.Control.{on_enable, on_disable}
use zmf.Dispatcher.Control.Calm.{IsCalm, on_disable_lem}
use zmf.Dispatcher.Steady.{IsTame}
use zmf.Discovery.Service.{update_self_state, send_state_multicast}
use zmf.Core.State.{Core, returned, then_do, dispatcher, with_dispatcher, announce}
use zmf.Core.Switch.{
  Switches, fate_of, locked_enable, locked_disable, dispatcher_off, enabled_or_not, enable_module,
  disable_module,
}

-- What other instances are to see of a module.
abbrev pub public_state : Bool → ModuleState
public_state module_active = if module_active then active else inactive

-- The core, the module, the delivery thread and the broadcast state agree on whether the module is
-- enabled, and no one holds the module's mutex.
abbrev pub IsCoherent : {M U : Type 0} → Core M U → Type 0
IsCoherent c =
    IsSettled (dispatcher c).activity
    × (is_enabled (dispatcher c).activity ≡ c.module_active)
    × ((dispatcher c).alive ≡ c.module_active)
    × ((dispatcher c).module_locked ≡ false)
    × (c.discovery.self_state ≡ public_state c.module_active)

-- The same, while the messaging service is up.
abbrev pub IsRunning : {M U : Type 0} {svc : MessagingService M} → IsCalm svc → Core M U → Type 0
IsRunning calm c = calm.IsUp (dispatcher c).msg_service × IsCoherent c

-- A module whose `enable` and `disable` leave the delivery thread alone and the messaging service
-- up; and other threads that leave both so outside of the module's mutex, and that mutex free: they
-- do not drop a request there.
abbrev pub IsModest : {M U : Type 0} {svc : MessagingService M} → IsCalm svc → Switches M U → Type 0
IsModest {M} {U} {svc} calm module_switch =
    ((e : Dispatcher M U) → (module_switch.enable e).1.alive ≡ e.alive)
    × ((e : Dispatcher M U) → (module_switch.disable e).alive ≡ e.alive)
    × ((e : Dispatcher M U)
        → calm.IsUp e.msg_service
        → calm.IsUp (module_switch.enable e).1.msg_service)
    × ((e : Dispatcher M U)
        → calm.IsUp e.msg_service
        → calm.IsUp (module_switch.disable e).msg_service)
    × ((e : Dispatcher M U) → IsTame svc calm e (module_switch.others e))

module _ {M U : Type 0} (svc : MessagingService M) (module_switch : Switches M U) where
  -- The dispatcher after `onDisable` and what other threads did before it.
  abbrev pub off_after_others : Dispatcher M U → Dispatcher M U
  off_after_others e = (on_disable svc (module_switch.others e)).1

  pub dispatcher_off_lem :
      (calm : IsCalm svc)
      → IsModest calm module_switch
      → (e : Dispatcher M U) → calm.IsUp e.msg_service
      → e.module_locked ≡ false
      → let e' = off_after_others e in
        (dispatcher_off svc module_switch e ≡ returned e')
        × calm.IsUp e'.msg_service
        × (e'.alive ≡ false)
        × (e'.activity ≡ e.activity)
        × (e'.module_locked ≡ false)
  unfolding dispatcher_off fate_of
  dispatcher_off_lem calm modest e up free =
      let (still, same) = modest.4 e in
      let q = on_disable_lem svc calm (module_switch.others e) (still up) (ground arith) in
      (ground (arith, q.0), q.1, q.2.0, q.2.1 ∙ same.0, q.2.2 ∙ (same.2 ∙ free))

  pub announce_lem :
      (state : ModuleState) (c : Core M U)
      → let c' = announce state c in
        (dispatcher c' ≡ dispatcher c)
        × (c'.discovery.self_state ≡ state)
        × (c'.discovery.registry ≡ c.discovery.registry)
        × (c'.module_active ≡ c.module_active)
        × (c'.enable_requested ≡ c.enable_requested)
        × (c'.disable_requested ≡ c.disable_requested)
        × (c'.stop_requested ≡ c.stop_requested)
        × (c'.exit_when_enable_fail ≡ c.exit_when_enable_fail)
        × (c'.is_started ≡ c.is_started)
        × (c'.stopped ≡ c.stopped)
        × (c'.self_handle ≡ c.self_handle)
  unfolding announce update_self_state send_state_multicast
  announce_lem state c = ground arith

  locked_disable_lem :
      (calm : IsCalm svc)
      → IsModest calm module_switch
      → (e : Dispatcher M U) → e.module_locked ≡ false
      → e.activity ≡ enabled
      → calm.IsUp e.msg_service
      → (e' : Dispatcher M U) × (locked_disable svc module_switch e ≡ returned e')
        × calm.IsUp e'.msg_service
        × (e'.activity ≡ disabled)
        × (e'.module_locked ≡ false)
        × (e'.alive ≡ e.alive)
  unfolding locked_disable internal_disable
  locked_disable_lem calm modest e free on up = (
    record (module_switch.disable (record e { module_locked = true })) {
      activity = disabled;
      module_locked = false;
    },
    ground arith,
    modest.3 _ up,
    refl,
    refl,
    modest.1 _,
  )

  -- The core as it is after its module has been switched off.
  abbrev switched_off : Core M U → Dispatcher M U → Core M U
  switched_off c e =
      announce inactive (record (with_dispatcher (off_after_others e) c) { module_active = false })

  disable_module-returned :
      (c : Core M U) (e : Dispatcher M U)
      → c.module_active ≡ true
      → dispatcher_off svc module_switch e ≡ returned (off_after_others e)
      → locked_disable svc module_switch (dispatcher c) ≡ returned e
      → disable_module svc module_switch c ≡ returned (switched_off c e)
  unfolding disable_module then_do
  disable_module-returned c e on q p = ground (arith, p, q)

  pub disable_module_lem :
      (calm : IsCalm svc)
      → IsModest calm module_switch
      → (c : Core M U) → IsRunning calm c
      → c.module_active ≡ true
      → (c' : Core M U) × (disable_module svc module_switch c ≡ returned c')
        × IsRunning calm c'
        × (c'.module_active ≡ false)
        × (c'.enable_requested ≡ c.enable_requested)
        × (c'.disable_requested ≡ c.disable_requested)
        × (c'.stop_requested ≡ c.stop_requested)
        × (c'.is_started ≡ c.is_started)
        × (c'.stopped ≡ c.stopped)
        × (c'.self_handle ≡ c.self_handle)
  disable_module_lem calm modest c coherent on =
      let (e, p, up, off, free, same) =
        locked_disable_lem calm modest (dispatcher c) coherent.1.3 (ground arith) coherent.0 in
      let q = dispatcher_off_lem calm modest e up free in
      let r =
        announce_lem inactive
          (record (with_dispatcher (off_after_others e) c) { module_active = false }) in
      (
        switched_off c e,
        disable_module-returned c e on q.0 p,
        (subst (λ d. calm.IsUp d.msg_service) (sym r.0) q.1, ground arith),
        ground arith,
        ground arith,
        ground arith,
        ground arith,
        ground arith,
        ground arith,
        ground arith,
      )
