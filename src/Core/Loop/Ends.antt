-- ===== src/Core/Loop/Ends.antt =====
-- How a running instance begins and how it ends.
use zmf.Prelude.{◌≡◌, refl, sym, subst, Bool, true, false, ◌∷◌, arith, Bool-cases, inl, inr}
use zmf.Data.UniqueId.Order.{number_key}
use zmf.Data.Handle.{dead, inactive}
use zmf.Module.{disabled}
use zmf.Dispatcher.State.{MessagingService, Dispatcher}
use zmf.Dispatcher.Control
use zmf.Dispatcher.Control.Calm.{IsCalm, stop_lem}
use zmf.Discovery.State.{Discovery}
use zmf.Discovery.Service
use zmf.Core.State.{
  Core, returned, then_do, module_is_unique, dispatcher, with_dispatcher, announce,
}
use zmf.Core.Switch.{Switches, fate_of, started, uniqueness_checked}
use zmf.Core.Running.{IsCoherent, IsRunning, IsModest, announce_lem, disable_module_lem}
use zmf.Core.Loop.{services_off, on_instance_stopped}

-- The members of the dispatcher and of the core that a disabled module of an instance has before
-- its loop begins.
abbrev pub IsIdle : {M U : Type 0} → Core M U → Type 0
IsIdle c =
    ((dispatcher c).activity ≡ disabled)
    × ((dispatcher c).alive ≡ false)
    × ((dispatcher c).module_locked ≡ false)
    × (c.module_active ≡ false)

-- The state of an instance that has come to a stop.
abbrev pub IsOver : {M U : Type 0} → Core M U → Core M U → Type 0
IsOver c c' =
    (c'.is_started ≡ false)
    × (c'.is_stopped ≡ true)
    × (c'.module_active ≡ false)
    × ((dispatcher c').activity ≡ disabled)
    × ((dispatcher c').alive ≡ false)
    × (c'.discovery.self_state ≡ dead)
    × (c'.discovery.is_started ≡ false)
    × (c'.stopped ≡ c.self_handle.unique_id ∷ c.stopped)

module _ {M U : Type 0} (svc : MessagingService M) (module_switch : Switches M U) where
  pub uniqueness_checked_lem :
      (c : Core M U)
      → let c' = uniqueness_checked svc module_switch c in
        (c'.discovery ≡ c.discovery)
        × (c'.module_active ≡ c.module_active)
        × (c'.enable_requested ≡ c.enable_requested)
        × (c'.exit_when_enable_fail ≡ c.exit_when_enable_fail)
  unfolding uniqueness_checked
  uniqueness_checked_lem c = elim (Bool-cases (module_is_unique c)) [
    | inl unique ↦ ground arith
    | inr twice ↦ ground arith
  ]

  -- Once both services are started, the instance of a disabled module is running: it is started,
  -- broadcasts the module as inactive, is to enable it exactly if it was told so, and is not to
  -- stop. That holds whether or not another module has its id.
  pub started_lem :
      (auto_enable exit_when_enable_fail : Bool) (c : Core M U)
      → IsIdle c
      → let c' = started svc module_switch auto_enable exit_when_enable_fail c in
        IsCoherent c'
        × (c'.is_started ≡ true)
        × (c'.enable_requested ≡ auto_enable)
        × (c'.exit_when_enable_fail ≡ exit_when_enable_fail)
        × (c'.stop_requested ≡ false)
        × (c'.discovery.registry ≡ c.discovery.registry)
  unfolding started
  started_lem auto_enable exit_when_enable_fail c idle =
      let r = announce_lem svc module_switch inactive c in
      let k = uniqueness_checked_lem (record (announce inactive c) {
        exit_when_enable_fail = exit_when_enable_fail;
        enable_requested = auto_enable;
      }) in
      ground arith

  service_stop_lem :
      (d : Discovery (Dispatcher M U))
      → let d' = Service.stop d in
        (d'.is_started ≡ false) × (d'.core ≡ d.core) × (d'.self_state ≡ d.self_state)
  unfolding Service.stop
  service_stop_lem d = ground arith

  services_off_lem :
      (calm : IsCalm svc) (c : Core M U)
      → calm.IsUp (dispatcher c).msg_service
      → (dispatcher c).module_locked ≡ false
      → (c' : Core M U) × (services_off svc module_switch c ≡ returned c')
        × (c'.is_stopped ≡ true)
        × (c'.is_started ≡ c.is_started)
        × (c'.stopped ≡ c.stopped)
        × (c'.module_active ≡ c.module_active)
        × (c'.discovery.is_started ≡ false)
        × (c'.discovery.self_state ≡ c.discovery.self_state)
        × ((dispatcher c').activity ≡ (dispatcher c).activity)
        × ((dispatcher c').alive ≡ false)
  unfolding services_off then_do fate_of
  services_off_lem calm c up free =
      let k = service_stop_lem c.discovery in
      let up' = subst (λ d. calm.IsUp d.msg_service) (sym k.1) up in
      let r = stop_lem svc calm (Service.stop c.discovery).core up' (ground arith) in
      (
        record (with_dispatcher (Control.stop svc (Service.stop c.discovery).core).1
            (record c { discovery = Service.stop c.discovery })) { is_stopped = true },
        ground arith,
        refl,
        refl,
        refl,
        refl,
        k.0,
        k.2,
        ground arith,
        r.1,
      )

  -- What is left to do once the module is disabled.
  abbrev ending : Core M U → Core M U
  ending c =
      announce dead (record c { stopped = c.self_handle.unique_id ∷ c.stopped; is_started = false })

  ending_lem :
      (calm : IsCalm svc) (c : Core M U)
      → IsRunning calm c
      → c.module_active ≡ false
      → (c' : Core M U) × (services_off svc module_switch (ending c) ≡ returned c') × IsOver c c'
  ending_lem calm c coherent off =
      let k =
        announce_lem svc module_switch dead
          (record c { stopped = c.self_handle.unique_id ∷ c.stopped; is_started = false }) in
      let up = subst (λ d. calm.IsUp d.msg_service) (sym k.0) coherent.0 in
      let r = services_off_lem calm (ending c) up (ground arith) in
      (
        r.0,
        r.1,
        (ground arith, r.2, ground arith, ground arith, r.9, ground arith, r.6, ground arith),
      )

  -- When the loop of a running instance has ended, the instance comes to a stop: its module is
  -- disabled and its delivery thread ended, it is dead to others, the discovery service is stopped,
  -- and the callback has been called once with its id. The messaging service must be
  -- up at first; while it is up it must not throw in the switching off of the dispatcher, and the
  -- module must leave it up and leave the delivery thread alone, and so must other threads outside
  -- of the mutex, which they leave free.
  pub on_instance_stopped_lem :
      (calm : IsCalm svc)
      → IsModest calm module_switch
      → (c : Core M U) → IsRunning calm c
      → c.is_started ≡ true
      → (c' : Core M U) × (on_instance_stopped svc module_switch c ≡ returned c') × IsOver c c'
  unfolding on_instance_stopped then_do
  on_instance_stopped_lem calm modest c coherent on = elim (Bool-cases c.module_active) [
    | inr off ↦ let r = ending_lem calm c coherent off in (r.0, ground arith, r.2)
    | inl active ↦
        let k = disable_module_lem svc module_switch calm modest c coherent active in
        let r = ending_lem calm k.0 k.2 k.3 in (r.0, ground arith, ground arith)
  ]
