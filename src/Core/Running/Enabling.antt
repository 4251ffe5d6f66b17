-- ===== src/Core/Running/Enabling.antt =====
-- What switching the module of a running instance on does to its states.
use zmf.Prelude.{◌≡◌, refl, sym, subst, ◌∙◌, Bool, true, false, arith, if◌then◌else◌}
use zmf.Data.Handle.{inactive, active}
use zmf.Module.{enabled, disabled, internal_enable}
use zmf.Dispatcher.State.{MessagingService, Dispatcher}
use zmf.Dispatcher.Control.{on_enable}
use zmf.Dispatcher.Control.Calm.{IsCalm}
use zmf.Core.State.{Core, returned, then_do, dispatcher, with_dispatcher, announce}
use zmf.Core.Switch.{Switches, locked_enable, enabled_or_not, enable_module}
use zmf.Core.Running.{IsRunning, IsModest, off_after_others, dispatcher_off_lem, announce_lem}

module _ {M U : Type 0} (svc : MessagingService M) (module_switch : Switches M U) where
  pub on_enable_lem :
      (e : Dispatcher M U)
      → ((on_enable svc e).alive ≡ true)
        × ((on_enable svc e).activity ≡ e.activity)
        × ((on_enable svc e).module_locked ≡ e.module_locked)
        × ((on_enable svc e).msg_service ≡ e.msg_service)
  unfolding on_enable
  on_enable_lem e = ground arith

  locked_enable_lem :
      (calm : IsCalm svc)
      → IsModest calm module_switch
      → (e : Dispatcher M U) → e.module_locked ≡ false
      → e.activity ≡ disabled
      → calm.IsUp e.msg_service
      → let success = (module_switch.enable (record e { module_locked = true })).0 in
        (e' : Dispatcher M U) × (locked_enable svc module_switch e ≡ returned (success, e'))
        × calm.IsUp e'.msg_service
        × (e'.activity ≡ (if success then enabled else disabled))
        × (e'.module_locked ≡ false)
        × (e'.alive ≡ e.alive)
  unfolding locked_enable internal_enable
  locked_enable_lem calm modest e free off up =
      let result = module_switch.enable (record e { module_locked = true }) in
      (
        record result.1 {
          activity = if result.0 then enabled else disabled;
          module_locked = false;
        },
        ground arith,
        modest.2 _ up,
        refl,
        refl,
        modest.0 _,
      )

  enabled_or_not_lem :
      (calm : IsCalm svc) (modest : IsModest calm module_switch) (c : Core M U) (success : Bool)
      (e : Dispatcher M U)
      → calm.IsUp e.msg_service
      → e.activity ≡ (if success then enabled else disabled)
      → e.module_locked ≡ false
      → e.alive ≡ true
      → c.module_active ≡ false
      → c.discovery.self_state ≡ inactive
      → (c' : Core M U) × (enabled_or_not svc module_switch c (success, e) ≡ returned (success, c'))
        × IsRunning calm c'
        × (c'.module_active ≡ success)
        × (c'.enable_requested ≡ c.enable_requested)
        × (c'.disable_requested ≡ c.disable_requested)
        × (c'.stop_requested ≡ c.stop_requested)
        × (c'.exit_when_enable_fail ≡ c.exit_when_enable_fail)
  unfolding enabled_or_not then_do
  enabled_or_not_lem calm modest c true e up a free on inact st =
      let r =
        announce_lem svc module_switch active
          (record (with_dispatcher e c) { module_active = true }) in
      (
        announce active (record (with_dispatcher e c) { module_active = true }),
        refl,
        (subst (λ d. calm.IsUp d.msg_service) (sym r.0) up, ground arith),
        ground arith,
        ground arith,
        ground arith,
        ground arith,
        ground arith,
      )
  enabled_or_not_lem calm modest c false e up a free on inact st =
      let q = dispatcher_off_lem svc module_switch calm modest e up free in
      (
        with_dispatcher (off_after_others svc module_switch e) c,
        ground (arith, q.0),
        (q.1, ground arith),
        inact,
        refl,
        refl,
        refl,
        refl,
      )

  -- What `enable` of the module answers when the instance calls it.
  abbrev pub enabling : Core M U → Bool
  enabling c =
      (module_switch.enable
        (record (module_switch.others (on_enable svc (dispatcher c))) { module_locked = true })).0

  pub enable_module_lem :
      (calm : IsCalm svc)
      → IsModest calm module_switch
      → (c : Core M U) → IsRunning calm c
      → c.module_active ≡ false
      → (c' : Core M U) × (enable_module svc module_switch false c ≡ returned (enabling c, c'))
        × IsRunning calm c'
        × (c'.module_active ≡ enabling c)
        × (c'.enable_requested ≡ c.enable_requested)
        × (c'.disable_requested ≡ c.disable_requested)
        × (c'.stop_requested ≡ c.stop_requested)
        × (c'.exit_when_enable_fail ≡ c.exit_when_enable_fail)
  unfolding enable_module then_do
  enable_module_lem calm modest c coherent off =
      let (on, same, locked, service) = on_enable_lem (dispatcher c) in
      let (still, kept) = modest.4 (on_enable svc (dispatcher c)) in
      let (e, p, up, a, free, same_alive) =
        locked_enable_lem calm modest (module_switch.others (on_enable svc (dispatcher c)))
          (kept.2 ∙ (locked ∙ coherent.1.3)) (kept.0 ∙ (same ∙ ground arith))
          (still (subst calm.IsUp (sym service) coherent.0)) in
      let r =
        enabled_or_not_lem calm modest c (enabling c) e up a free (same_alive ∙ (kept.1 ∙ on)) off
          (ground arith) in
      (r.0, ground arith, r.2, r.3, r.4, r.5, r.6, r.7)
