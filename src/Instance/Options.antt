-- ===== src/Instance/Options.antt =====
-- What the options do to the instance that is started.
use zmf.Prelude.{ℕ, ◌≡◌, sym, subst, ap, Bool, true, false, Option, some, List, not, arith}
use zmf.Prelude.Int.{ℤ}
use zmf.Dispatcher.State.{MessagingService, Dispatcher}
use zmf.Dispatcher.Control
use zmf.Discovery.State.{Discovery}
use zmf.Core.State.{Core, returned, then_do, dispatcher}
use zmf.Core.Switch.{Switches, started}
use zmf.Core.Loop.Ends.{IsIdle, started_lem, uniqueness_checked_lem}
use zmf.Core.Loop.Frames.{IsSameDirectory, announce-IsSameInstance}
use zmf.Core.Running.{announce_lem}
use zmf.Core.State.{announce}
use zmf.Core.Runs.Well.{IsWell, IsHealthy-with, IsHealthy-same}
use zmf.Discovery.Runs.Health.{IsHealthy}
use zmf.Discovery.Receive.Soundness.{IsSound}
use zmf.Registry.Ordered.{HasOrderedPeers}
use zmf.Data.Handle.{inactive}
use zmf.Dispatcher.Control.Calm.{IsCalm}
use zmf.Dispatcher.Steady.{IsTame}
use zmf.Instance.{
  StartOption, no_auto_enable, no_exit_when_enable_failed, no_equal_module_interconnect, has_option,
  start_flags, core_or_throw, start_with_flags, start_with_options,
}
use zmf.Instance.Linked.{
  discovery_started, linked, prepared, start_instance-returned, prepared-IsIdle,
}

module _ {M U : Type 0} (svc : MessagingService M) (module_switch : Switches M U)
    (calm : IsCalm svc) where
  -- What a service hears while it starts leaves it healthy, and the module as it is.
  abbrev pub IsHarmless : (Discovery (Dispatcher M U) → Discovery (Dispatcher M U)) → Type 0
  IsHarmless heard =
      (d : Discovery (Dispatcher M U))
      → IsHealthy d
      → IsHealthy (heard d) × IsTame svc calm d.core (heard d).core

  started-same :
      (auto_enable exit : Bool) (c : Core M U)
      → let c' = started svc module_switch auto_enable exit c in
        (dispatcher c' ≡ dispatcher c) × IsSameDirectory c.discovery c'.discovery
  unfolding started
  started-same auto_enable exit c =
      let r = announce_lem svc module_switch inactive c in
      let s = announce-IsSameInstance svc module_switch inactive c in
      let k = uniqueness_checked_lem svc module_switch (record (announce inactive c) {
        exit_when_enable_fail = exit;
        enable_requested = auto_enable;
      }) in
      ground arith

  -- The discovery service that has just started, with the peers that it had.
  linked-IsHealthy :
      (disable_equal : Bool) (size : Option ℤ) (random : ℕ) (c : Core M U)
      → c.discovery.is_started ≡ false
      → IsSound c.discovery
      → HasOrderedPeers c.discovery.registry
      → IsHealthy (linked svc module_switch disable_equal size random c).1
  linked-IsHealthy disable_equal size random c silent sound ordered =
      let r = Control.start svc c.self_handle size (dispatcher c) in
      let s =
        discovery_started svc module_switch r.2 r.1 disable_equal random
          (record c.discovery { core = r.2 }) silent in
      IsHealthy-with c.discovery (linked svc module_switch disable_equal size random c).1 sound
        ordered s.4 s.5 s.6

  -- The running instance, where the module is idle after the start.
  started-IsWell :
      (auto_enable exit : Bool) (c : Core M U)
      → IsIdle c
      → calm.IsUp (dispatcher c).msg_service
      → IsHealthy c.discovery
      → IsWell calm (started svc module_switch auto_enable exit c)
  started-IsWell auto_enable exit c idle up healthy =
      let c' = started svc module_switch auto_enable exit c in
      let (p, same) = started-same auto_enable exit c in
      let l = started_lem svc module_switch auto_enable exit c idle in
      (
        (subst (λ e. calm.IsUp e.msg_service) (sym p) up, l.0),
        IsHealthy-same c.discovery c'.discovery same.0 same.1 (ground arith) healthy,
      )

  -- A start during which the discovery service hears something harmless.
  pub start_with_options-IsWell :
      (options : List StartOption) (size : Option ℤ) (random : ℕ)
      (heard : Discovery (Dispatcher M U) → Discovery (Dispatcher M U)) (c : Core M U)
      → c.is_started ≡ false
      → c.discovery.is_started ≡ false
      → IsSound c.discovery
      → HasOrderedPeers c.discovery.registry
      → IsIdle c
      → (Control.start svc c.self_handle size (dispatcher c)).0 ≡ some true
      → calm.IsUp (Control.start svc c.self_handle size (dispatcher c)).2.msg_service
      → IsHarmless heard
      → (c' : Core M U) × (start_with_options svc module_switch options size random true heard c
          ≡ returned c')
        × IsWell calm c'
        × (c'.is_started ≡ true)
        × (c'.stop_requested ≡ false)
        × (c'.enable_requested ≡ not (has_option no_auto_enable options))
        × (c'.exit_when_enable_fail ≡ not (has_option no_exit_when_enable_failed options))
  unfolding start_with_options start_with_flags start_flags then_do core_or_throw
  start_with_options-IsWell options size random heard c fresh silent sound ordered idle up calls
        harmless =
      let auto = not (has_option no_auto_enable options) in
      let exit = not (has_option no_exit_when_enable_failed options) in
      let equal = has_option no_equal_module_interconnect options in
      let r = Control.start svc c.self_handle size (dispatcher c) in
      let s =
        discovery_started svc module_switch r.2 r.1 equal random (record c.discovery { core = r.2 })
          silent in
      let q =
        start_instance-returned svc module_switch auto exit equal size random heard c fresh up
          s.0 in
      let d = (linked svc module_switch equal size random c).1 in
      let (healthy, (still, same)) =
        harmless d (linked-IsHealthy equal size random c silent sound ordered) in
      let before = prepared svc module_switch equal size random heard c in
      let rest = prepared-IsIdle svc module_switch equal size random heard c silent idle same in
      let l = started_lem svc module_switch auto exit before rest in
      (
        started svc module_switch auto exit before,
        ap (λ x. then_do x (core_or_throw svc module_switch)) q,
        started-IsWell auto exit before rest
            (still (subst (λ e. calm.IsUp e.msg_service) (sym s.1) calls)) healthy,
        l.1,
        l.4,
        l.2,
        l.3,
      )
