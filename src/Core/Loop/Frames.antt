-- ===== src/Core/Loop/Frames.antt =====
-- What a round of the instance's loop leaves as it is in the discovery service.
use zmf.Prelude.{◌≡◌, refl, sym, subst, true, false, ◌&&◌, not, arith, Bool-cases, inl, inr}
use zmf.Prelude.{Bool}
use zmf.Data.Handle.{ModuleState, inactive, active}
use zmf.Dispatcher.State.{MessagingService, Dispatcher}
use zmf.Dispatcher.Control.{on_enable}
use zmf.Discovery.State.{Discovery}
use zmf.Discovery.Service.{update_self_state, send_state_multicast}
use zmf.Core.State.{
  Core, Fate, returned, blocked, thrown, then_do, dispatcher, with_dispatcher, announce,
  check_dependencies_satisfied, module_is_unique,
}
use zmf.Core.Switch.{
  Switches, enable_module, disable_module, locked_enable, locked_disable, dispatcher_off,
  enabled_or_not,
}
use zmf.Core.Loop.{active_round, after_enable, inactive_round, instance_round}

-- The directory and the settings of the discovery service are the same.
abbrev pub IsSameDirectory : {C : Type 0} → Discovery C → Discovery C → Type 0
IsSameDirectory d d' =
    (d'.registry ≡ d.registry)
    × (d'.next_ref ≡ d.next_ref)
    × (d'.is_started ≡ d.is_started)
    × (d'.stop_requested ≡ d.stop_requested)

-- The same, of two states of the core, which are both started or both not.
abbrev pub IsSameInstance : {M U : Type 0} → Core M U → Core M U → Type 0
IsSameInstance c c' =
    (c'.discovery.registry ≡ c.discovery.registry)
    × (c'.discovery.next_ref ≡ c.discovery.next_ref)
    × (c'.discovery.is_started ≡ c.discovery.is_started)
    × (c'.discovery.stop_requested ≡ c.discovery.stop_requested)
    × (c'.is_started ≡ c.is_started)

-- The same, of a core to which a call returns.
abbrev IsFrame : {M U : Type 0} → Core M U → Fate (Core M U) → Type 0
IsFrame c (returned c') = IsSameInstance c c'
IsFrame c blocked = Unit
IsFrame c thrown = Unit

abbrev IsFrameOfPair : {M U : Type 0} → Core M U → Fate (Bool × Core M U) → Type 0
IsFrameOfPair c (returned (b, c')) = IsSameInstance c c'
IsFrameOfPair c blocked = Unit
IsFrameOfPair c thrown = Unit

module _ {M U : Type 0} (svc : MessagingService M) (module_switch : Switches M U) where
  pub announce-IsSameInstance :
      (state : ModuleState) (c : Core M U) → IsSameInstance c (announce state c)
  unfolding announce update_self_state send_state_multicast
  announce-IsSameInstance state c = ground arith

  -- The rest of disableModule, from the dispatcher's `onDisable` on and from the one before it.
  abbrev broadcast_off : Core M U → Dispatcher M U → Fate (Core M U)
  broadcast_off c e =
      returned (announce inactive (record (with_dispatcher e c) { module_active = false }))

  abbrev dispatcher_then_broadcast_off : Core M U → Dispatcher M U → Fate (Core M U)
  dispatcher_then_broadcast_off c e = then_do (dispatcher_off svc module_switch e) (broadcast_off c)

  broadcast_off-IsFrame :
      (c : Core M U) (r : Fate (Dispatcher M U)) → IsFrame c (then_do r (broadcast_off c))
  unfolding then_do
  broadcast_off-IsFrame c (returned e) =
      announce-IsSameInstance inactive (record (with_dispatcher e c) { module_active = false })
  broadcast_off-IsFrame c blocked = tt
  broadcast_off-IsFrame c thrown = tt

  dispatcher_off-IsFrame :
      (c : Core M U) (r : Fate (Dispatcher M U))
      → IsFrame c (then_do r (dispatcher_then_broadcast_off c))
  unfolding then_do
  dispatcher_off-IsFrame c (returned e) =
      broadcast_off-IsFrame c (dispatcher_off svc module_switch e)
  dispatcher_off-IsFrame c blocked = tt
  dispatcher_off-IsFrame c thrown = tt

  disable_module-IsFrame : (c : Core M U) → IsFrame c (disable_module svc module_switch c)
  unfolding disable_module
  disable_module-IsFrame c = elim (Bool-cases c.module_active) [
    | inl on ↦
        let q : disable_module svc module_switch c
            ≡ then_do (locked_disable svc module_switch (dispatcher c))
                (dispatcher_then_broadcast_off c) =
          ground arith in
        subst (IsFrame c) (sym q)
          (dispatcher_off-IsFrame c (locked_disable svc module_switch (dispatcher c)))
    | inr off ↦
        let q : disable_module svc module_switch c ≡ returned c = ground arith in
        subst (IsFrame c) (sym q) (refl, refl, refl, refl, refl)
  ]

  disabled_after-IsFrame :
      (c : Core M U) (r : Fate (Dispatcher M U))
      → IsFrameOfPair c (then_do r (λ e. returned (false, with_dispatcher e c)))
  unfolding then_do
  disabled_after-IsFrame c (returned e) = (refl, refl, refl, refl, refl)
  disabled_after-IsFrame c blocked = tt
  disabled_after-IsFrame c thrown = tt

  enabled_or_not-IsFrame :
      (c : Core M U) (r : Fate (Bool × Dispatcher M U))
      → IsFrameOfPair c (then_do r (enabled_or_not svc module_switch c))
  unfolding then_do enabled_or_not
  enabled_or_not-IsFrame c (returned (true, e)) =
      announce-IsSameInstance active (record (with_dispatcher e c) { module_active = true })
  enabled_or_not-IsFrame c (returned (false, e)) =
      disabled_after-IsFrame c (dispatcher_off svc module_switch e)
  enabled_or_not-IsFrame c blocked = tt
  enabled_or_not-IsFrame c thrown = tt

  enable_module-IsFrame :
      (c : Core M U)
      → c.module_active ≡ false
      → IsFrameOfPair c (enable_module svc module_switch false c)
  unfolding enable_module
  enable_module-IsFrame c off =
      let r =
        locked_enable svc module_switch (module_switch.others (on_enable svc (dispatcher c))) in
      let q : enable_module svc module_switch false c
          ≡ then_do r (enabled_or_not svc module_switch c) =
        ground arith in
      subst (IsFrameOfPair c) (sym q) (enabled_or_not-IsFrame c r)

  after_enable-IsFrame :
      (c : Core M U) (r : Fate (Bool × Core M U))
      → IsFrameOfPair c r
      → IsFrame c (then_do r (after_enable svc module_switch))
  unfolding then_do after_enable
  after_enable-IsFrame c (returned (success, c')) same =
      elim (Bool-cases (not success && c'.exit_when_enable_fail)) [
        | inl fails ↦ rw fails same
        | inr stays ↦ rw stays same
      ]
  after_enable-IsFrame c blocked same = tt
  after_enable-IsFrame c thrown same = tt

  asks_again-IsFrame :
      (c : Core M U) (r : Fate (Core M U))
      → IsFrame c r
      → IsFrame c (then_do r (λ c'. returned (record c' { enable_requested = true })))
  unfolding then_do
  asks_again-IsFrame c (returned c') same = same
  asks_again-IsFrame c blocked same = tt
  asks_again-IsFrame c thrown same = tt

  active_round-IsFrame : (c : Core M U) → IsFrame c (active_round svc module_switch c)
  unfolding active_round
  active_round-IsFrame c = elim (Bool-cases c.disable_requested) [
    | inl asked ↦
        let r = disable_module svc module_switch (record c { disable_requested = false }) in
        let q : active_round svc module_switch c ≡ r = ground arith in
        subst (IsFrame c) (sym q) (disable_module-IsFrame (record c { disable_requested = false }))
    | inr quiet ↦ elim (Bool-cases (check_dependencies_satisfied c)) [
      | inr lost ↦
          let r = disable_module svc module_switch c in
          let q : active_round svc module_switch c
              ≡ then_do r (λ c'. returned (record c' { enable_requested = true })) =
            ground arith in
          subst (IsFrame c) (sym q) (asks_again-IsFrame c r (disable_module-IsFrame c))
      | inl satisfied ↦ elim (Bool-cases (module_is_unique c)) [
        | inr twice ↦
            let q : active_round svc module_switch c
                ≡ returned (record c { stop_requested = true }) =
              ground arith in
            subst (IsFrame c) (sym q) (refl, refl, refl, refl, refl)
        | inl unique ↦
            let q : active_round svc module_switch c ≡ returned c = ground arith in
            subst (IsFrame c) (sym q) (refl, refl, refl, refl, refl)
      ]
    ]
  ]

  inactive_round-IsFrame :
      (c : Core M U) → c.module_active ≡ false → IsFrame c (inactive_round svc module_switch c)
  unfolding inactive_round
  inactive_round-IsFrame c off =
      elim (Bool-cases
        (c.enable_requested && (check_dependencies_satisfied c && module_is_unique c))) [
          | inr waits ↦
              let q : inactive_round svc module_switch c ≡ returned c = ground arith in
              subst (IsFrame c) (sym q) (refl, refl, refl, refl, refl)
          | inl called ↦
              let r =
                enable_module svc module_switch false (record c { enable_requested = false }) in
              let q : inactive_round svc module_switch c
                  ≡ then_do r (after_enable svc module_switch) =
                ground arith in
              subst (IsFrame c) (sym q) (
                after_enable-IsFrame c r
                  (enable_module-IsFrame (record c { enable_requested = false }) off))
        ]

  instance_round-IsFrame : (c : Core M U) → IsFrame c (instance_round svc module_switch c)
  unfolding instance_round
  instance_round-IsFrame c = elim (Bool-cases c.module_active) [
    | inl on ↦
        let q : instance_round svc module_switch c ≡ active_round svc module_switch c =
          ground arith in
        subst (IsFrame c) (sym q) (active_round-IsFrame c)
    | inr off ↦
        let q : instance_round svc module_switch c ≡ inactive_round svc module_switch c =
          ground arith in
        subst (IsFrame c) (sym q) (inactive_round-IsFrame c off)
  ]

  -- A round leaves the directory as it is, and the discovery service running or stopped as it was.
  pub instance_round-IsSameInstance :
      (c c' : Core M U) → instance_round svc module_switch c ≡ returned c' → IsSameInstance c c'
  instance_round-IsSameInstance c c' q = subst (IsFrame c) q (instance_round-IsFrame c)
