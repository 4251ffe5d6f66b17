-- ===== src/Core/Loop/Rounds.antt =====
-- What a round of the instance's loop does.
use zmf.Prelude.{◌≡◌, true, false, ◌&&◌, ◌||◌, not, arith, Bool-cases, inl, inr, if◌then◌else◌}
use zmf.Dispatcher.State.{MessagingService}
use zmf.Dispatcher.Control.Calm.{IsCalm}
use zmf.Core.State.{Core, returned, then_do, check_dependencies_satisfied, module_is_unique}
use zmf.Core.Switch.{Switches}
use zmf.Core.Running.{IsRunning, IsModest, disable_module_lem}
use zmf.Core.Running.Enabling.{enabling, enable_module_lem}
use zmf.Core.Loop.{active_round, after_enable, inactive_round, instance_round}

module _ {M U : Type 0} (svc : MessagingService M) (module_switch : Switches M U) where
  -- The flags after a round, from what the instance finds before it.
  abbrev pub IsRound : Core M U → Core M U → Type 0
  IsRound c c' =
      let satisfied = check_dependencies_satisfied c in
      let free = satisfied && module_is_unique c in
      let called = c.enable_requested && free in
      let enabled = enabling svc module_switch c in
      (c'.module_active
        ≡ (if c.module_active then not c.disable_requested && satisfied else called && enabled))
      × (c'.enable_requested ≡ (
          if c.module_active
          then c.enable_requested || (not c.disable_requested && not satisfied)
          else c.enable_requested && not free))
      × (c'.disable_requested ≡ (not c.module_active && c.disable_requested))
      × (c'.stop_requested ≡ (
          c.stop_requested
          || (if c.module_active
              then not c.disable_requested && (satisfied && not (module_is_unique c))
              else called && (not enabled && c.exit_when_enable_fail))))

  active_round_lem :
      (calm : IsCalm svc)
      → IsModest calm module_switch
      → (c : Core M U) → IsRunning calm c
      → c.module_active ≡ true
      → (c' : Core M U) × (active_round svc module_switch c ≡ returned c')
        × IsRunning calm c'
        × IsRound c c'
  unfolding active_round then_do
  active_round_lem calm modest c coherent on = elim (Bool-cases c.disable_requested) [
    | inl asked ↦
        let r =
          disable_module_lem svc module_switch calm modest (record c { disable_requested = false })
            coherent on in
        (r.0, ground arith, r.2, (ground arith, ground arith, ground arith, ground arith))
    | inr quiet ↦ elim (Bool-cases (check_dependencies_satisfied c)) [
      | inr lost ↦
          let r = disable_module_lem svc module_switch calm modest c coherent on in
          (
            record r.0 { enable_requested = true },
            ground arith,
            r.2,
            (ground arith, ground arith, ground arith, ground arith),
          )
      | inl satisfied ↦ elim (Bool-cases (module_is_unique c)) [
        | inr twice ↦ (
          record c { stop_requested = true },
          ground arith,
          coherent,
          (ground arith, ground arith, ground arith, ground arith),
        )
        | inl unique ↦
            (c, ground arith, coherent, (ground arith, ground arith, ground arith, ground arith))
      ]
    ]
  ]

  inactive_round_lem :
      (calm : IsCalm svc)
      → IsModest calm module_switch
      → (c : Core M U) → IsRunning calm c
      → c.module_active ≡ false
      → (c' : Core M U) × (inactive_round svc module_switch c ≡ returned c')
        × IsRunning calm c'
        × IsRound c c'
  unfolding inactive_round after_enable then_do
  inactive_round_lem calm modest c coherent off =
      elim (Bool-cases
        (c.enable_requested && (check_dependencies_satisfied c && module_is_unique c))) [
          | inr waits ↦
              (c, ground arith, coherent, (ground arith, ground arith, ground arith, ground arith))
          | inl called ↦
              let r =
                enable_module_lem svc module_switch calm modest
                  (record c { enable_requested = false }) coherent off in
              elim (Bool-cases (not (enabling svc module_switch c) && c.exit_when_enable_fail)) [
                | inr stays ↦ (
                  r.0,
                  ground arith,
                  r.2,
                  (ground arith, ground arith, ground arith, ground arith),
                )
                | inl fails ↦ (
                  record r.0 { stop_requested = true },
                  ground arith,
                  r.2,
                  (ground arith, ground arith, ground arith, ground arith),
                )
              ]
        ]

  pub instance_round_lem :
      (calm : IsCalm svc)
      → IsModest calm module_switch
      → (c : Core M U) → IsRunning calm c
      → (c' : Core M U) × (instance_round svc module_switch c ≡ returned c')
        × IsRunning calm c'
        × IsRound c c'
  unfolding instance_round
  instance_round_lem calm modest c coherent = elim (Bool-cases c.module_active) [
    | inl on ↦ let r = active_round_lem calm modest c coherent on in (r.0, ground arith, r.2, r.3)
    | inr off ↦
        let r = inactive_round_lem calm modest c coherent off in (r.0, ground arith, r.2, r.3)
  ]
