-- ===== src/Instance/Hears.antt =====
-- The start of an instance whose discovery service hears broadcasts meanwhile.
use zmf.Prelude.{ℕ, ◌≡◌, refl, ◌∙◌, true, false, Option, none, some, List, All, not}
use zmf.Prelude.Int.{ℤ}
use zmf.Data.Handle.{ModuleHandle, ModuleState}
use zmf.Dispatcher.State.{MessagingService, Dispatcher}
use zmf.Dispatcher.Control
use zmf.Dispatcher.Control.Calm.{IsCalm}
use zmf.Dispatcher.Steady.{IsSteady, IsTame, on_peer_change-IsTame}
use zmf.Discovery.State.{Discovery}
use zmf.Discovery.Receive.Soundness.{IsSound}
use zmf.Discovery.Runs.{Turn, multicast_loop}
use zmf.Discovery.Runs.Health.{IsRemote}
use zmf.Discovery.Runs.Told.{multicast_loop-IsHealthy}
use zmf.Registry.Ordered.{HasOrderedPeers}
use zmf.Core.State.{Core, returned, dispatcher}
use zmf.Core.Switch.{Switches}
use zmf.Core.Requests.{peer_state_change}
use zmf.Core.Loop.Ends.{IsIdle}
use zmf.Core.Runs.Well.{IsWell}
use zmf.Instance.{
  StartOption, no_auto_enable, no_exit_when_enable_failed, has_option, start_with_options,
}
use zmf.Instance.Options.{IsHarmless, start_with_options-IsWell}

-- The discovery service after a run of its loop, or before it if that stops at an error.
abbrev pub after_run : {C : Type 0} → Discovery C → Option (Discovery C) → Discovery C
after_run d none = d
after_run d (some d') = d'

module _ {M U : Type 0} (svc : MessagingService M) where
  -- What the discovery service has heard after these rounds of its loop.
  abbrev pub hears : List Turn → Discovery (Dispatcher M U) → Discovery (Dispatcher M U)
  hears turns d = after_run d (multicast_loop (peer_state_change svc) turns d)

module _ {M U : Type 0} (svc : MessagingService M) (calm : IsCalm svc)
    (steady : IsSteady calm) where
  told-IsTame :
      (e0 : Dispatcher M U) (h : ModuleHandle) (new_state last_state : ModuleState)
      (e : Dispatcher M U)
      → IsTame svc calm e0 e
      → IsTame svc calm e0 (peer_state_change svc h new_state last_state e)
  unfolding peer_state_change
  told-IsTame e0 h new_state last_state e (up, same) =
      let (still, k) = on_peer_change-IsTame svc calm steady h new_state last_state e in
      (λ first. still (up first), (k.0 ∙ same.0, k.1 ∙ same.1, k.2 ∙ same.2))

  hears-IsHarmless :
      (module_switch : Switches M U) (turns : List Turn)
      → All (λ turn. IsRemote turn.input) turns
      → IsHarmless svc module_switch calm (hears svc turns)
  hears-IsHarmless module_switch turns remote d healthy =
      let r =
        multicast_loop-IsHealthy (peer_state_change svc) (IsTame svc calm d.core)
          (told-IsTame d.core) turns d healthy ((λ up. up), (refl, refl, refl)) remote in
      rw r.1 (r.2, r.3)

  -- An instance that is not started yet, with a disabled module, starts with any options, whatever
  -- broadcasts of other hosts its discovery service hears meanwhile, in any number of rounds of its
  -- loop. The messaging service must start and be up then, and stay up in every call but a stop;
  -- the network must be up, and the directory sound with its peers in order. The instance is then
  -- coherent, started and not to stop, and its discovery service runs with a sound directory. It is
  -- to enable its module unless NO_AUTO_ENABLE is among the options, and to exit where that fails
  -- unless NO_EXIT_WHEN_ENABLE_FAILED is among them, wherever in the list that stands.
  pub start_with_options_lem :
      (module_switch : Switches M U) (options : List StartOption) (size : Option ℤ) (random : ℕ)
      (turns : List Turn) (c : Core M U)
      → c.is_started ≡ false
      → c.discovery.is_started ≡ false
      → IsSound c.discovery
      → HasOrderedPeers c.discovery.registry
      → IsIdle c
      → (Control.start svc c.self_handle size (dispatcher c)).0 ≡ some true
      → calm.IsUp (Control.start svc c.self_handle size (dispatcher c)).2.msg_service
      → All (λ turn. IsRemote turn.input) turns
      → (c' : Core M U) × (start_with_options svc module_switch options size random true
            (hears svc turns)
            c
          ≡ returned c')
        × IsWell calm c'
        × (c'.is_started ≡ true)
        × (c'.stop_requested ≡ false)
        × (c'.enable_requested ≡ not (has_option no_auto_enable options))
        × (c'.exit_when_enable_fail ≡ not (has_option no_exit_when_enable_failed options))
  start_with_options_lem module_switch options size random turns c fresh silent sound ordered idle
        up calls remote =
      start_with_options-IsWell svc module_switch calm options size random (hears svc turns) c fresh
        silent sound ordered idle up calls (hears-IsHarmless module_switch turns remote)
