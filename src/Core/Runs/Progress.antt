-- ===== src/Core/Runs/Progress.antt =====
-- No thread of a running instance is ever stuck.
use zmf.Dispatcher.State.{MessagingService, ModuleCode, Dispatcher}
use zmf.Dispatcher.Control.Calm.{IsCalm}
use zmf.Dispatcher.Steady.{IsSteady}
use zmf.Dispatcher.Delivery.Steady.{IsHandled}
use zmf.Discovery.State.{Discovery}
use zmf.Core.State.{Core}
use zmf.Core.Switch.{Switches}
use zmf.Core.Running.{IsModest}
use zmf.Core.Runs.{Run, starts, goes}
use zmf.Core.Runs.Well.{IsWell}
use zmf.Core.Runs.Steps.{Step-IsWell}

module _ {M U : Type 0} (svc : MessagingService M) (calm : IsCalm svc) (steady : IsSteady calm)
    (module_switch : Switches M U) (modest : IsModest calm module_switch) (code : ModuleCode U)
    (handled : IsHandled code) where
  pub Run-IsWell :
      {c c' : Core M U} → Run svc calm module_switch code c c' → IsWell calm c → IsWell calm c'
  Run-IsWell starts well = well
  Run-IsWell (goes run step) well =
      Step-IsWell svc calm steady module_switch modest code handled step (Run-IsWell run well)
