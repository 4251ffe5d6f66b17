-- ===== src/Core/Runs/Stops.antt =====
-- A running instance can be stopped at any time.
use zmf.Prelude.{true, false}
use zmf.Dispatcher.State.{MessagingService, ModuleCode}
use zmf.Dispatcher.Control.Calm.{IsCalm}
use zmf.Core.State.{Core}
use zmf.Core.Switch.{Switches}

module _ {M U : Type 0} (svc : MessagingService M) (calm : IsCalm svc)
    (module_switch : Switches M U) (code : ModuleCode U) where
  -- The core once it is asked to stop.
  abbrev asked_to_stop : Core M U → Core M U
  asked_to_stop c = record c { enable_requested = false; stop_requested = true }
