-- ===== src/Dispatcher/Delivery/Joined.antt =====
-- The `join` of onDisable and the delivery thread that it joins.
use zmf.Prelude.{◌≡◌, ◌≢◌, Bool, true, false}
use zmf.Data.UniqueId.Order.{number_key}
use zmf.Dispatcher.State.{MessagingService, ModuleCode, Dispatcher}
use zmf.Dispatcher.Control.{Ending, ended, threw, hangs}
use zmf.Dispatcher.Control.Calm.{IsCalm, IsOff}
use zmf.Dispatcher.Delivery.{Progress, goes_on, waits, waits_for_mutex, left, delivery_round}

-- Whether a piece of the delivery thread waits for the mutex.
abbrev is_stuck : {A : Type 0} → Progress A → Bool
is_stuck waits_for_mutex = true
is_stuck (goes_on a) = false
is_stuck waits = false
is_stuck left = false

module _ {M U : Type 0} (svc : MessagingService M) (code : ModuleCode U) where
  -- What `onDisable` comes to. It hangs where the delivery thread waits for the mutex; it ends
  -- anywhere else, with the messaging service up and the dispatcher off; and it does not throw.
  abbrev pub IsOutcome : IsCalm svc → Dispatcher M U → Ending × Dispatcher M U → Type 0
  IsOutcome calm d (hangs, d') = delivery_round svc code d ≡ waits_for_mutex
  IsOutcome calm d (ended, d') =
      (delivery_round svc code d ≢ waits_for_mutex) × calm.IsUp d'.msg_service × IsOff d d'
  IsOutcome calm d (threw, d') = ⊥
