-- ===== src/Dispatcher/Control/Calm.antt =====
-- Switching the dispatcher off, where the messaging service does not throw.
use zmf.Prelude.{
  ◌≡◌, refl, Bool, true, false, some, List, [], ◌∷◌, arith, Bool-cases, inl, inr, if◌then◌else◌,
}
use zmf.Prelude.Map.{values}
use zmf.Data.UniqueId.Order.{number_key}
use zmf.Data.MessageType.{MessageType}
use zmf.Dispatcher.State.{MessagingService, Dispatcher, SubscriptionHandle}
use zmf.Dispatcher.Control.{
  ended, on_disable, stop, end_stop, unsubscribe_all, end_disable, cleared, awaits_mutex,
}

-- A messaging service that does not throw while the dispatcher is switched off, as long as it is
-- up.
pub record IsCalm {M : Type 0} (svc : MessagingService M) : Type 1 where
  pub IsUp : M → Type 0
  pub unsubscribes :
      (topic : MessageType) (m : M)
      → IsUp m
      → (m' : M) × (svc.unsubscribe_topic topic m ≡ some m') × IsUp m'
  pub disables : (m : M) → IsUp m → (m' : M) × (svc.disable_service m ≡ some m') × IsUp m'

unsubscribe_all-calm :
    {M : Type 0} (svc : MessagingService M) (calm : IsCalm svc) (subs : List SubscriptionHandle)
    (m : M)
    → calm.IsUp m
    → let r = unsubscribe_all svc subs m in (r.0 ≡ true) × calm.IsUp r.1
unfolding unsubscribe_all
unsubscribe_all-calm svc calm [] m up = (refl, up)
unsubscribe_all-calm svc calm (s ∷ subs) m up =
    let (m', e, up') = calm.unsubscribes s.topic m up in
    let k = unsubscribe_all-calm svc calm subs m' up' in
    let q : unsubscribe_all svc (s ∷ subs) m ≡ unsubscribe_all svc subs m' = ground arith in rw q k

-- What switching the dispatcher off keeps, and what it clears if the dispatcher was on.
abbrev pub IsOff : {M U : Type 0} → Dispatcher M U → Dispatcher M U → Type 0
IsOff e e' =
    (e'.alive ≡ false)
    × (e'.activity ≡ e.activity)
    × (e'.module_locked ≡ e.module_locked)
    × (e'.meta_queue ≡ (if e.alive then [] else e.meta_queue))
    × (e'.event_queue ≡ (if e.alive then [] else e.event_queue))
    × (e'.request_queue ≡ (if e.alive then [] else e.request_queue))
    × (e'.state_queue ≡ (if e.alive then [] else e.state_queue))
    × (e'.subscriptions ≡ (if e.alive then [] else e.subscriptions))

module _ {M U : Type 0} (svc : MessagingService M) (calm : IsCalm svc) where
  end_disable-calm :
      (e : Dispatcher M U) (r : Bool × M)
      → e.alive ≡ true
      → r.0 ≡ true
      → calm.IsUp r.1
      → let (out, e') = end_disable svc r (cleared svc e) in
        (out ≡ ended) × calm.IsUp e'.msg_service × IsOff e e'
  unfolding end_disable
  end_disable-calm e (true, m) on ok up =
      let (m', p, up') = calm.disables m up in
      let q : end_disable svc (true, m) (cleared svc e)
          ≡ (ended, record (cleared svc e) { msg_service = m'; subscriptions = [] }) =
        ground arith in
      rw q (refl, up', ground arith)
  end_disable-calm e (false, m) on ok up = absurd (ground arith)

  -- Switching the dispatcher off, with the messaging service up and a delivery thread that does not
  -- wait for the mutex, comes to its end: the service is still up, the delivery thread has ended, no notification and no subscription is left if it ran,
  -- and the module and its mutex are as they were.
  pub on_disable_lem :
      (e : Dispatcher M U)
      → calm.IsUp e.msg_service
      → awaits_mutex svc e ≡ false
      → let (out, e') = on_disable svc e in (out ≡ ended) × calm.IsUp e'.msg_service × IsOff e e'
  unfolding on_disable
  on_disable_lem e up moves = elim (Bool-cases e.alive) [
    | inr off ↦
        let q : on_disable svc e ≡ (ended, e) = ground arith in rw q (refl, up, ground arith)
    | inl on ↦
        let k = unsubscribe_all-calm svc calm (values e.subscriptions) e.msg_service up in
        let r = unsubscribe_all svc (values e.subscriptions) e.msg_service in
        let q : on_disable svc e ≡ end_disable svc r (cleared svc e) = ground arith in
        rw q (end_disable-calm e r on k.0 k.1)
  ]

  pub stop_lem :
      (e : Dispatcher M U)
      → calm.IsUp e.msg_service
      → awaits_mutex svc e ≡ false
      → let (out, e') = stop svc e in
        (out ≡ ended) × (e'.alive ≡ false) × (e'.activity ≡ e.activity)
  unfolding stop end_stop
  stop_lem e up moves = ground (arith, on_disable_lem e up moves)
