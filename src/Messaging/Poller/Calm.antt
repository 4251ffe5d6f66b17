-- ===== src/Messaging/Poller/Calm.antt =====
-- The service on ZeroMQ, as the core switches its module on and off.
use zmf.Prelude.{◌≡◌, true, false, some, [], arith}
use zmf.Data.MessageType.{MessageType}
use zmf.Dispatcher.Control.Calm.{IsCalm}
use zmf.Messaging.State.{Wire, Host, Messaging, notify_poller}
use zmf.Messaging.Requests.{on_disable, break_promises}
use zmf.Messaging.Topics.{unsubscribe, change_subscription}
use zmf.Messaging.Poller.{zmq_service}

pub unsubscribe-alive :
    (topic : MessageType) (m : Messaging)
    → m.alive ≡ true
    → (m' : Messaging) × (unsubscribe topic m ≡ some m') × (m'.alive ≡ true)
unfolding unsubscribe notify_poller
unsubscribe-alive topic m up = (change_subscription topic false m, ground arith, up)

pub on_disable-alive :
    (m : Messaging)
    → m.alive ≡ true
    → (m' : Messaging) × (on_disable m ≡ some m') × (m'.alive ≡ true)
unfolding on_disable break_promises
on_disable-alive m up = (record (break_promises m) { outstanding_replies = [] }, ground arith, up)

-- While the service is alive, it does not throw when the dispatcher is switched off.
abbrev pub zmq_service-IsCalm : (w : Wire) (host : Host) → IsCalm (zmq_service w host)
zmq_service-IsCalm w host = record {
  IsUp = λ m. m.alive ≡ true;
  unsubscribes = unsubscribe-alive;
  disables = on_disable-alive;
}
