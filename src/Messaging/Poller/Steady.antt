-- ===== src/Messaging/Poller/Steady.antt =====
-- The service on ZeroMQ stays alive in the calls that the dispatcher makes.
use zmf.Prelude.{ℕ, ◌≡◌, true, some, arith}
use zmf.Data.UniqueId.{ModuleUniqueId}
use zmf.Data.UniqueId.Order.{id_key}
use zmf.Data.RequestIdentity.{ExternalRequestIdentity, identity_key}
use zmf.Data.MessageType.{MessageType}
use zmf.Data.Message.{ZmfMessage}
use zmf.Data.Handle.{ModuleHandle}
use zmf.Dispatcher.Steady.{IsSteady}
use zmf.Messaging.State.{Wire, Host, Messaging, notify_poller}
use zmf.Messaging.Requests.{send_request, send_reply, to_target, to_sender}
use zmf.Messaging.Topics.{subscribe, publish}
use zmf.Messaging.Peers.{internal_connect, peer_join, peer_leave}
use zmf.Messaging.Poller.Calm.{zmq_service-IsCalm}

module _ (w : Wire) (host : Host) where
  joins :
      (h : ModuleHandle) (m m' : Messaging)
      → m.alive ≡ true
      → peer_join w host h m ≡ some m'
      → m'.alive ≡ true
  unfolding peer_join internal_connect notify_poller
  joins h m m' up p = ground arith

  leaves :
      (h : ModuleHandle) (m m' : Messaging)
      → m.alive ≡ true
      → peer_leave h m ≡ some m'
      → m'.alive ≡ true
  unfolding peer_leave notify_poller
  leaves h m m' up p = ground arith

  subscribes :
      (topic : MessageType) (m m' : Messaging)
      → m.alive ≡ true
      → subscribe topic m ≡ some m'
      → m'.alive ≡ true
  unfolding subscribe notify_poller
  subscribes topic m m' up p = ground arith

  publishes :
      (msg : ZmfMessage) (m m' : Messaging)
      → m.alive ≡ true
      → publish w msg m ≡ some m'
      → m'.alive ≡ true
  unfolding publish
  publishes msg m m' up p = ground arith

  requests :
      (target : ModuleUniqueId) (msg : ZmfMessage) (id : ℕ) (m m' : Messaging)
      → m.alive ≡ true
      → send_request w target msg m ≡ some (id, m')
      → m'.alive ≡ true
  unfolding send_request to_target
  requests target msg id m m' up p = ground arith

  replies :
      (id : ExternalRequestIdentity) (msg : ZmfMessage) (m m' : Messaging)
      → m.alive ≡ true
      → send_reply w id msg m ≡ some m'
      → m'.alive ≡ true
  unfolding send_reply to_sender
  replies id msg m m' up p = ground arith

  -- While the service is alive, its calls leave it alive.
  pub zmq_service-IsSteady : IsSteady (zmq_service-IsCalm w host)
  zmq_service-IsSteady = record {
    joins = joins;
    leaves = leaves;
    subscribes = subscribes;
    publishes = publishes;
    requests = requests;
    replies = replies;
    injects = λ id m up. up;
  }
