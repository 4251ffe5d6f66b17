-- ===== src/Messaging/Poller/Runs.antt =====
-- What the service does between its start and its stop: calls of the dispatcher, and rounds of the
-- poller.
pub mod Frames
pub mod Incoming
pub mod Ends
mod Examples
use zmf.Prelude.{
  ℕ, zero, suc, ◌+◌, ◌^◌, ◌<◌, ◌≡◌, refl, sym, ◌∙◌, ap, Bool, true, false, Bytes, Option, none,
  some, List, [], ◌∷◌, ◌++◌, map, length, arith,
}
use zmf.Data.UniqueId.{ModuleUniqueId}
use zmf.Data.Handle.{ModuleHandle}
use zmf.Data.RequestIdentity.{ExternalRequestIdentity}
use zmf.Data.MessageType.{MessageType}
use zmf.Data.Message.{ZmfMessage}
use zmf.Messaging.State.{Wire, Host, Messaging}
use zmf.Messaging.Peers.{peer_join, peer_leave}
use zmf.Messaging.Topics.{subscribe, unsubscribe, subscription_call, publish}
use zmf.Messaging.Requests.{cancel_request, on_disable, Request, send_request, send_reply}
use zmf.Messaging.Poller.{handle_rep_in, poll_notify}

module _ (w : Wire) (host : Host) where
  -- One step, with the changes of topics that it asks for. Fewer than 2^64 requests are sent.
  pub data Step : Messaging → List (MessageType × Bool) → Messaging → Type 0 where
    joins : {m m' : Messaging} (h : ModuleHandle) → peer_join w host h m ≡ some m' → Step m [] m'
    leaves : {m m' : Messaging} (h : ModuleHandle) → peer_leave h m ≡ some m' → Step m [] m'
    subscribes :
        {m m' : Messaging} (topic : MessageType)
        → subscribe topic m ≡ some m'
        → Step m ((topic, true) ∷ []) m'
    unsubscribes :
        {m m' : Messaging} (topic : MessageType)
        → unsubscribe topic m ≡ some m'
        → Step m ((topic, false) ∷ []) m'
    publishes : {m m' : Messaging} (msg : ZmfMessage) → publish w msg m ≡ some m' → Step m [] m'
    requests :
        {m m' : Messaging} (target : ModuleUniqueId) (msg : ZmfMessage) (id : ℕ)
        → m.next_request_id + 1 < 2 ^ 64
        → send_request w target msg m ≡ some (id, m')
        → Step m [] m'
    replies :
        {m m' : Messaging} (identity : ExternalRequestIdentity) (msg : ZmfMessage)
        → send_reply w identity msg m ≡ some m'
        → Step m [] m'
    cancels : {m : Messaging} (id : ℕ) → Step m [] (cancel_request id m)
    disables : {m m' : Messaging} → on_disable m ≡ some m' → Step m [] m'
    receives :
        {m m' : Messaging} (message : List Bytes) (handed : Option Request)
        → handle_rep_in w host message m ≡ some (handed, m')
        → Step m [] m'
    notified : {m : Messaging} → Step m [] (poll_notify m)

  -- Steps, one after another, the last one outermost, and the changes that they asked for.
  pub data Run (m : Messaging) : List (MessageType × Bool) → Messaging → Type 0 where
    begins : Run m [] m
    goes_on :
        {m' m'' : Messaging} {asked more : List (MessageType × Bool)}
        → Run m asked m'
        → Step m' more m''
        → Run m (asked ++ more) m''
