-- ===== src/Messaging/Poller/Changes/Restart.antt =====
-- Changes that wait when the service stops.
use zmf.Prelude.{◌≡◌, ◌∙◌, Bool, true, some, List, [], ◌∷◌, ◌++◌, arith}
use zmf.Data.Handle.{ModuleHandle}
use zmf.Data.MessageType.{MessageType}
use zmf.Messaging.State.{Host, Messaging, notify_poller}
use zmf.Messaging.Requests.{break_promises}
use zmf.Messaging.Topics.{subscribe, subscription_call, apply_subscription_change}
use zmf.Messaging.Poller.Runs.Frames.{bound_same}
use zmf.Messaging.Poller.{start, stop, bound, handle_notify, poll_notify}

restarted :
    (host : Host) (h : ModuleHandle) (m : Messaging)
    → m.alive ≡ true
    → let m' = (start host h (stop m)).2 in
      (m'.subscription_changes ≡ m.subscription_changes)
      × (m'.sub_calls ≡ [])
      × (m'.notifications ≡ [])
unfolding start stop break_promises
restarted host h m alive =
    let s = record (stop m) { self = h; sub_calls = []; notifications = [] } in
    let k = (bound_same host s).0 in
    let e : start host h (stop m) ≡ bound host s = ground arith in
    rw e (k.1 ∙ ground arith, k.3, k.0)

polled :
    (s m' : Messaging) (c : MessageType × Bool) (rest : List (MessageType × Bool))
    (topic : MessageType)
    → s.subscription_changes ≡ c ∷ rest
    → s.sub_calls ≡ []
    → s.notifications ≡ []
    → subscribe topic s ≡ some m'
    → let end = poll_notify m' in
      (end.sub_calls ≡ subscription_call c ∷ [])
      × (end.notifications ≡ [])
      × (end.subscription_changes ≡ rest ++ (topic, true) ∷ [])
unfolding subscribe poll_notify handle_notify apply_subscription_change notify_poller
polled s m' c rest topic waits calls quiet e = (ground arith, ground arith, ground arith)

-- A change that waits when the service stops still waits in the service that is started again;
-- there it is applied in place of the topic that is subscribed next, which then waits in turn.
pub stale_change :
    (host : Host) (h : ModuleHandle) (m : Messaging) (c : MessageType × Bool)
    (rest : List (MessageType × Bool)) (topic : MessageType) (m' : Messaging)
    → m.alive ≡ true
    → m.subscription_changes ≡ c ∷ rest
    → subscribe topic (start host h (stop m)).2 ≡ some m'
    → let end = poll_notify m' in
      (end.sub_calls ≡ subscription_call c ∷ [])
      × (end.notifications ≡ [])
      × (end.subscription_changes ≡ rest ++ (topic, true) ∷ [])
stale_change host h m c rest topic m' alive waits e =
    let r = restarted host h m alive in
    polled (start host h (stop m)).2 m' c rest topic (r.0 ∙ waits) r.1 r.2 e
