-- ===== src/Messaging/Poller/Runs/Frames.antt =====
-- What each operation leaves alone: the changes that wait, or the requests that wait.
use zmf.Prelude.{ℕ, ◌≡◌, refl, Bytes, some, List, [], ◌∷◌, arith}
use zmf.Data.UniqueId.{ModuleUniqueId}
use zmf.Data.UniqueId.Order.{id_key, number_key}
use zmf.Data.Handle.{ModuleHandle}
use zmf.Data.RequestIdentity.{ExternalRequestIdentity, identity_key}
use zmf.Data.MessageType.{MessageType}
use zmf.Data.Message.{ZmfMessage}
use zmf.Messaging.State.{
  Wire, Host, Messaging, NotifyType, subscription_change, membership_change, shutdown,
  notify_poller,
}
use zmf.Messaging.Peers.{internal_connect, peer_leave, apply_membership_change}
use zmf.Messaging.Topics.{subscribe, unsubscribe, publish, apply_subscription_change}
use zmf.Messaging.Requests.{
  break_promise, break_promises, cancel_request, on_disable, Request, to_target, to_sender,
  send_request, send_reply, handle_request_received,
}
use zmf.Messaging.Requests.Accounts.{IsAccounted}
use zmf.Messaging.Poller.{bound, handle_notify, poll_notify}

abbrev pub SameChanges : Messaging → Messaging → Type 0
SameChanges m m' =
    (m'.notifications ≡ m.notifications)
    × (m'.subscription_changes ≡ m.subscription_changes)
    × (m'.membership_changes ≡ m.membership_changes)
    × (m'.sub_calls ≡ m.sub_calls)

abbrev pub SameRequests : Messaging → Messaging → Type 0
SameRequests m m' =
    (m'.outstanding_requests ≡ m.outstanding_requests)
    × (m'.answers ≡ m.answers)
    × (m'.next_request_id ≡ m.next_request_id)

pub same_IsAccounted : (m m' : Messaging) → SameRequests m m' → IsAccounted m → IsAccounted m'
same_IsAccounted m m' q s = ground (arith, s)

topics_requests : (m : Messaging) → SameRequests m (apply_subscription_change m)
unfolding apply_subscription_change
topics_requests m = ground arith

peers_requests : (m : Messaging) → SameRequests m (apply_membership_change m)
unfolding apply_membership_change
peers_requests m = ground arith

poll_from :
    (m : Messaging) (ts : List NotifyType) → m.notifications ≡ ts → SameRequests m (poll_notify m)
unfolding poll_notify handle_notify
poll_from m [] q = ground arith
poll_from m (subscription_change ∷ rest) q =
    ground (arith, topics_requests (record m { notifications = rest }))
poll_from m (membership_change ∷ rest) q =
    ground (arith, peers_requests (record m { notifications = rest }))
poll_from m (shutdown ∷ rest) q = ground arith

pub poll_notify_requests : (m : Messaging) → SameRequests m (poll_notify m)
poll_notify_requests m = poll_from m m.notifications refl

pub subscribe_requests :
    (topic : MessageType) (m m' : Messaging) → subscribe topic m ≡ some m' → SameRequests m m'
unfolding subscribe notify_poller
subscribe_requests topic m m' e = ground arith

pub unsubscribe_requests :
    (topic : MessageType) (m m' : Messaging) → unsubscribe topic m ≡ some m' → SameRequests m m'
unfolding unsubscribe notify_poller
unsubscribe_requests topic m m' e = ground arith

pub peer_leave_requests :
    (h : ModuleHandle) (m m' : Messaging) → peer_leave h m ≡ some m' → SameRequests m m'
unfolding peer_leave notify_poller
peer_leave_requests h m m' e = ground arith

pub cancel_request_changes : (id : ℕ) (m : Messaging) → SameChanges m (cancel_request id m)
unfolding cancel_request break_promise
cancel_request_changes id m = ground arith

pub on_disable_changes : (m m' : Messaging) → on_disable m ≡ some m' → SameChanges m m'
unfolding on_disable break_promises
on_disable_changes m m' e = ground arith

module _ (w : Wire) where
  pub publish_changes :
      (msg : ZmfMessage) (m m' : Messaging)
      → publish w msg m ≡ some m'
      → SameChanges m m' × SameRequests m m'
  unfolding publish
  publish_changes msg m m' e = ground arith

  pub send_request_changes :
      (target : ModuleUniqueId) (msg : ZmfMessage) (m m' : Messaging) (id : ℕ)
      → send_request w target msg m ≡ some (id, m')
      → SameChanges m m'
  unfolding send_request to_target
  send_request_changes target msg m m' id e = ground arith

  pub send_reply_changes :
      (identity : ExternalRequestIdentity) (msg : ZmfMessage) (m m' : Messaging)
      → send_reply w identity msg m ≡ some m'
      → SameChanges m m' × SameRequests m m'
  unfolding send_reply to_sender
  send_reply_changes identity msg m m' e = ground arith

  pub handle_request_received_changes :
      (message : List Bytes) (m m' : Messaging) (r : Request)
      → handle_request_received w message m ≡ some (r, m')
      → SameChanges m m' × SameRequests m m'
  unfolding handle_request_received
  handle_request_received_changes message m m' r e = ground arith

module _ (w : Wire) (host : Host) where
  pub internal_connect_requests :
      (identity : ModuleUniqueId) (rep_addr pub_addr : Bytes) (m m' : Messaging)
      → internal_connect w host identity rep_addr pub_addr m ≡ some m'
      → SameRequests m m'
  unfolding internal_connect notify_poller
  internal_connect_requests identity rep_addr pub_addr m m' e = ground arith

pub bound_same :
    (host : Host) (m : Messaging)
    → let m' = (bound host m).2 in SameChanges m m' × SameRequests m m'
unfolding bound
bound_same host m = ground arith
