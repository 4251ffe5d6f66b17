-- ===== src/Messaging/Poller/Changes.antt =====
-- The two queues of changes, and the notifications that make the poller apply them.
pub mod Rounds
pub mod Restart
pub mod Arrivals
use zmf.Prelude.{
  ℕ, zero, suc, ◌+◌, ◌≡◌, refl, sym, ◌∙◌, ap, Bool, true, false, Bytes, Option, none, some, List,
  [], ◌∷◌, ◌++◌, map, length, length-append, append_assoc, append-nil, map-append, arith,
  if◌then◌else◌, Option-cases, inl, inr,
}
use zmf.Data.Handle.{ModuleHandle}
use zmf.Data.MessageType.{MessageType}
use zmf.Messaging.State.{
  Wire, Host, Messaging, NotifyType, subscription_change, membership_change, shutdown,
  notify_poller, SubCall, connect, disconnect, subscribe_to, unsubscribe_from,
}
use zmf.Messaging.Peers.{apply_membership_change, internal_connect, peer_join, peer_leave}
use zmf.Messaging.Topics.{subscribe, unsubscribe, subscription_call, apply_subscription_change}
use zmf.Messaging.Poller.{handle_notify, poll_notify}

-- How many changes of topics and of peers the notifications announce.
abbrev pub topics_in : List NotifyType → ℕ
topics_in [] = 0
topics_in (subscription_change ∷ ts) = suc (topics_in ts)
topics_in (membership_change ∷ ts) = topics_in ts
topics_in (shutdown ∷ ts) = topics_in ts

abbrev pub peers_in : List NotifyType → ℕ
peers_in [] = 0
peers_in (subscription_change ∷ ts) = peers_in ts
peers_in (membership_change ∷ ts) = suc (peers_in ts)
peers_in (shutdown ∷ ts) = peers_in ts

-- Each change that waits has its notification, and the other way round.
abbrev pub IsNotified : Messaging → Type 0
IsNotified m =
    (topics_in m.notifications ≡ length m.subscription_changes)
    × (peers_in m.notifications ≡ length m.membership_changes)

-- The calls on the subscriber socket that subscribe or unsubscribe.
abbrev pub topic_calls : List SubCall → List SubCall
topic_calls [] = []
topic_calls (connect address ∷ calls) = topic_calls calls
topic_calls (disconnect address ∷ calls) = topic_calls calls
topic_calls (subscribe_to match ∷ calls) = subscribe_to match ∷ topic_calls calls
topic_calls (unsubscribe_from match ∷ calls) = unsubscribe_from match ∷ topic_calls calls

-- The calls for the topics that the socket has got, and those that it is still to get.
abbrev pub topic_history : Messaging → List SubCall
topic_history m = topic_calls m.sub_calls ++ map subscription_call m.subscription_changes

topic_calls-append :
    (xs ys : List SubCall) → topic_calls (xs ++ ys) ≡ topic_calls xs ++ topic_calls ys
topic_calls-append [] ys = refl
topic_calls-append (connect address ∷ xs) ys = topic_calls-append xs ys
topic_calls-append (disconnect address ∷ xs) ys = topic_calls-append xs ys
topic_calls-append (subscribe_to match ∷ xs) ys =
    ap (◌∷◌ (subscribe_to match)) (topic_calls-append xs ys)
topic_calls-append (unsubscribe_from match ∷ xs) ys =
    ap (◌∷◌ (unsubscribe_from match)) (topic_calls-append xs ys)

topics_in-last :
    (ts : List NotifyType) (t : NotifyType)
    → (topics_in (ts ++ t ∷ []) ≡ topics_in ts + topics_in (t ∷ []))
      × (peers_in (ts ++ t ∷ []) ≡ peers_in ts + peers_in (t ∷ []))
topics_in-last [] t = (omega arith, omega arith)
topics_in-last (subscription_change ∷ ts) t = ground (arith, topics_in-last ts t)
topics_in-last (membership_change ∷ ts) t = ground (arith, topics_in-last ts t)
topics_in-last (shutdown ∷ ts) t = ground (arith, topics_in-last ts t)

topic_calls-subscription_call :
    (c : MessageType × Bool) → topic_calls (subscription_call c ∷ []) ≡ subscription_call c ∷ []
topic_calls-subscription_call (topic, true) = refl
topic_calls-subscription_call (topic, false) = refl
