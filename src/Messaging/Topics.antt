-- ===== src/Messaging/Topics.antt =====
-- Subscriptions and events.
pub mod Events
use zmf.Prelude.{
  ℕ, Bool, true, false, Bytes, Option, none, some, List, [], ◌∷◌, ◌++◌, if◌then◌else◌,
}
use zmf.Prelude.Optional.{◌>>=◌}
use zmf.Data.UniqueId.{ModuleUniqueId}
use zmf.Data.MessageType.{MessageType, of_bytes}
use zmf.Data.Message.{ZmfMessage}
use zmf.Messaging.State.{
  Wire, Messaging, SubCall, subscription_change, part, own_sender, sender_of, notify_poller,
  check_alive, subscribe_to, unsubscribe_from,
}

abbrev pub change_subscription : MessageType → Bool → Messaging → Messaging
change_subscription topic wanted m =
    notify_poller subscription_change
      (record m { subscription_changes = m.subscription_changes ++ (topic, wanted) ∷ [] })

-- subscribe
unfoldable pub subscribe : MessageType → Messaging → Option Messaging
subscribe topic m = check_alive m (some (change_subscription topic true m))

-- unsubscribe
unfoldable pub unsubscribe : MessageType → Messaging → Option Messaging
unsubscribe topic m = check_alive m (some (change_subscription topic false m))

-- The call of applySubscriptionChange for a change.
abbrev pub subscription_call : MessageType × Bool → SubCall
subscription_call (topic, wanted) =
    if wanted then subscribe_to topic.match else unsubscribe_from topic.match

-- applySubscriptionChange: an exception of the socket is caught.
unfoldable pub apply_subscription_change : Messaging → Messaging
apply_subscription_change m = elim m.subscription_changes [
  | [] ↦ m
  | change ∷ rest ↦ record m {
    subscription_changes = rest;
    sub_calls = m.sub_calls ++ subscription_call change ∷ [];
  }
]

module _ (w : Wire) where
  -- publish
  unfoldable pub publish : ZmfMessage → Messaging → Option Messaging
  publish msg m = check_alive m (
      some (record m {
        published = (msg.type.match ∷ own_sender w m ∷ msg.payload ∷ []) ∷ m.published;
      }))

  -- The body of the loop of handleSubIn: the message and its sender, for `onSubMsgReceived`. `none`
  -- is an exception, which leaves the thread of the poller.
  unfoldable pub handle_sub_in : List Bytes → Option (ZmfMessage × ModuleUniqueId)
  handle_sub_in event = do
    raw ← part 1 event
    match ← part 0 event
    payload ← part 2 event
    type ← of_bytes match
    some (record { type = type; payload = payload }, sender_of w raw)
