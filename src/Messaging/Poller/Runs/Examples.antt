-- ===== src/Messaging/Poller/Runs/Examples.antt =====
-- The theorems on runs of the service, and on a service that is started again.
use zmf.Prelude.{Bool, ◌+◌, ◌≡◌, refl, true, none, some, List, [], ◌∷◌, map, length, ltb, arith}
use zmf.Prelude.Decimal.{to_string}
use zmf.Prelude.Decimal.Parse.{stoi}
use zmf.Prelude.Map.{put, lookup, contains}
use zmf.Data.UniqueId.Order.{id_key, number_key}
use zmf.Data.Handle.{self_set_pub_port, self_set_rep_port}
use zmf.Data.RequestIdentity.{identity_key}
use zmf.Data.MessageType.{MessageType}
use zmf.Registry.Examples.{sensor}
use zmf.Messaging.State.{Messaging, notify_poller}
use zmf.Messaging.Topics.{
  change_subscription, subscribe, subscription_call, apply_subscription_change,
}
use zmf.Messaging.Requests.{to_target, send_request}
use zmf.Messaging.Requests.Accounts.{answers_of, one_if}
use zmf.Messaging.Poller.{start, stop, bound, extract_port, handle_notify, poll_notify}
use zmf.Messaging.Poller.Changes.{topic_calls}
use zmf.Messaging.Poller.Changes.Rounds.{poll_times}
use zmf.Messaging.Poller.Changes.Restart.{stale_change}
use zmf.Messaging.Poller.Runs.{subscribes, requests, notified, Run, begins, goes_on}
use zmf.Messaging.Poller.Runs.Ends.{Run-topics, Run-requests}
use zmf.Messaging.Examples.{own, host, wire, live, start-own, topic, other_topic, message}

waiting-alive : (change_subscription topic true live).alive ≡ true
unfolding notify_poller
waiting-alive = refl

waiting-waits : (change_subscription topic true live).subscription_changes ≡ (topic, true) ∷ []
unfolding notify_poller
waiting-waits = refl

again-subscribed :
    let again = (start host own (stop (change_subscription topic true live))).2 in
    subscribe other_topic again ≡ some (change_subscription other_topic true again)
unfolding start stop bound extract_port stoi self_set_rep_port self_set_pub_port to_string subscribe
    notify_poller
again-subscribed = refl

-- Two topics, a request to nobody and a round of the poller.
abbrev asked_topics : List (MessageType × Bool)
asked_topics = (topic, true) ∷ (other_topic, true) ∷ []

abbrev after_topics : Messaging
after_topics = change_subscription other_topic true (change_subscription topic true live)

abbrev after_round : Messaging
after_round = poll_notify after_topics

abbrev after_request : Messaging
after_request =
    to_target wire none 0 message
      (record after_round { next_request_id = 1; outstanding_requests = (0, tt) ∷ [] })

short-Run : Run wire host live asked_topics after_request
unfolding subscribe send_request lookup put poll_notify notify_poller apply_subscription_change
    handle_notify
short-Run =
    goes_on
      (goes_on (goes_on (goes_on begins (subscribes topic refl)) (subscribes other_topic refl))
        notified)
      (requests sensor.unique_id message 0 (omega arith) refl)

Run-topics_example :
    let end = poll_times (length after_request.notifications) after_request in
    (end.subscription_changes ≡ [])
    × (end.membership_changes ≡ [])
    × (topic_calls end.sub_calls ≡ map subscription_call asked_topics)
Run-topics_example =
    Run-topics wire host sensor own live.self live after_request asked_topics start-own short-Run

Run-requests_example :
    answers_of 0 after_request.answers + one_if (contains 0 after_request.outstanding_requests)
    ≡ one_if (ltb 0 after_request.next_request_id)
Run-requests_example =
    Run-requests wire host sensor own live.self live after_request asked_topics start-own short-Run
      0

-- A service that stops with a change that waits.
abbrev waiting : Messaging
waiting = change_subscription topic true live

abbrev again : Messaging
again = (start host own (stop waiting)).2

stale_change_example :
    let end = poll_notify (change_subscription other_topic true again) in
    (end.sub_calls ≡ subscription_call (topic, true) ∷ [])
    × (end.notifications ≡ [])
    × (end.subscription_changes ≡ (other_topic, true) ∷ [])
stale_change_example =
    stale_change host own waiting (topic, true) [] other_topic
      (change_subscription other_topic true again) waiting-alive waiting-waits again-subscribed
