-- ===== src/Messaging/Poller/Runs/Ends.antt =====
-- The state that a run ends in.
use zmf.Prelude.{
  ℕ, ◌+◌, ltb, ◌≡◌, sym, ◌∙◌, ap, Bool, true, some, List, [], ◌++◌, map, length, append_assoc,
  map-append, arith,
}
use zmf.Prelude.Map.{contains, lookup}
use zmf.Data.UniqueId.Order.{number_key}
use zmf.Data.Handle.{ModuleHandle}
use zmf.Data.MessageType.{MessageType}
use zmf.Messaging.State.{Wire, Host, Messaging}
use zmf.Messaging.Peers.{peer_join}
use zmf.Messaging.Topics.{subscription_call}
use zmf.Messaging.Requests.{cancel_request, on_disable}
use zmf.Messaging.Requests.Accounts.{
  IsAccounted, answers_of, one_if, break_promise-IsAccounted, break_promises-IsAccounted,
  send_request-IsAccounted,
}
use zmf.Messaging.Poller.{start, bound, new_service}
use zmf.Messaging.Poller.Changes.{topics_in, peers_in, topic_history, topic_calls}
use zmf.Messaging.Poller.Changes.Arrivals.{
  nothing_comes, subscribe-Asks, unsubscribe-Asks, peer_leave-Asks,
}
use zmf.Messaging.Poller.Changes.Rounds.{poll_times, poll_times_lem, poll_round_lem}
use zmf.Messaging.Poller.Runs.{
  Step, joins, leaves, subscribes, unsubscribes, publishes, requests, replies, cancels, disables,
  receives, notified, Run, begins, goes_on,
}
use zmf.Messaging.Poller.Runs.Frames.{
  bound_same, same_IsAccounted, poll_notify_requests, subscribe_requests, unsubscribe_requests,
  peer_leave_requests, cancel_request_changes, on_disable_changes, publish_changes,
  send_request_changes, send_reply_changes,
}
use zmf.Messaging.Poller.Runs.Incoming.{IsSound, IsStep, quiet, connected, message_arrives}

cancel_request-IsAccounted :
    (id : ℕ) (m : Messaging) → IsAccounted m → IsAccounted (cancel_request id m)
unfolding cancel_request
cancel_request-IsAccounted id m s = ground (arith, s, break_promise-IsAccounted id m s)

on_disable-IsAccounted :
    (m m' : Messaging) → on_disable m ≡ some m' → IsAccounted m → IsAccounted m'
unfolding on_disable
on_disable-IsAccounted m m' e s = ground (arith, break_promises-IsAccounted m s)

module _ (w : Wire) (host : Host) where
  joined :
      (h : ModuleHandle) (m m' : Messaging)
      → peer_join w host h m ≡ some m'
      → IsSound m
      → IsStep m [] m'
  unfolding peer_join
  joined h m m' e s =
      connected w host h.unique_id h.zmq_rep_addr h.zmq_pub_addr m m' (ground arith) s

  step_lem :
      {m m' : Messaging} {asked : List (MessageType × Bool)}
      → IsSound m
      → Step w host m asked m'
      → IsStep m asked m'
  step_lem {m} {m'} s (joins h e) = joined h m m' e s
  step_lem {m} {m'} s (leaves h e) =
      (peer_leave-Asks h m m' e s.0, same_IsAccounted m m' (peer_leave_requests h m m' e) s.1)
  step_lem {m} {m'} s (subscribes topic e) =
      (subscribe-Asks topic m m' e s.0, same_IsAccounted m m' (subscribe_requests topic m m' e) s.1)
  step_lem {m} {m'} s (unsubscribes topic e) = (
    unsubscribe-Asks topic m m' e s.0,
    same_IsAccounted m m' (unsubscribe_requests topic m m' e) s.1,
  )
  step_lem {m} {m'} s (publishes msg e) =
      let k = publish_changes w msg m m' e in (quiet m m' k.0 s.0, same_IsAccounted m m' k.1 s.1)
  step_lem {m} {m'} s (requests target msg id bound e) = (
    quiet m m' (send_request_changes w target msg m m' id e) s.0,
    send_request-IsAccounted w target msg m m' id e bound s.1,
  )
  step_lem {m} {m'} s (replies identity msg e) =
      let k = send_reply_changes w identity msg m m' e in
      (quiet m m' k.0 s.0, same_IsAccounted m m' k.1 s.1)
  step_lem {m} {m'} s (cancels id) =
      (quiet m m' (cancel_request_changes id m) s.0, cancel_request-IsAccounted id m s.1)
  step_lem {m} {m'} s (disables e) =
      (quiet m m' (on_disable_changes m m' e) s.0, on_disable-IsAccounted m m' e s.1)
  step_lem {m} {m'} s (receives message handed e) = message_arrives w host message m m' handed e s
  step_lem {m} {m'} s notified =
      (poll_round_lem m s.0, same_IsAccounted m m' (poll_notify_requests m) s.1)

  run_lem :
      {m m' : Messaging} {asked : List (MessageType × Bool)}
      → IsSound m
      → Run w host m asked m'
      → IsStep m asked m'
  run_lem {m} s begins = (nothing_comes m s.0, s.1)
  run_lem {m} {m'} s (goes_on {asked = asked} {more = more} run step) =
      let k = run_lem s run in
      let l = step_lem (k.0.0, k.1) step in
      (
        (
          l.0.0,
          l.0.1
              ∙ ap (λ xs. xs ++ map subscription_call more) k.0.1
              ∙ append_assoc (topic_history m) (map subscription_call asked)
                  (map subscription_call more)
              ∙ ap (λ xs. topic_history m ++ xs) (sym (map-append subscription_call asked more)),
        ),
        l.1,
      )

  -- A service that was just started.
  start-IsSound :
      (self h h' : ModuleHandle) (m : Messaging)
      → start host h (new_service self) ≡ (some true, h', m)
      → IsSound m × (topic_history m ≡ [])
  unfolding start contains lookup
  start-IsSound self h h' m e =
      let s = record (new_service self) { self = h } in
      let k = bound_same host s in
      let q : (bound host s).2 ≡ m = ground arith in
      rw (sym q) (
        (
          (
            ground (arith, ap topics_in k.0.0, ap length k.0.1),
            ground (arith, ap peers_in k.0.0, ap length k.0.2),
          ),
          same_IsAccounted s (bound host s).2 k.1 (tt, λ j. ground arith),
        ),
        ap (λ c. topic_calls c ++ map subscription_call (bound host s).2.subscription_changes) k.0.3
            ∙ ap (map subscription_call) k.0.1,
      )

  -- After as many rounds of the poller as there are notifications, a service that was just started
  -- and then ran has applied every change, and its subscriber socket has got the calls for the
  -- topics that the run asked for, in their order and no others.
  pub Run-topics :
      (self h h' : ModuleHandle) (m m' : Messaging) (asked : List (MessageType × Bool))
      → start host h (new_service self) ≡ (some true, h', m)
      → Run w host m asked m'
      → let end = poll_times (length m'.notifications) m' in
        (end.subscription_changes ≡ [])
        × (end.membership_changes ≡ [])
        × (topic_calls end.sub_calls ≡ map subscription_call asked)
  Run-topics self h h' m m' asked e run =
      let s = start-IsSound self h h' m e in
      let k = run_lem s.0 run in
      let r = poll_times_lem m' k.0.0 in
      (r.0, r.1, r.2 ∙ k.0.1 ∙ ap (λ xs. xs ++ map subscription_call asked) s.1)

  -- In a service that was just started and then ran, each request that was sent either waits for
  -- its reply or its future has got exactly one answer, and no other id waits or was answered.
  pub Run-requests :
      (self h h' : ModuleHandle) (m m' : Messaging) (asked : List (MessageType × Bool))
      → start host h (new_service self) ≡ (some true, h', m)
      → Run w host m asked m'
      → (id : ℕ)
      → answers_of id m'.answers + one_if (contains id m'.outstanding_requests)
        ≡ one_if (ltb id m'.next_request_id)
  Run-requests self h h' m m' asked e run = (run_lem (start-IsSound self h h' m e).0 run).1.1
