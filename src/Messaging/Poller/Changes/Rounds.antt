-- ===== src/Messaging/Poller/Changes/Rounds.antt =====
-- The rounds of the poller, and the changes that they apply.
use zmf.Prelude.{
  ℕ, zero, suc, ◌≡◌, refl, sym, ◌∙◌, ap, Bool, true, false, Bytes, List, [], ◌∷◌, ◌++◌, map, length,
  append_assoc, append-nil, arith, if◌then◌else◌,
}
use zmf.Data.MessageType.{MessageType}
use zmf.Messaging.State.{
  Messaging, NotifyType, subscription_change, membership_change, shutdown, SubCall, connect,
  disconnect,
}
use zmf.Messaging.Peers.{apply_membership_change}
use zmf.Messaging.Topics.{subscription_call, apply_subscription_change}
use zmf.Messaging.Poller.{handle_notify, poll_notify}
use zmf.Messaging.Poller.Changes.{
  IsNotified, topics_in, peers_in, topic_calls, topic_history, topic_calls-append,
  topic_calls-subscription_call,
}

-- The change that is applied moves from those to come to those that the socket has got.
applied_topic :
    (calls : List SubCall) (c : MessageType × Bool) (rest : List (MessageType × Bool))
    → topic_calls (calls ++ subscription_call c ∷ []) ++ map subscription_call rest
      ≡ topic_calls calls ++ map subscription_call (c ∷ rest)
applied_topic calls c rest =
    ap (λ xs. xs ++ map subscription_call rest)
      (topic_calls-append calls (subscription_call c ∷ [])
        ∙ ap (λ xs. topic_calls calls ++ xs) (topic_calls-subscription_call c))
    ∙ append_assoc (topic_calls calls) (subscription_call c ∷ []) (map subscription_call rest)

topic_calls-peer :
    (calls : List SubCall) (address : Bytes) (joins : Bool)
    → topic_calls (calls ++ (if joins then connect address else disconnect address) ∷ [])
      ≡ topic_calls calls
topic_calls-peer calls address true =
    topic_calls-append calls (connect address ∷ []) ∙ append-nil (topic_calls calls)
topic_calls-peer calls address false =
    topic_calls-append calls (disconnect address ∷ []) ∙ append-nil (topic_calls calls)

-- What a round keeps.
abbrev pub IsRoundOf : Messaging → List NotifyType → Messaging → Type 0
IsRoundOf m rest m' =
    IsNotified m' × (topic_history m' ≡ topic_history m) × (m'.notifications ≡ rest)

topic_round :
    (m : Messaging) (rest : List NotifyType) (changes : List (MessageType × Bool))
    → m.subscription_changes ≡ changes
    → m.notifications ≡ subscription_change ∷ rest
    → IsNotified m
    → IsRoundOf m rest (apply_subscription_change (record m { notifications = rest }))
unfolding apply_subscription_change
topic_round m rest [] p q b = absurd (ground (arith, ap topics_in q))
topic_round m rest (c ∷ cs) p q b =
    let e : apply_subscription_change (record m { notifications = rest }) ≡ record m {
      notifications = rest;
      subscription_changes = cs;
      sub_calls = m.sub_calls ++ subscription_call c ∷ [];
    } =
      ground arith in
    rw e (
      (ground (arith, ap topics_in q), ground (arith, ap peers_in q)),
      applied_topic m.sub_calls c cs
          ∙ ap (λ xs. topic_calls m.sub_calls ++ map subscription_call xs) (sym p),
      refl,
    )

peer_round :
    (m : Messaging) (rest : List NotifyType) (changes : List (Bytes × Bool))
    → m.membership_changes ≡ changes
    → m.notifications ≡ membership_change ∷ rest
    → IsNotified m
    → IsRoundOf m rest (apply_membership_change (record m { notifications = rest }))
unfolding apply_membership_change
peer_round m rest [] p q b = absurd (ground (arith, ap peers_in q))
peer_round m rest (c ∷ cs) p q b =
    let e : apply_membership_change (record m { notifications = rest }) ≡ record m {
      notifications = rest;
      membership_changes = cs;
      sub_calls = m.sub_calls ++ (if c.1 then connect c.0 else disconnect c.0) ∷ [];
    } =
      ground arith in
    rw e (
      (ground (arith, ap topics_in q), ground (arith, ap peers_in q)),
      ap (λ xs. xs ++ map subscription_call m.subscription_changes)
          (topic_calls-peer m.sub_calls c.0 c.1),
      refl,
    )

handle_round :
    (m : Messaging) (t : NotifyType) (rest : List NotifyType)
    → m.notifications ≡ t ∷ rest
    → IsNotified m
    → IsRoundOf m rest (handle_notify t (record m { notifications = rest }))
unfolding handle_notify
handle_round m subscription_change rest q b = topic_round m rest m.subscription_changes refl q b
handle_round m membership_change rest q b = peer_round m rest m.membership_changes refl q b
handle_round m shutdown rest q b =
    ((ground (arith, ap topics_in q), ground (arith, ap peers_in q)), refl, refl)

poll_round :
    (m : Messaging) (t : NotifyType) (rest : List NotifyType)
    → m.notifications ≡ t ∷ rest
    → IsNotified m
    → IsRoundOf m rest (poll_notify m)
unfolding poll_notify
poll_round m t rest q b =
    let e : poll_notify m ≡ handle_notify t (record m { notifications = rest }) = ground arith in
    rw e (handle_round m t rest q b)

poll_from :
    (m : Messaging) (ts : List NotifyType)
    → m.notifications ≡ ts
    → IsNotified m
    → IsNotified (poll_notify m) × (topic_history (poll_notify m) ≡ topic_history m ++ [])
unfolding poll_notify
poll_from m [] q b =
    let e : m ≡ poll_notify m = ground arith in rw (sym e) (b, sym (append-nil (topic_history m)))
poll_from m (t ∷ rest) q b =
    let r = poll_round m t rest q b in (r.0, r.1 ∙ sym (append-nil (topic_history m)))

-- A round keeps the history of the topics, where there was a notification and where there was none.
pub poll_round_lem :
    (m : Messaging)
    → IsNotified m
    → IsNotified (poll_notify m) × (topic_history (poll_notify m) ≡ topic_history m ++ [])
poll_round_lem m b = poll_from m m.notifications refl b

-- Rounds of the poller, one after another.
abbrev pub poll_times : ℕ → Messaging → Messaging
poll_times zero m = m
poll_times (suc n) m = poll_times n (poll_notify m)

no_element {ℓ} : {A : Type ℓ} (xs : List A) → length xs ≡ 0 → xs ≡ []
no_element [] q = refl
no_element (x ∷ xs) q = absurd (omega arith)

nothing_announced :
    (m : Messaging)
    → m.notifications ≡ []
    → IsNotified m
    → (m.subscription_changes ≡ [])
      × (m.membership_changes ≡ [])
      × (topic_calls m.sub_calls ≡ topic_history m)
nothing_announced m q b =
    let u = no_element m.subscription_changes (ground (arith, ap topics_in q)) in
    let v = no_element m.membership_changes (ground (arith, ap peers_in q)) in
    (
      u,
      v,
      sym (append-nil (topic_calls m.sub_calls))
          ∙ ap (λ xs. topic_calls m.sub_calls ++ map subscription_call xs) (sym u),
    )

rounds_from :
    (ts : List NotifyType) (m : Messaging)
    → m.notifications ≡ ts
    → IsNotified m
    → let m' = poll_times (length ts) m in
      (m'.subscription_changes ≡ [])
      × (m'.membership_changes ≡ [])
      × (topic_calls m'.sub_calls ≡ topic_history m)
rounds_from [] m q b = nothing_announced m q b
rounds_from (t ∷ rest) m q b =
    let r = poll_round m t rest q b in
    let k = rounds_from rest (poll_notify m) r.2 r.0 in (k.0, k.1, k.2 ∙ r.1)

-- While each change has its notification, the poller has applied every change after as many rounds
-- as there are notifications, and the subscriber socket has then got the calls for the topics in
-- the order in which they were asked for.
pub poll_times_lem :
    (m : Messaging)
    → IsNotified m
    → let m' = poll_times (length m.notifications) m in
      (m'.subscription_changes ≡ [])
      × (m'.membership_changes ≡ [])
      × (topic_calls m'.sub_calls ≡ topic_history m)
poll_times_lem m b = rounds_from m.notifications m refl b
