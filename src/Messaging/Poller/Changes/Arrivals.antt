-- ===== src/Messaging/Poller/Changes/Arrivals.antt =====
-- The changes that come in.
use zmf.Prelude.{
  ◌≡◌, sym, ◌∙◌, ap, Bool, true, false, Bytes, some, List, [], ◌∷◌, ◌++◌, map, length-append,
  append_assoc, append-nil, map-append, arith, Option-cases, Bool-cases, inl, inr,
}
use zmf.Prelude.Map.{contains, put, erase}
use zmf.Data.UniqueId.{ModuleUniqueId}
use zmf.Data.UniqueId.Order.{id_key}
use zmf.Data.Handle.{ModuleHandle}
use zmf.Data.MessageType.{MessageType}
use zmf.Messaging.State.{
  Wire, Host, Messaging, subscription_change, membership_change, notify_poller,
}
use zmf.Messaging.Peers.{change_membership, hello_parts, internal_connect, peer_leave}
use zmf.Messaging.Topics.{change_subscription, subscribe, unsubscribe, subscription_call}
use zmf.Messaging.Poller.Changes.{IsNotified, topic_calls, topic_history, topics_in-last}

-- What a call does to the changes: these topics are asked for, and nothing waits without notice.
abbrev pub Asks : Messaging → List (MessageType × Bool) → Messaging → Type 0
Asks m asked m' =
    IsNotified m' × (topic_history m' ≡ topic_history m ++ map subscription_call asked)

topic_comes :
    (topic : MessageType) (wanted : Bool) (m : Messaging)
    → IsNotified m
    → Asks m ((topic, wanted) ∷ []) (change_subscription topic wanted m)
unfolding notify_poller
topic_comes topic wanted m b =
    let c : MessageType × Bool = (topic, wanted) in
    (
      (
        ground (
          arith,
          topics_in-last m.notifications subscription_change,
          length-append m.subscription_changes (c ∷ []),
        ),
        ground (arith, topics_in-last m.notifications subscription_change),
      ),
      ap (λ xs. topic_calls m.sub_calls ++ xs)
            (map-append subscription_call m.subscription_changes (c ∷ []))
          ∙ sym (
              append_assoc (topic_calls m.sub_calls) (map subscription_call m.subscription_changes)
                (subscription_call c ∷ [])),
    )

peer_comes :
    (address : Bytes) (joins : Bool) (m : Messaging)
    → IsNotified m
    → Asks m [] (change_membership address joins m)
unfolding notify_poller
peer_comes address joins m b =
    let c : Bytes × Bool = (address, joins) in
    (
      (
        ground (arith, topics_in-last m.notifications membership_change),
        ground (
          arith,
          topics_in-last m.notifications membership_change,
          length-append m.membership_changes (c ∷ []),
        ),
      ),
      sym (append-nil (topic_history m)),
    )

pub nothing_comes : (m : Messaging) → IsNotified m → Asks m [] m
nothing_comes m b = (b, sym (append-nil (topic_history m)))

pub subscribe-Asks :
    (topic : MessageType) (m m' : Messaging)
    → subscribe topic m ≡ some m'
    → IsNotified m
    → Asks m ((topic, true) ∷ []) m'
unfolding subscribe
subscribe-Asks topic m m' e b =
    let q : change_subscription topic true m ≡ m' = ground arith in
    rw (sym q) (topic_comes topic true m b)

pub unsubscribe-Asks :
    (topic : MessageType) (m m' : Messaging)
    → unsubscribe topic m ≡ some m'
    → IsNotified m
    → Asks m ((topic, false) ∷ []) m'
unfolding unsubscribe
unsubscribe-Asks topic m m' e b =
    let q : change_subscription topic false m ≡ m' = ground arith in
    rw (sym q) (topic_comes topic false m b)

pub internal_connect-Asks :
    (w : Wire) (host : Host) (identity : ModuleUniqueId) (rep_addr pub_addr : Bytes)
    (m m' : Messaging)
    → internal_connect w host identity rep_addr pub_addr m ≡ some m'
    → IsNotified m
    → Asks m [] m'
unfolding internal_connect
internal_connect-Asks w host identity rep_addr pub_addr m m' e b =
    elim (Bool-cases (contains identity m.sockets_req)) [
      | inl p ↦ let q : m ≡ m' = ground arith in rw (sym q) (nothing_comes m b)
      | inr p ↦ elim (Option-cases host.own_ip) [
        | inl i ↦ absurd (ground arith)
        | inr (ip, i) ↦
            let s = record m {
              outbox = (rep_addr, hello_parts w ip m) ∷ m.outbox;
              sockets_req = put identity rep_addr m.sockets_req;
            } in
            let q : change_membership pub_addr true s ≡ m' = ground arith in
            rw (sym q) (peer_comes pub_addr true s b)
      ]
    ]

pub peer_leave-Asks :
    (h : ModuleHandle) (m m' : Messaging) → peer_leave h m ≡ some m' → IsNotified m → Asks m [] m'
unfolding peer_leave
peer_leave-Asks h m m' e b = elim (Bool-cases (contains h.unique_id m.sockets_req)) [
  | inl p ↦
      let q : change_membership h.zmq_pub_addr false
            (record m { sockets_req = erase h.unique_id m.sockets_req })
          ≡ m' =
        ground arith in
      rw (sym q) (
        peer_comes h.zmq_pub_addr false (record m { sockets_req = erase h.unique_id m.sockets_req })
          b)
  | inr p ↦ let q : m ≡ m' = ground arith in rw (sym q) (nothing_comes m b)
]
