-- ===== src/Dispatcher/Delivery/Replay.antt =====
-- What the module and the messaging service get of the notifications that wait.
use zmf.Prelude.{
  ◌≡◌, refl, sym, ap, true, false, Option, none, some, List, [], ◌∷◌, arith, Option-cases, inl, inr,
}
use zmf.Prelude.Map.{values}
use zmf.Data.UniqueId.Order.{number_key}
use zmf.Data.RequestIdentity.{ExternalRequestIdentity}
use zmf.Data.Reply.{ZmfOutReply, immediate_reply, future_reply, no_reply}
use zmf.Dispatcher.State.{
  MessagingService, ModuleCode, SubscriptionHandle, DeliveryMethod, delivery_event,
  delivery_request, delivery_state, EventNotification, RequestNotification, StateNotification,
  Dispatcher,
}
use zmf.Dispatcher.Delivery.{
  goes_on, deliver_event, answer_request, give_reply, deliver_request, state_changed, deliver_state,
  dispatch, next_of, delivery_round,
}
use zmf.Dispatcher.Delivery.Rounds.{call_all, deliver_event_lem}
use zmf.Dispatcher.Delivery.Steady.{IsHandled, IsReady}

module _ {M U : Type 0} (svc : MessagingService M) (code : ModuleCode U) where
  -- The messaging service once it has the answer to a request; it does not change where it throws.
  abbrev pub with_answer : ExternalRequestIdentity → Option ZmfOutReply → M → M
  with_answer id none m = m
  with_answer id (some (immediate_reply reply)) m = elim (svc.send_reply id reply m) [
    | none ↦ m
    | some m' ↦ m'
  ]
  with_answer id (some future_reply) m = svc.inject_reply id m
  with_answer id (some no_reply) m = m

  -- The state of the module and the messaging service when an enabled module has got the
  -- notifications, in the order in which they are announced: of an event each subscription whose
  -- topic contains its topic, of a request its handler, whose answer goes to the service, and of a
  -- state change its handler.
  pub replay :
      List SubscriptionHandle
      → List DeliveryMethod
      → List EventNotification
      → List RequestNotification
      → List StateNotification
      → U
      → M
      → U × M
  replay subs [] es rs ss u m = (u, m)
  replay subs (delivery_event ∷ ms) [] rs ss u m = (u, m)
  replay subs (delivery_event ∷ ms) (n ∷ es) rs ss u m =
      replay subs ms es rs ss (call_all code n subs u) m
  replay subs (delivery_request ∷ ms) es [] ss u m = (u, m)
  replay subs (delivery_request ∷ ms) es (n ∷ rs) ss u m =
      replay subs ms es rs ss (code.handle_request n.message n.peer_identity u).1
        (with_answer n.message_id (code.handle_request n.message n.peer_identity u).0 m)
  replay subs (delivery_state ∷ ms) es rs [] u m = (u, m)
  replay subs (delivery_state ∷ ms) es rs (n ∷ ss) u m =
      replay subs ms es rs ss
        (code.handle_state_change n.module_handle n.new_state n.last_state u).1 m

  -- The same, of what waits in a dispatcher.
  abbrev pub outcome : Dispatcher M U → U × M
  outcome d =
      replay (values d.subscriptions) d.meta_queue d.event_queue d.request_queue d.state_queue
        d.module_state d.msg_service

  pub outcome-empty :
      (d : Dispatcher M U) → d.meta_queue ≡ [] → outcome d ≡ (d.module_state, d.msg_service)
  unfolding replay
  outcome-empty d e = simp e

  -- The dispatcher once it has with_answer a request.
  abbrev after_reply :
      ExternalRequestIdentity → Option ZmfOutReply × U → Dispatcher M U → Dispatcher M U
  after_reply id r d = record d {
    module_state = r.1;
    module_locked = false;
    msg_service = with_answer id r.0 d.msg_service;
  }

  answer_request-after_reply :
      (id : ExternalRequestIdentity) (r : Option ZmfOutReply × U) (d : Dispatcher M U)
      → answer_request svc code id r d ≡ after_reply id r d
  unfolding answer_request give_reply
  answer_request-after_reply id (none, u) d = refl
  answer_request-after_reply id (some future_reply, u) d = refl
  answer_request-after_reply id (some no_reply, u) d = refl
  answer_request-after_reply id (some (immediate_reply reply), u) d =
      elim (Option-cases (svc.send_reply id reply d.msg_service)) [
        | inl e ↦ ground arith
        | inr (m, e) ↦ ground arith
      ]

  event-outcome :
      (q : List EventNotification) (d d' : Dispatcher M U)
      → IsReady d
      → deliver_event svc code q d ≡ goes_on d'
      → outcome d'
        ≡ outcome (record d { meta_queue = delivery_event ∷ d.meta_queue; event_queue = q })
  unfolding replay deliver_event
  event-outcome [] d d' ready p = absurd (ground arith)
  event-outcome (n ∷ rest) d d' ready p =
      let q = deliver_event_lem svc code n rest d ready.1 in
      let there : record d {
        event_queue = rest;
        module_state = call_all code n (values d.subscriptions) d.module_state;
      }
          ≡ d' =
        ground (arith, q) in
      ap outcome (sym there)

  request-outcome :
      (q : List RequestNotification) (d d' : Dispatcher M U)
      → IsReady d
      → deliver_request svc code q d ≡ goes_on d'
      → outcome d'
        ≡ outcome (record d { meta_queue = delivery_request ∷ d.meta_queue; request_queue = q })
  unfolding replay deliver_request
  request-outcome [] d d' ready p = absurd (ground arith)
  request-outcome (n ∷ rest) d d' ready p =
      let r = code.handle_request n.message n.peer_identity d.module_state in
      let there : after_reply n.message_id r
            (record d { request_queue = rest; module_locked = true })
          ≡ d' =
        ground (
          arith,
          answer_request-after_reply n.message_id r
              (record d { request_queue = rest; module_locked = true }),
        ) in
      ap outcome (sym there)

  module _ (handled : IsHandled code) where
    state-outcome :
        (q : List StateNotification) (d d' : Dispatcher M U)
        → IsReady d
        → deliver_state svc code q d ≡ goes_on d'
        → outcome d'
          ≡ outcome (record d { meta_queue = delivery_state ∷ d.meta_queue; state_queue = q })
    unfolding replay deliver_state state_changed
    state-outcome [] d d' ready p = absurd (ground arith)
    state-outcome (n ∷ rest) d d' ready p =
        let r = code.handle_state_change n.module_handle n.new_state n.last_state d.module_state in
        let fine = handled n.module_handle n.new_state n.last_state d.module_state in
        let there : record d { state_queue = rest; module_state = r.1; module_locked = false }
            ≡ d' =
          ground arith in
        ap outcome (sym there)

    next_of-outcome :
        (ms : List DeliveryMethod) (d d' : Dispatcher M U)
        → IsReady d
        → next_of svc code ms d ≡ goes_on d'
        → outcome d' ≡ outcome (record d { meta_queue = ms })
    unfolding next_of dispatch
    next_of-outcome [] d d' ready p = absurd (ground arith)
    next_of-outcome (delivery_event ∷ ms) d d' ready p =
        event-outcome d.event_queue (record d { meta_queue = ms }) d' ready p
    next_of-outcome (delivery_request ∷ ms) d d' ready p =
        request-outcome d.request_queue (record d { meta_queue = ms }) d' ready p
    next_of-outcome (delivery_state ∷ ms) d d' ready p =
        state-outcome d.state_queue (record d { meta_queue = ms }) d' ready p

    -- A round of an enabled module changes nothing in what all that waits comes to.
    pub delivery_round-outcome :
        (d d' : Dispatcher M U)
        → d.alive ≡ true
        → IsReady d
        → delivery_round svc code d ≡ goes_on d'
        → outcome d' ≡ outcome d
    unfolding delivery_round
    delivery_round-outcome d d' on ready p = next_of-outcome d.meta_queue d d' ready (ground arith)
