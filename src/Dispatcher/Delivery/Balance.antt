-- ===== src/Dispatcher/Delivery/Balance.antt =====
-- The meta queue and the three queues that it announces, as the delivery thread empties them.
use zmf.Prelude.{
  ℕ, suc, ◌≡◌, refl, sym, Bool, true, false, Option, none, some, List, [], ◌∷◌, length, arith,
  Bool-cases, Option-cases, inl, inr,
}
use zmf.Data.UniqueId.Order.{number_key}
use zmf.Data.Reply.{ZmfOutReply, immediate_reply, future_reply, no_reply}
use zmf.Data.RequestIdentity.{ExternalRequestIdentity}
use zmf.Module.{is_enabled}
use zmf.Dispatcher.State.{
  MessagingService, ModuleCode, DeliveryMethod, delivery_event, delivery_request, delivery_state,
  EventNotification, RequestNotification, StateNotification, Dispatcher,
}
use zmf.Dispatcher.Delivery.{
  goes_on, deliver_event, answer_request, give_reply, deliver_request, state_changed, deliver_state,
  dispatch, next_of, delivery_round,
}
use zmf.Dispatcher.Delivery.Rounds.{deliver_event_lem}
use zmf.Dispatcher.Incoming.Balance.{IsBalanced, events_in, requests_in, states_in}

abbrev SameQueues : {M U : Type 0} → Dispatcher M U → Dispatcher M U → Type 0
SameQueues d' d =
    (d'.meta_queue ≡ d.meta_queue)
    × (d'.event_queue ≡ d.event_queue)
    × (d'.request_queue ≡ d.request_queue)
    × (d'.state_queue ≡ d.state_queue)

module _ {M U : Type 0} (svc : MessagingService M) (code : ModuleCode U) where
  event_delivered :
      (q : List EventNotification) (d : Dispatcher M U) {k : ℕ}
      → d.module_locked ≡ false
      → length q ≡ suc k
      → (d' : Dispatcher M U) × (deliver_event svc code q d ≡ goes_on d')
        × (d'.meta_queue ≡ d.meta_queue)
        × (length d'.event_queue ≡ k)
        × (d'.request_queue ≡ d.request_queue)
        × (d'.state_queue ≡ d.state_queue)
  event_delivered [] d free e = absurd (omega arith)
  event_delivered (n ∷ rest) d free e =
      (_, deliver_event_lem svc code n rest d free, refl, ground arith, refl, refl)

  give_reply-queues :
      (id : ExternalRequestIdentity) (reply : ZmfOutReply) (d : Dispatcher M U)
      → SameQueues (give_reply svc code id reply d) d
  unfolding give_reply
  give_reply-queues id (immediate_reply reply) d =
      elim (Option-cases (svc.send_reply id reply d.msg_service)) [
        | inl e ↦ ground arith
        | inr (m, e) ↦ ground arith
      ]
  give_reply-queues id future_reply d = (refl, refl, refl, refl)
  give_reply-queues id no_reply d = (refl, refl, refl, refl)

  answer_request-queues :
      (id : ExternalRequestIdentity) (answer : Option ZmfOutReply × U) (d : Dispatcher M U)
      → SameQueues (answer_request svc code id answer d) d
  unfolding answer_request
  answer_request-queues id (some reply, u) d = give_reply-queues id reply _
  answer_request-queues id (none, u) d = (refl, refl, refl, refl)

  request_delivered :
      (q : List RequestNotification) (d : Dispatcher M U) {k : ℕ}
      → d.module_locked ≡ false
      → length q ≡ suc k
      → (d' : Dispatcher M U) × (deliver_request svc code q d ≡ goes_on d')
        × (d'.meta_queue ≡ d.meta_queue)
        × (d'.event_queue ≡ d.event_queue)
        × (length d'.request_queue ≡ k)
        × (d'.state_queue ≡ d.state_queue)
  unfolding deliver_request
  request_delivered [] d free e = absurd (omega arith)
  request_delivered (n ∷ rest) d free e = elim (Bool-cases (is_enabled d.activity)) [
    | inr off ↦ (
      record d { request_queue = rest; module_locked = true },
      ground arith,
      refl,
      refl,
      ground arith,
      refl,
    )
    | inl on ↦
        let r =
          answer_request-queues n.message_id
            (code.handle_request n.message n.peer_identity d.module_state)
            (record d { request_queue = rest; module_locked = true }) in
        (
          answer_request svc code n.message_id
              (code.handle_request n.message n.peer_identity d.module_state)
              (record d { request_queue = rest; module_locked = true }),
          ground arith,
          r.0,
          r.1,
          ground arith,
          r.3,
        )
  ]

  state_changed-queues :
      (r : Bool × U) (d : Dispatcher M U) → SameQueues (state_changed svc code r d) d
  unfolding state_changed
  state_changed-queues (true, u) d = (refl, refl, refl, refl)
  state_changed-queues (false, u) d = (refl, refl, refl, refl)

  state_delivered :
      (q : List StateNotification) (d : Dispatcher M U) {k : ℕ}
      → d.module_locked ≡ false
      → length q ≡ suc k
      → (d' : Dispatcher M U) × (deliver_state svc code q d ≡ goes_on d')
        × (d'.meta_queue ≡ d.meta_queue)
        × (d'.event_queue ≡ d.event_queue)
        × (d'.request_queue ≡ d.request_queue)
        × (length d'.state_queue ≡ k)
  unfolding deliver_state
  state_delivered [] d free e = absurd (omega arith)
  state_delivered (n ∷ rest) d free e = elim (Bool-cases (is_enabled d.activity)) [
    | inr off ↦ (record d { state_queue = rest }, ground arith, refl, refl, refl, ground arith)
    | inl on ↦
        let r =
          state_changed-queues
            (code.handle_state_change n.module_handle n.new_state n.last_state d.module_state)
            (record d { state_queue = rest }) in
        (
          state_changed svc code
              (code.handle_state_change n.module_handle n.new_state n.last_state d.module_state)
              (record d { state_queue = rest }),
          ground arith,
          r.0,
          r.1,
          r.2,
          ground arith,
        )
  ]

  next_of_lem :
      (ms : List DeliveryMethod) (d : Dispatcher M U) {k : ℕ}
      → d.module_locked ≡ false
      → length ms ≡ suc k
      → events_in ms ≡ length d.event_queue
      → requests_in ms ≡ length d.request_queue
      → states_in ms ≡ length d.state_queue
      → (d' : Dispatcher M U) × (next_of svc code ms d ≡ goes_on d')
        × IsBalanced d'
        × (length d'.meta_queue ≡ k)
  unfolding next_of dispatch
  next_of_lem [] d free e b_e b_r b_s = absurd (omega arith)
  next_of_lem (delivery_event ∷ ms) d free e b_e b_r b_s =
      let r = event_delivered d.event_queue (record d { meta_queue = ms }) free (sym b_e) in
      (r.0, r.1, ground arith, ground arith)
  next_of_lem (delivery_request ∷ ms) d free e b_e b_r b_s =
      let r = request_delivered d.request_queue (record d { meta_queue = ms }) free (sym b_r) in
      (r.0, r.1, ground arith, ground arith)
  next_of_lem (delivery_state ∷ ms) d free e b_e b_r b_s =
      let r = state_delivered d.state_queue (record d { meta_queue = ms }) free (sym b_s) in
      (r.0, r.1, ground arith, ground arith)

  -- While the dispatcher is alive and the module's mutex is free, a round of the delivery thread
  -- that finds an announcement neither waits for a notification nor for the mutex: it goes on with
  -- one announcement less, and the announcements that are left still agree with what waits.
  pub delivery_round_lem :
      (d : Dispatcher M U) {k : ℕ}
      → IsBalanced d
      → d.alive ≡ true
      → d.module_locked ≡ false
      → length d.meta_queue ≡ suc k
      → (d' : Dispatcher M U) × (delivery_round svc code d ≡ goes_on d')
        × IsBalanced d'
        × (length d'.meta_queue ≡ k)
  unfolding delivery_round
  delivery_round_lem d b on free e =
      let r = next_of_lem d.meta_queue d free e b.0 b.1 b.2 in (r.0, ground arith, r.2, r.3)
