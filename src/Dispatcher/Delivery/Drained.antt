-- ===== src/Dispatcher/Delivery/Drained.antt =====
-- What the delivery thread comes to while nothing new comes in.
use zmf.Prelude.{ℕ, zero, suc, ◌≡◌, refl, sym, subst, ◌∙◌, ap, true, List, [], ◌∷◌, length, arith}
use zmf.Module.{is_enabled}
use zmf.Dispatcher.State.{MessagingService, ModuleCode, Dispatcher}
use zmf.Dispatcher.Control.Calm.{IsCalm}
use zmf.Dispatcher.Steady.{IsSteady, IsSameModule}
use zmf.Dispatcher.Incoming.Balance.{IsBalanced, events_in, requests_in, states_in}
use zmf.Dispatcher.Delivery.{goes_on, waits, delivery_round, delivery_rounds, next_of}
use zmf.Dispatcher.Delivery.Steady.{IsHandled, IsReady, IsSmooth, delivery_round-IsSmooth}
use zmf.Dispatcher.Delivery.Balance.{delivery_round_lem}
use zmf.Dispatcher.Delivery.Replay.{outcome, outcome-empty, delivery_round-outcome}

-- A messaging service of which nothing is known.
abbrev unknown-IsCalm : {M : Type 0} (svc : MessagingService M) → IsCalm svc
unknown-IsCalm svc = record {
  IsUp = λ m. ⊥;
  unsubscribes = λ topic m up. absurd up;
  disables = λ m up. absurd up;
}

unknown-IsSteady : {M : Type 0} (svc : MessagingService M) → IsSteady (unknown-IsCalm svc)
unknown-IsSteady svc = record {
  joins = λ h m m' up p. up;
  leaves = λ h m m' up p. up;
  subscribes = λ topic m m' up p. up;
  publishes = λ msg m m' up p. up;
  requests = λ target msg id m m' up p. up;
  replies = λ id msg m m' up p. up;
  injects = λ id m up. up;
}

-- The queues are empty.
abbrev pub IsEmpty : {M U : Type 0} → Dispatcher M U → Type 0
IsEmpty d =
    (d.meta_queue ≡ []) × (d.event_queue ≡ []) × (d.request_queue ≡ []) × (d.state_queue ≡ [])

nothing_left : {A : Type 0} (xs : List A) → length xs ≡ 0 → xs ≡ []
nothing_left [] e = refl
nothing_left (x ∷ xs) e = absurd (ground arith)

module _ {M U : Type 0} (svc : MessagingService M) (code : ModuleCode U)
    (handled : IsHandled code) where
  round-IsSameModule :
      (d d' : Dispatcher M U)
      → IsReady d
      → delivery_round svc code d ≡ goes_on d'
      → IsSameModule d d'
  round-IsSameModule d d' ready q =
      (subst (IsSmooth svc code (unknown-IsCalm svc) (unknown-IsSteady svc) handled d) q (
        delivery_round-IsSmooth svc code (unknown-IsCalm svc) (unknown-IsSteady svc) handled d
          (λ on. ready))).1

  IsEmpty-of : (d : Dispatcher M U) → IsBalanced d → d.meta_queue ≡ [] → IsEmpty d
  IsEmpty-of d (events, requests, states) e = (
    e,
    nothing_left d.event_queue (sym events ∙ ap events_in e),
    nothing_left d.request_queue (sym requests ∙ ap requests_in e),
    nothing_left d.state_queue (sym states ∙ ap states_in e),
  )

  all_delivered :
      (d : Dispatcher M U) → d.alive ≡ true → d.meta_queue ≡ [] → delivery_round svc code d ≡ waits
  unfolding delivery_round next_of
  all_delivered d on e = ground arith

  -- Where nothing new comes in, the delivery thread of an enabled module delivers all that waits:
  -- after as many rounds as there are announcements every queue is empty, the thread waits for the
  -- next notification, the module is enabled as before and its mutex is free. By then the module has
  -- got each notification once, in the order of the announcements: the callback of every matching
  -- subscription each event, its handlers each request and state change; and the messaging service
  -- has got the answers to the requests, one that it threw at excepted. The queues must agree
  -- with their announcements, the mutex must be free at first, and the module's handler of state
  -- changes must not throw.
  pub delivery_rounds_lem :
      (n : ℕ) (d : Dispatcher M U)
      → IsReady d
      → d.alive ≡ true
      → IsBalanced d
      → length d.meta_queue ≡ n
      → (d' : Dispatcher M U) × (delivery_rounds svc code n d ≡ goes_on d')
        × IsEmpty d'
        × IsSameModule d d'
        × ((d'.module_state, d'.msg_service) ≡ outcome svc code d)
        × (delivery_round svc code d' ≡ waits)
  unfolding delivery_rounds
  delivery_rounds_lem zero d ready on balanced e =
      let empty = IsEmpty-of d balanced (nothing_left d.meta_queue e) in
      (
        d,
        refl,
        empty,
        (refl, refl, refl),
        sym (outcome-empty svc code d empty.0),
        all_delivered d on empty.0,
      )
  delivery_rounds_lem (suc n) d ready on balanced e =
      let (d1, q, balanced1, shorter) = delivery_round_lem svc code d balanced on ready.1 e in
      let same = round-IsSameModule d d1 ready q in
      let (d2, r, empty, same2, got, idle) =
        delivery_rounds_lem n d1 (ap is_enabled same.0 ∙ ready.0, same.2 ∙ ready.1) (same.1 ∙ on)
          balanced1 shorter in
      (
        d2,
        ground arith,
        empty,
        (same2.0 ∙ same.0, same2.1 ∙ same.1, same2.2 ∙ same.2),
        got ∙ delivery_round-outcome svc code handled d d1 on ready q,
        idle,
      )
