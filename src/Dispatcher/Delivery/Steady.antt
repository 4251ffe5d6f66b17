-- ===== src/Dispatcher/Delivery/Steady.antt =====
-- A round of the delivery thread, while the module is enabled and its mutex free.
use zmf.Prelude.{
  ◌≡◌, refl, sym, ◌∙◌, subst, true, false, Option, none, some, List, [], ◌∷◌, arith, Bool-cases,
  Option-cases, inl, inr,
}
use zmf.Data.UniqueId.Order.{number_key}
use zmf.Data.Handle.{ModuleHandle, ModuleState}
use zmf.Data.RequestIdentity.{ExternalRequestIdentity}
use zmf.Data.Reply.{ZmfOutReply, immediate_reply, future_reply, no_reply}
use zmf.Module.{is_enabled}
use zmf.Dispatcher.State.{
  MessagingService, ModuleCode, Dispatcher, EventNotification, RequestNotification,
  StateNotification, DeliveryMethod, delivery_event, delivery_request, delivery_state,
}
use zmf.Dispatcher.Control.Calm.{IsCalm}
use zmf.Dispatcher.Steady.{IsSteady, IsTame, unmoved, moved}
use zmf.Dispatcher.Delivery.{
  Progress, goes_on, waits, waits_for_mutex, left, give_reply, answer_request, state_changed,
  deliver_event, deliver_request, deliver_state, dispatch, next_of, delivery_round,
}
use zmf.Dispatcher.Delivery.Rounds.{deliver_event_lem}

-- The module's handler of state changes never throws.
abbrev pub IsHandled : {U : Type 0} → ModuleCode U → Type 0
IsHandled {U} code =
    (h : ModuleHandle) (new_state last_state : ModuleState) (u : U)
    → (code.handle_state_change h new_state last_state u).0 ≡ true

-- The module is enabled and its mutex free.
abbrev pub IsReady : {M U : Type 0} → Dispatcher M U → Type 0
IsReady e = (is_enabled e.activity ≡ true) × (e.module_locked ≡ false)

module _ {M U : Type 0} (svc : MessagingService M) (code : ModuleCode U) (calm : IsCalm svc)
    (steady : IsSteady calm) (handled : IsHandled code) where
  -- The thread does not wait for the mutex, and if it goes on, the dispatcher is as it should be.
  abbrev pub IsSmooth : Dispatcher M U → Progress (Dispatcher M U) → Type 0
  IsSmooth e (goes_on e') = IsTame svc calm e e'
  IsSmooth e waits = Unit
  IsSmooth e waits_for_mutex = ⊥
  IsSmooth e left = Unit

  deliver_event-IsSmooth :
      (ns : List EventNotification) (e : Dispatcher M U)
      → IsReady e
      → IsSmooth e (deliver_event svc code ns e)
  unfolding deliver_event
  deliver_event-IsSmooth [] e ready = tt
  deliver_event-IsSmooth (n ∷ rest) e ready =
      subst (IsSmooth e) (sym (deliver_event_lem svc code n rest e ready.1))
        (λ up. up, (refl, refl, refl))

  give_reply-IsTame :
      (id : ExternalRequestIdentity) (reply : ZmfOutReply) (e : Dispatcher M U)
      → IsTame svc calm e (give_reply svc code id reply e)
  unfolding give_reply
  give_reply-IsTame id (immediate_reply reply) e =
      elim (Option-cases (svc.send_reply id reply e.msg_service)) [
        | inl p ↦
            unmoved svc calm e (give_reply svc code id (immediate_reply reply) e) (ground arith)
              (ground arith)
        | inr (m, p) ↦
            moved svc calm e (give_reply svc code id (immediate_reply reply) e) m
              (λ up. steady.replies id reply e.msg_service m up p) (ground arith) (ground arith)
      ]
  give_reply-IsTame id future_reply e =
      (λ up. steady.injects id e.msg_service up, (refl, refl, refl))
  give_reply-IsTame id no_reply e = (λ up. up, (refl, refl, refl))

  answer_request-IsTame :
      (id : ExternalRequestIdentity) (r : Option ZmfOutReply × U) (e : Dispatcher M U)
      → IsTame svc calm (record e { module_locked = false }) (answer_request svc code id r e)
  unfolding answer_request
  answer_request-IsTame id (some reply, u) e =
      give_reply-IsTame id reply (record e { module_state = u; module_locked = false })
  answer_request-IsTame id (none, u) e = (λ up. up, (refl, refl, refl))

  deliver_request-IsSmooth :
      (ns : List RequestNotification) (e : Dispatcher M U)
      → IsReady e
      → IsSmooth e (deliver_request svc code ns e)
  unfolding deliver_request
  deliver_request-IsSmooth [] e ready = tt
  deliver_request-IsSmooth (n ∷ rest) e ready =
      let r = code.handle_request n.message n.peer_identity e.module_state in
      let locked : Dispatcher M U = record e { request_queue = rest; module_locked = true } in
      let q : deliver_request svc code (n ∷ rest) e
          ≡ goes_on (answer_request svc code n.message_id r locked) =
        ground arith in
      let (up, (activity, alive, free)) = answer_request-IsTame n.message_id r locked in
      subst (IsSmooth e) (sym q) (up, (activity, alive, free ∙ sym ready.1))

  deliver_state-IsSmooth :
      (ns : List StateNotification) (e : Dispatcher M U)
      → IsReady e
      → IsSmooth e (deliver_state svc code ns e)
  unfolding deliver_state state_changed
  deliver_state-IsSmooth [] e ready = tt
  deliver_state-IsSmooth (n ∷ rest) e ready =
      let r = code.handle_state_change n.module_handle n.new_state n.last_state e.module_state in
      let q : deliver_state svc code (n ∷ rest) e
          ≡ goes_on (record e { state_queue = rest; module_state = r.1; module_locked = false }) =
        ground (arith, handled n.module_handle n.new_state n.last_state e.module_state) in
      subst (IsSmooth e) (sym q) (λ up. up, (refl, refl, sym ready.1))

  dispatch-IsSmooth :
      (method : DeliveryMethod) (e : Dispatcher M U)
      → IsReady e
      → IsSmooth e (dispatch svc code method e)
  unfolding dispatch
  dispatch-IsSmooth delivery_event e ready = deliver_event-IsSmooth e.event_queue e ready
  dispatch-IsSmooth delivery_request e ready = deliver_request-IsSmooth e.request_queue e ready
  dispatch-IsSmooth delivery_state e ready = deliver_state-IsSmooth e.state_queue e ready

  -- The meta queue does not matter.
  IsSmooth-behind :
      (rest : List DeliveryMethod) (e : Dispatcher M U) (p : Progress (Dispatcher M U))
      → IsSmooth (record e { meta_queue = rest }) p
      → IsSmooth e p
  IsSmooth-behind rest e (goes_on e') smooth = smooth
  IsSmooth-behind rest e waits smooth = tt
  IsSmooth-behind rest e waits_for_mutex smooth = smooth
  IsSmooth-behind rest e left smooth = tt

  next_of-IsSmooth :
      (methods : List DeliveryMethod) (e : Dispatcher M U)
      → IsReady e
      → IsSmooth e (next_of svc code methods e)
  unfolding next_of
  next_of-IsSmooth [] e ready = tt
  next_of-IsSmooth (method ∷ rest) e ready =
      IsSmooth-behind rest e (dispatch svc code method (record e { meta_queue = rest }))
        (dispatch-IsSmooth method (record e { meta_queue = rest }) ready)

  -- A round, where the thread runs only while the module is enabled and the mutex is free.
  pub delivery_round-IsSmooth :
      (e : Dispatcher M U) → (e.alive ≡ true → IsReady e) → IsSmooth e (delivery_round svc code e)
  unfolding delivery_round
  delivery_round-IsSmooth e ready = elim (Bool-cases e.alive) [
    | inr off ↦
        let q : delivery_round svc code e ≡ left = ground arith in subst (IsSmooth e) (sym q) tt
    | inl on ↦
        let q : delivery_round svc code e ≡ next_of svc code e.meta_queue e = ground arith in
        subst (IsSmooth e) (sym q) (next_of-IsSmooth e.meta_queue e (ready on))
  ]
