-- ===== src/Dispatcher/Steady.antt =====
-- What the calls of the dispatcher leave as it is while the messaging service stays up.
use zmf.Prelude.{ℕ, ◌≡◌, sym, subst, some, arith, Bool-cases, Option-cases, inl, inr}
use zmf.Data.UniqueId.{ModuleUniqueId}
use zmf.Data.UniqueId.Order.{number_key}
use zmf.Data.Handle.{ModuleHandle, ModuleState, dead, state_eq}
use zmf.Data.RequestIdentity.{ExternalRequestIdentity}
use zmf.Data.MessageType.{MessageType, contains_topic}
use zmf.Data.Message.{ZmfMessage}
use zmf.Dispatcher.State.{MessagingService, Dispatcher, SubscriptionHandle}
use zmf.Dispatcher.Control.{subscribe, unsubscribe, publish, send_request}
use zmf.Dispatcher.Control.Calm.{IsCalm}
use zmf.Dispatcher.Incoming.{
  tell_service, on_sub_msg_received, handle_system_message, on_request_msg_received, on_peer_change,
  system_request, system_reply, system_answer, control_request,
}

-- A messaging service that is up after a call where it was up before.
pub record IsSteady {M : Type 0} {svc : MessagingService M} (calm : IsCalm svc) : Type 0 where
  pub joins :
      (h : ModuleHandle) (m m' : M) → calm.IsUp m → svc.peer_join h m ≡ some m' → calm.IsUp m'
  pub leaves :
      (h : ModuleHandle) (m m' : M) → calm.IsUp m → svc.peer_leave h m ≡ some m' → calm.IsUp m'
  pub subscribes :
      (topic : MessageType) (m m' : M)
      → calm.IsUp m
      → svc.subscribe_topic topic m ≡ some m'
      → calm.IsUp m'
  pub publishes :
      (msg : ZmfMessage) (m m' : M)
      → calm.IsUp m
      → svc.publish_message msg m ≡ some m'
      → calm.IsUp m'
  pub requests :
      (target : ModuleUniqueId) (msg : ZmfMessage) (id : ℕ) (m m' : M)
      → calm.IsUp m
      → svc.send_request_to target msg m ≡ some (id, m')
      → calm.IsUp m'
  pub replies :
      (id : ExternalRequestIdentity) (msg : ZmfMessage) (m m' : M)
      → calm.IsUp m
      → svc.send_reply id msg m ≡ some m'
      → calm.IsUp m'
  pub injects :
      (id : ExternalRequestIdentity) (m : M) → calm.IsUp m → calm.IsUp (svc.inject_reply id m)

-- The module is enabled as it was, the delivery thread runs as it did, and the mutex is as it was.
abbrev pub IsSameModule : {M U : Type 0} → Dispatcher M U → Dispatcher M U → Type 0
IsSameModule e e' =
    (e'.activity ≡ e.activity) × (e'.alive ≡ e.alive) × (e'.module_locked ≡ e.module_locked)

tell_service-up :
    {M : Type 0} (svc : MessagingService M) (calm : IsCalm svc) (steady : IsSteady calm)
    (h : ModuleHandle) (new_state last_state : ModuleState) (m m' : M)
    → calm.IsUp m
    → tell_service svc h new_state last_state m ≡ some m'
    → calm.IsUp m'
unfolding tell_service
tell_service-up svc calm steady h new_state last_state m m' up p =
    elim (Bool-cases (state_eq last_state dead)) [
      | inl new ↦ steady.joins h m m' up (ground arith)
      | inr old ↦ elim (Bool-cases (state_eq new_state dead)) [
        | inl gone ↦ steady.leaves h m m' up (ground arith)
        | inr there ↦ let q : m ≡ m' = ground arith in subst calm.IsUp q up
      ]
    ]

module _ {M U : Type 0} (svc : MessagingService M) (calm : IsCalm svc) where
  -- The module is the same, and the messaging service is up if it was.
  abbrev pub IsTame : Dispatcher M U → Dispatcher M U → Type 0
  IsTame e e' = (calm.IsUp e.msg_service → calm.IsUp e'.msg_service) × IsSameModule e e'

  pub unmoved :
      (e e' : Dispatcher M U) → e'.msg_service ≡ e.msg_service → IsSameModule e e' → IsTame e e'
  unmoved e e' p same = (λ up. subst calm.IsUp (sym p) up, same)

  pub moved :
      (e e' : Dispatcher M U) (m : M)
      → (calm.IsUp e.msg_service → calm.IsUp m)
      → e'.msg_service ≡ m
      → IsSameModule e e'
      → IsTame e e'
  moved e e' m f p same = (λ up. subst calm.IsUp (sym p) (f up), same)

  pub on_sub_msg_received-IsTame :
      (message : ZmfMessage) (sender : ModuleUniqueId) (e : Dispatcher M U)
      → IsTame e (on_sub_msg_received svc message sender e)
  unfolding on_sub_msg_received
  on_sub_msg_received-IsTame message sender e =
      unmoved e (on_sub_msg_received svc message sender e) (ground arith) (ground arith)

  module _ (steady : IsSteady calm) where
    pub subscribe-IsTame :
        (topic : MessageType) (callback_id : ℕ) (e : Dispatcher M U)
        → IsTame e (subscribe svc topic callback_id e).1
    unfolding subscribe
    subscribe-IsTame topic callback_id e = elim (Bool-cases e.alive) [
      | inr off ↦ unmoved e (subscribe svc topic callback_id e).1 (ground arith) (ground arith)
      | inl on ↦ elim (Option-cases (svc.subscribe_topic topic e.msg_service)) [
        | inl p ↦ unmoved e (subscribe svc topic callback_id e).1 (ground arith) (ground arith)
        | inr (m, p) ↦
            moved e (subscribe svc topic callback_id e).1 m
              (λ up. steady.subscribes topic e.msg_service m up p) (ground arith) (ground arith)
      ]
    ]

    pub publish-IsTame : (msg : ZmfMessage) (e : Dispatcher M U) → IsTame e (publish svc msg e).1
    unfolding publish
    publish-IsTame msg e = elim (Bool-cases e.alive) [
      | inr off ↦ unmoved e (publish svc msg e).1 (ground arith) (ground arith)
      | inl on ↦ elim (Option-cases (svc.publish_message msg e.msg_service)) [
        | inl p ↦ unmoved e (publish svc msg e).1 (ground arith) (ground arith)
        | inr (m, p) ↦
            moved e (publish svc msg e).1 m (λ up. steady.publishes msg e.msg_service m up p)
              (ground arith) (ground arith)
      ]
    ]

    pub send_request-IsTame :
        (target : ModuleUniqueId) (msg : ZmfMessage) (e : Dispatcher M U)
        → IsTame e (send_request svc target msg e).1
    unfolding send_request
    send_request-IsTame target msg e = elim (Bool-cases e.alive) [
      | inr off ↦ unmoved e (send_request svc target msg e).1 (ground arith) (ground arith)
      | inl on ↦ elim (Option-cases (svc.send_request_to target msg e.msg_service)) [
        | inl p ↦ unmoved e (send_request svc target msg e).1 (ground arith) (ground arith)
        | inr ((id, m), p) ↦
            moved e (send_request svc target msg e).1 m
              (λ up. steady.requests target msg id e.msg_service m up p) (ground arith)
              (ground arith)
      ]
    ]

    pub unsubscribe-IsTame :
        (handle : SubscriptionHandle) (e : Dispatcher M U)
        → calm.IsUp e.msg_service
        → IsTame e (unsubscribe svc handle e).1
    unfolding unsubscribe
    unsubscribe-IsTame handle e up =
        let (m, p, up') = calm.unsubscribes handle.topic e.msg_service up in
        elim (Bool-cases e.alive) [
          | inr off ↦ unmoved e (unsubscribe svc handle e).1 (ground arith) (ground arith)
          | inl on ↦ moved e (unsubscribe svc handle e).1 m (λ u. up') (ground arith) (ground arith)
        ]

    handle_system_message-IsTame :
        (id : ExternalRequestIdentity) (message : ZmfMessage) (e : Dispatcher M U)
        → IsTame e (handle_system_message svc id message e).1
    unfolding handle_system_message
    handle_system_message-IsTame id message e =
        let reply : ZmfMessage = record {
          type = system_reply;
          payload = system_answer (control_request message.payload);
        } in
        elim (Option-cases (svc.send_reply id reply e.msg_service)) [
          | inl p ↦
              unmoved e (handle_system_message svc id message e).1 (ground arith) (ground arith)
          | inr (m, p) ↦
              moved e (handle_system_message svc id message e).1 m
                (λ up. steady.replies id reply e.msg_service m up p) (ground arith) (ground arith)
        ]

    pub on_request_msg_received-IsTame :
        (id : ExternalRequestIdentity) (message : ZmfMessage) (sender : ModuleUniqueId)
        (e : Dispatcher M U)
        → IsTame e (on_request_msg_received svc id message sender e).1
    unfolding on_request_msg_received
    on_request_msg_received-IsTame id message sender e =
        elim (Bool-cases (contains_topic system_request message.type)) [
          | inl asks ↦ rw asks (handle_system_message-IsTame id message e)
          | inr plain ↦
              unmoved e (on_request_msg_received svc id message sender e).1 (ground arith)
                (ground arith)
        ]

    pub on_peer_change-IsTame :
        (h : ModuleHandle) (new_state last_state : ModuleState) (e : Dispatcher M U)
        → IsTame e (on_peer_change svc h new_state last_state e).1
    unfolding on_peer_change
    on_peer_change-IsTame h new_state last_state e =
        elim (Option-cases (tell_service svc h new_state last_state e.msg_service)) [
          | inl p ↦
              unmoved e (on_peer_change svc h new_state last_state e).1 (ground arith)
                (ground arith)
          | inr (m, p) ↦
              moved e (on_peer_change svc h new_state last_state e).1 m
                (λ up. tell_service-up svc calm steady h new_state last_state e.msg_service m up p)
                (ground arith) (ground arith)
        ]
