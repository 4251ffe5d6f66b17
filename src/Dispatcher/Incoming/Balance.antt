-- ===== src/Dispatcher/Incoming/Balance.antt =====
-- The meta queue and the three queues that it announces, as messages and state changes come in.
use zmf.Prelude.{ℕ, suc, ◌≡◌, refl, List, [], ◌∷◌, ◌++◌, length, length-append, arith}
use zmf.Data.UniqueId.{ModuleUniqueId}
use zmf.Data.UniqueId.Order.{number_key}
use zmf.Data.Handle.{ModuleHandle, ModuleState}
use zmf.Data.Message.{ZmfMessage}
use zmf.Data.RequestIdentity.{ExternalRequestIdentity}
use zmf.Dispatcher.State.{
  MessagingService, DeliveryMethod, delivery_event, delivery_request, delivery_state, Dispatcher,
}
use zmf.Dispatcher.Incoming.{
  on_sub_msg_received, on_request_msg_received, on_peer_change, handle_system_message,
}

-- How many events, requests and state changes the meta queue announces.
abbrev pub events_in : List DeliveryMethod → ℕ
events_in [] = 0
events_in (delivery_event ∷ ms) = suc (events_in ms)
events_in (delivery_request ∷ ms) = events_in ms
events_in (delivery_state ∷ ms) = events_in ms

abbrev pub requests_in : List DeliveryMethod → ℕ
requests_in [] = 0
requests_in (delivery_event ∷ ms) = requests_in ms
requests_in (delivery_request ∷ ms) = suc (requests_in ms)
requests_in (delivery_state ∷ ms) = requests_in ms

abbrev pub states_in : List DeliveryMethod → ℕ
states_in [] = 0
states_in (delivery_event ∷ ms) = states_in ms
states_in (delivery_request ∷ ms) = states_in ms
states_in (delivery_state ∷ ms) = suc (states_in ms)

-- Each announcement of the meta queue has its notification, and the other way round.
abbrev pub IsBalanced : {M U : Type 0} → Dispatcher M U → Type 0
IsBalanced d =
    (events_in d.meta_queue ≡ length d.event_queue)
    × (requests_in d.meta_queue ≡ length d.request_queue)
    × (states_in d.meta_queue ≡ length d.state_queue)

announce_event :
    (ms : List DeliveryMethod)
    → (events_in (ms ++ delivery_event ∷ []) ≡ suc (events_in ms))
      × (requests_in (ms ++ delivery_event ∷ []) ≡ requests_in ms)
      × (states_in (ms ++ delivery_event ∷ []) ≡ states_in ms)
announce_event [] = (refl, refl, refl)
announce_event (delivery_event ∷ ms) = ground (arith, announce_event ms)
announce_event (delivery_request ∷ ms) = ground (arith, announce_event ms)
announce_event (delivery_state ∷ ms) = ground (arith, announce_event ms)

length-last {ℓ} : {A : Type ℓ} (xs : List A) (x : A) → length (xs ++ x ∷ []) ≡ suc (length xs)
length-last xs x = ground (arith, length-append xs (x ∷ []))

module _ {M U : Type 0} (svc : MessagingService M) where
  handle_system_message-IsBalanced :
      (id : ExternalRequestIdentity) (message : ZmfMessage) (d : Dispatcher M U)
      → IsBalanced d
      → IsBalanced (handle_system_message svc id message d).1
  unfolding handle_system_message
  handle_system_message-IsBalanced id message d b = ground arith

  on_sub_msg_received-IsBalanced :
      (message : ZmfMessage) (sender : ModuleUniqueId) (d : Dispatcher M U)
      → IsBalanced d
      → IsBalanced (on_sub_msg_received svc message sender d)
  unfolding on_sub_msg_received
  on_sub_msg_received-IsBalanced message sender d b = ground (
    arith,
    announce_event d.meta_queue,
    length-last d.event_queue (record { message = message; peer_identity = sender }),
  )

  on_request_msg_received-IsBalanced :
      (id : ExternalRequestIdentity) (message : ZmfMessage) (sender : ModuleUniqueId)
      (d : Dispatcher M U)
      → IsBalanced d
      → IsBalanced (on_request_msg_received svc id message sender d).1
  unfolding on_request_msg_received
  on_request_msg_received-IsBalanced id message sender d b = ground (
    arith,
    handle_system_message-IsBalanced id message d b,
    length-last d.request_queue
        (record { message = message; peer_identity = sender; message_id = id }),
  )

  on_peer_change-IsBalanced :
      (h : ModuleHandle) (new_state last_state : ModuleState) (d : Dispatcher M U)
      → IsBalanced d
      → IsBalanced (on_peer_change svc h new_state last_state d).1
  unfolding on_peer_change
  on_peer_change-IsBalanced h new_state last_state d b = ground (
    arith,
    length-last d.state_queue
        (record { module_handle = h; new_state = new_state; last_state = last_state }),
  )

  -- Whatever the messaging service and the discovery service hand in, the announcements of the meta
  -- queue still agree with the events, the requests and the state changes that wait.
  pub incoming-IsBalanced :
      (message : ZmfMessage) (sender : ModuleUniqueId) (id : ExternalRequestIdentity)
      (h : ModuleHandle) (new_state last_state : ModuleState) (d : Dispatcher M U)
      → IsBalanced d
      → IsBalanced (on_sub_msg_received svc message sender d)
        × IsBalanced (on_request_msg_received svc id message sender d).1
        × IsBalanced (on_peer_change svc h new_state last_state d).1
  incoming-IsBalanced message sender id h new_state last_state d b = (
    on_sub_msg_received-IsBalanced message sender d b,
    on_request_msg_received-IsBalanced id message sender d b,
    on_peer_change-IsBalanced h new_state last_state d b,
  )
