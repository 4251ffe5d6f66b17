-- ===== src/Dispatcher/Incoming/Bounds.antt =====
-- The bound on the events that wait (ZMF_INMSG_BUFFER_SIZE).
use zmf.Prelude.{
  ℕ, ◌≡◌, ◌≤◌, ◌<◌, true, [], ◌∷◌, ◌++◌, length, length-append, ltb, leb, arith, Bool-cases, inl,
  inr, if◌then◌else◌,
}
use zmf.Prelude.Int.{pos}
use zmf.Data.UniqueId.{ModuleUniqueId}
use zmf.Data.Message.{ZmfMessage}
use zmf.Dispatcher.State.{MessagingService, Dispatcher, EventNotification}
use zmf.Dispatcher.Incoming.{check_queue_size_event_insert, on_sub_msg_received}

module _ {M U : Type 0} (svc : MessagingService M) where
  full_iff :
      (d : Dispatcher M U) (n : ℕ)
      → d.inmsg_buffer_size ≡ pos n
      → 0 < n
      → check_queue_size_event_insert svc d ≡ leb n (length d.event_queue)
  unfolding check_queue_size_event_insert
  full_iff d n size h = rw size (ground arith)

  -- Where a buffer size is configured and no more events wait than it says, an event that comes in
  -- while the dispatcher is alive is put behind the others exactly if fewer wait than the buffer
  -- size, and is dropped otherwise; afterwards still no more events wait than the buffer size.
  pub on_sub_msg_received_lem :
      (message : ZmfMessage) (sender : ModuleUniqueId) (d : Dispatcher M U) (n : ℕ)
      → d.alive ≡ true
      → d.inmsg_buffer_size ≡ pos n
      → 0 < n
      → length d.event_queue ≤ n
      → let d' = on_sub_msg_received svc message sender d in
        (d'.event_queue ≡ (
          if ltb (length d.event_queue) n
          then d.event_queue ++ record { message = message; peer_identity = sender } ∷ []
          else d.event_queue))
        × (length d'.event_queue ≤ n)
  unfolding on_sub_msg_received
  on_sub_msg_received_lem message sender d n on size h bound =
      let k = full_iff d n size h in
      let e : EventNotification = record { message = message; peer_identity = sender } in
      elim (Bool-cases (leb n (length d.event_queue))) [
        | inl full ↦ (ground arith, ground arith)
        | inr room ↦ (ground arith, ground (arith, length-append d.event_queue (e ∷ [])))
      ]
