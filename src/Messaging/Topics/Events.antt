-- ===== src/Messaging/Topics/Events.antt =====
-- An event from the publisher to a subscriber.
use zmf.Prelude.{◌^◌, ◌≡◌, ◌<◌, refl, true, some, List, [], ◌∷◌, Bytes, length, arith}
use zmf.Data.UniqueId.{ModuleUniqueId}
use zmf.Data.MessageType.{of_bytes, check_size}
use zmf.Data.Message.{ZmfMessage}
use zmf.Messaging.State.{Wire, IsWire, Host, Messaging, sender_of}
use zmf.Messaging.Topics.{publish, handle_sub_in}
use zmf.Messaging.Poller.{zmq_service, poll_sub}
use zmf.Dispatcher.State.{Dispatcher}
use zmf.Dispatcher.Incoming.{on_sub_msg_received}

poll_sub-handle_sub_in :
    {U : Type 0} (w : Wire) (host : Host) (event : List Bytes) (msg : ZmfMessage)
    (id : ModuleUniqueId) (d : Dispatcher Messaging U)
    → handle_sub_in w event ≡ some (msg, id)
    → poll_sub w host event d ≡ some (on_sub_msg_received (zmq_service w host) msg id d)
unfolding poll_sub
poll_sub-handle_sub_in w host event msg id d e = rw (poll_sub, e) refl

-- A service that is alive publishes one message for an event, and a subscriber that receives it
-- hands the same event to its core, with the id of the publisher: the poller of a dispatcher ends
-- its round with what `onSubMsgReceived` does on that event. The match must be short enough to be
-- constructed again and the id in the range of its types.
pub publish_roundtrip :
    {U : Type 0} (w : Wire) (host : Host) (msg : ZmfMessage) (m : Messaging)
    (d : Dispatcher Messaging U)
    → IsWire w
    → m.alive ≡ true
    → length msg.type.match < 32
    → m.self.unique_id.type_id < 2 ^ 16
    → m.self.unique_id.instance_id < 2 ^ 64
    → (m' : Messaging) × (event : List Bytes) × (publish w msg m ≡ some m')
      × (m'.published ≡ event ∷ m.published)
      × (handle_sub_in w event ≡ some (msg, m.self.unique_id))
      × (poll_sub w host event d
          ≡ some (on_sub_msg_received (zmq_service w host) msg m.self.unique_id d))
unfolding publish handle_sub_in of_bytes check_size sender_of
publish_roundtrip w host msg m d wire on fits small small' =
    let id = m.self.unique_id in
    let event : List Bytes =
      msg.type.match ∷ w.put_sender id.type_id id.instance_id ∷ msg.payload ∷ [] in
    let read : handle_sub_in w event ≡ some (msg, id) =
      ground (arith, wire.sender id.type_id id.instance_id (omega arith) small') in
    (
      record m { published = event ∷ m.published },
      event,
      ground arith,
      refl,
      read,
      poll_sub-handle_sub_in w host event msg id d read,
    )
