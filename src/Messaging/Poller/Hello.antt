-- ===== src/Messaging/Poller/Hello.antt =====
-- A service that connects to a peer makes the peer connect to it.
use zmf.Prelude.{◌≡◌, refl, ◌∙◌, true, false, Bytes, none, some, List, [], ◌∷◌, ◌++◌, arith}
use zmf.Prelude.Map.{same_refl, contains, lookup, put, lookup-put}
use zmf.Data.UniqueId.{ModuleUniqueId}
use zmf.Data.UniqueId.Order.{id_key}
use zmf.Data.Handle.{ModuleHandle}
use zmf.Messaging.State.{Wire, IsWire, Host, Messaging, notify_poller}
use zmf.Messaging.Peers.{
  tcp_address, hello_parts, change_membership, internal_connect, peer_join, handle_hello_received,
}
use zmf.Messaging.Poller.{handle_typed, handle_rep_in}
use zmf.Messaging.Poller.RoundTrip.{IsId, sender_of-put_sender}

module _ (w : Wire) (wire : IsWire w) where
  handle_hello_parts :
      (host : Host) (routing ip : Bytes) (a b : Messaging)
      → IsId a.self.unique_id
      → handle_hello_received w host (routing ∷ hello_parts w ip a) b
        ≡ internal_connect w host a.self.unique_id
            (tcp_address ip a.self.self_zmq_rep_port)
            (tcp_address ip a.self.self_zmq_pub_port)
            b
  unfolding handle_hello_received hello_parts
  handle_hello_parts host routing ip a b own =
      rw (sender_of-put_sender w wire host a.self.unique_id own)

  typed_hello :
      (host : Host) (routing ip : Bytes) (a b b' : Messaging)
      → handle_hello_received w host (routing ∷ hello_parts w ip a) b ≡ some b'
      → handle_rep_in w host (routing ∷ hello_parts w ip a) b ≡ some (none, b')
  unfolding handle_rep_in handle_typed hello_parts
  typed_hello host routing ip a b b' e = ground (arith, wire.octet 2 (omega arith))

  -- A new connection; the parts are what the peer is told.
  connects_to :
      (host : Host) (identity : ModuleUniqueId) (rep_addr pub_addr ip : Bytes) (m : Messaging)
      → contains identity m.sockets_req ≡ false
      → host.connects rep_addr ≡ true
      → host.own_ip ≡ some ip
      → (m' : Messaging) × (internal_connect w host identity rep_addr pub_addr m ≡ some m')
        × (m'.outbox ≡ (rep_addr, hello_parts w ip m) ∷ m.outbox)
        × (lookup identity m'.sockets_req ≡ some rep_addr)
        × (m'.membership_changes ≡ m.membership_changes ++ (pub_addr, true) ∷ [])
  unfolding internal_connect notify_poller
  connects_to host identity rep_addr pub_addr ip m new takes own = (
    change_membership pub_addr true (record m {
      outbox = (rep_addr, hello_parts w ip m) ∷ m.outbox;
      sockets_req = put identity rep_addr m.sockets_req;
    }),
    ground arith,
    refl,
    ground (arith, lookup-put identity identity rep_addr m.sockets_req, same_refl identity),
    refl,
  )

  -- A service that a new peer joins sends it one hello. The peer, when it does not know the service
  -- yet, connects to the address of the service's reply socket and is to connect its subscriber
  -- socket to that of the publisher socket, so that each of the two knows the other. The service
  -- must be alive, both hosts must have an address and take the connection, and the id must be in
  -- the range of its types.
  pub hello_roundtrip :
      (host host' : Host) (h : ModuleHandle) (ip ip' routing : Bytes) (a b : Messaging)
      → IsId a.self.unique_id
      → a.alive ≡ true
      → contains h.unique_id a.sockets_req ≡ false
      → contains a.self.unique_id b.sockets_req ≡ false
      → host.connects h.zmq_rep_addr ≡ true
      → host'.connects (tcp_address ip a.self.self_zmq_rep_port) ≡ true
      → host.own_ip ≡ some ip
      → host'.own_ip ≡ some ip'
      → let rep_addr = tcp_address ip a.self.self_zmq_rep_port in
        let pub_addr = tcp_address ip a.self.self_zmq_pub_port in
        (a' b' : Messaging) × (hello : List Bytes) × (peer_join w host h a ≡ some a')
        × (a'.outbox ≡ (h.zmq_rep_addr, hello) ∷ a.outbox)
        × (lookup h.unique_id a'.sockets_req ≡ some h.zmq_rep_addr)
        × (handle_rep_in w host' (routing ∷ hello) b ≡ some (none, b'))
        × (lookup a.self.unique_id b'.sockets_req ≡ some rep_addr)
        × (b'.membership_changes ≡ b.membership_changes ++ (pub_addr, true) ∷ [])
  unfolding peer_join
  hello_roundtrip host host' h ip ip' routing a b own on new new' takes takes' addr addr' =
      let rep_addr = tcp_address ip a.self.self_zmq_rep_port in
      let pub_addr = tcp_address ip a.self.self_zmq_pub_port in
      let (a', e, out, known, queued) =
        connects_to host h.unique_id h.zmq_rep_addr h.zmq_pub_addr ip a new takes addr in
      let (b', e', out', known', queued') =
        connects_to host' a.self.unique_id rep_addr pub_addr ip' b new' takes' addr' in
      (
        a',
        b',
        hello_parts w ip a,
        ground arith,
        out,
        known,
        typed_hello host' routing ip a b b' (handle_hello_parts host' routing ip a b own ∙ e'),
        known',
        queued',
      )
