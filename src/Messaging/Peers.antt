-- ===== src/Messaging/Peers.antt =====
-- The connections to the peers: peers that join and leave, and the message that says hello.
use zmf.Prelude.{
  ℕ, Bool, true, false, Bytes, codes, Option, none, some, List, [], ◌∷◌, ◌++◌, if◌then◌else◌,
}
use zmf.Prelude.Decimal.{to_string}
use zmf.Prelude.Optional.{◌>>=◌}
use zmf.Prelude.Map.{contains, put, erase}
use zmf.Data.UniqueId.{ModuleUniqueId}
use zmf.Data.UniqueId.Order.{id_key}
use zmf.Data.Handle.{ModuleHandle}
use zmf.Messaging.State.{
  Wire, Host, Messaging, membership_change, message_type_hello, part, own_sender, sender_of,
  notify_poller, check_alive, connect, disconnect,
}

-- A port that has not been set is an indeterminate value; 0 stands for it.
abbrev pub port_or_zero : Option ℕ → ℕ
port_or_zero none = 0
port_or_zero (some port) = port

abbrev pub tcp_address : Bytes → Option ℕ → Bytes
tcp_address ip port = codes "tcp://" ++ (ip ++ (codes ":" ++ to_string (port_or_zero port)))

-- The parts of the hello of internalConnect.
unfoldable pub hello_parts : Wire → Bytes → Messaging → List Bytes
hello_parts w ip m =
    w.put_octet message_type_hello
    ∷ own_sender w m
    ∷ tcp_address ip m.self.self_zmq_rep_port
    ∷ tcp_address ip m.self.self_zmq_pub_port
    ∷ []

-- The queue of membership changes grows, and the poller is told.
abbrev pub change_membership : Bytes → Bool → Messaging → Messaging
change_membership pub_addr joins m =
    notify_poller membership_change
      (record m { membership_changes = m.membership_changes ++ (pub_addr, joins) ∷ [] })

module _ (w : Wire) (host : Host) where
  -- internalConnect; `none` is an exception of zmqpp or of the network utilities, which leaves the
  -- map of sockets locked.
  unfoldable pub internal_connect : ModuleUniqueId → Bytes → Bytes → Messaging → Option Messaging
  internal_connect identity rep_addr pub_addr m =
      if contains identity m.sockets_req
      then some m
      else if host.connects rep_addr
      then elim host.own_ip [
        | none ↦ none
        | some ip ↦ some (
            change_membership pub_addr true (record m {
              outbox = (rep_addr, hello_parts w ip m) ∷ m.outbox;
              sockets_req = put identity rep_addr m.sockets_req;
            }))
      ]
      else none

  -- peerJoin
  unfoldable pub peer_join : ModuleHandle → Messaging → Option Messaging
  peer_join module_handle m = check_alive m (
      internal_connect module_handle.unique_id module_handle.zmq_rep_addr module_handle.zmq_pub_addr
        m)

  -- handleHelloReceived
  unfoldable pub handle_hello_received : List Bytes → Messaging → Option Messaging
  handle_hello_received message m = do
    raw ← part 2 message
    rep_addr ← part 3 message
    pub_addr ← part 4 message
    internal_connect (sender_of w raw) rep_addr pub_addr m

-- peerLeave
unfoldable pub peer_leave : ModuleHandle → Messaging → Option Messaging
peer_leave module_handle m = check_alive m (
    some (
      if contains module_handle.unique_id m.sockets_req
      then change_membership module_handle.zmq_pub_addr false
          (record m { sockets_req = erase module_handle.unique_id m.sockets_req })
      else m))

-- applyMembershipChange: an exception of the socket is caught.
unfoldable pub apply_membership_change : Messaging → Messaging
apply_membership_change m = elim m.membership_changes [
  | [] ↦ m
  | change ∷ rest ↦ record m {
    membership_changes = rest;
    sub_calls = m.sub_calls ++ (if change.1 then connect change.0 else disconnect change.0) ∷ [];
  }
]
