-- ===== src/Tests/Handshakes.antt =====
-- A handshake of two nodes at a fixed input.
use danp.Prelude.{ℕ, ◌≡◌, refl, false, [], ◌∷◌, some, arith, pos, replicate}
use danp.Types.{Packet, stream, listening, established, flag_syn, flag_ack, has, blank_packet}
use danp.Node.{Node, Socket, blank_socket, socket_at, allocate, free, transmit, send_packet}
use danp.Buffer
use danp.Socket.Connect.{connect, accept}
use danp.Receive.{input}
use danp.Driver.{packet_bytes}
use danp.Driver.Delivery.{refill-IsPacket}
use danp.Exchange.Peer.{to_peer-IsPacket, peer_header, to_peer, ReachesPeer}
use danp.Exchange.Reception.{Takes, filled_node}
use danp.Exchange.Segment.{hears}
use danp.Exchange.Handshake.Caller.{Asks, ready, asked, after_syn, connected}
use danp.Exchange.Handshake.Listener.{Admits, queued, child, after_request}
use danp.Exchange.Handshake.Arrival.{Awaits, IsOtherEnd}
use danp.Exchange.Handshake.Established.{handshake_establishes}
use danp.Tests.Os.{list_osal, list_osal-IsOsal, ListQueue}
use danp.Tests.Exchange.{station, bound_to, accepted, blank-IsPacket}

abbrev calling : Node list_osal
calling = record (station 1 2 10) {
  socket_pool =
      record (bound_to 1 10) { type = stream; signal = some false }
      ∷ replicate 19 (blank_socket list_osal);
}

abbrev nobody : ListQueue ℕ
nobody = (5, [])

abbrev one_waiting : ListQueue ℕ
one_waiting = (5, 1 ∷ [])

abbrev called : Node list_osal
called = record (station 2 1 46) {
  socket_pool =
      record (bound_to 2 46) { type = stream; state = listening; accept_queue = some nobody }
      ∷ replicate 19 (blank_socket list_osal);
}

calling-Asks : Asks calling 0 2 46 0 0 accepted
unfolding allocate Buffer.allocate Buffer.first_free danp.Route.route_lookup danp.Route.lookup
    danp.Socket.Connect.bind_unbound danp.Socket.Connect.set_peer
calling-Asks = record {
  type = refl;
  in_range = omega arith;
  sem = false;
  signal = refl;
  reaches = record {
    pool = record { slots = refl; flags = refl };
    packet = refl;
    array = refl;
    short = omega arith;
    routed = refl;
    fits = omega arith;
    driver = refl;
  };
}

abbrev caller : Socket list_osal
caller = socket_at (ready calling 0 2 46) 0

called-Takes : Takes called 0 0 0 (peer_header caller flag_syn)
unfolding allocate Buffer.allocate Buffer.first_free danp.Socket.Connect.bind_unbound
    danp.Socket.Connect.set_peer danp.Socket.Find.find_socket danp.Socket.Find.find_socket_from
    danp.Socket.Find.accepts danp.Socket.Find.is_exact danp.Socket.Find.is_wildcard
    danp.Socket.Find.is_active
called-Takes = record {
  lock = refl;
  pool = record { slots = refl; flags = refl };
  packet = refl;
  array = blank-IsPacket;
  address = refl;
  plain = refl;
  found = refl;
}

abbrev syn : Packet
syn = to_peer (asked calling 0 2 46) 0 flag_syn [] 0

abbrev asks : Node list_osal
asks = filled_node called 0 0 syn

asks-Admits : Admits asks 0 1 nobody one_waiting
unfolding danp.Socket.Create.create danp.Socket.Create.finish
asks-Admits = record {
  pool = record { slots = refl; flags = refl };
  type = refl;
  state = refl;
  free_socket = refl;
  queue = refl;
  room = refl;
}

abbrev queued_up : Node list_osal
queued_up = queued asks 0 1 (peer_header caller flag_syn) one_waiting

queued_up-ReachesPeer : ReachesPeer queued_up 1 1 1 0 accepted
unfolding allocate Buffer.allocate Buffer.first_free danp.Route.route_lookup danp.Route.lookup
    danp.Socket.Connect.bind_unbound danp.Socket.Connect.set_peer danp.Socket.Create.create
    danp.Socket.Create.finish danp.Socket.Input.adopt
queued_up-ReachesPeer = record {
  pool = record { slots = refl; flags = refl };
  packet = refl;
  array = refl;
  short = omega arith;
  routed = refl;
  fits = omega arith;
  driver = refl;
}

abbrev answer : Packet
answer = to_peer queued_up 1 3 (0 ∷ []) 1

calling-Takes :
    Takes
      (after_syn calling 0 2 46)
      0
      0
      0
      (peer_header (child asks 1 (peer_header caller flag_syn)) 3)
unfolding allocate Buffer.allocate Buffer.first_free Buffer.free free transmit send_packet
    danp.Socket.Connect.bind_unbound danp.Socket.Connect.set_peer danp.Socket.Control.send_control
    danp.Socket.Control.control_payload danp.Socket.Create.create danp.Socket.Create.finish
    danp.Socket.Find.find_socket danp.Socket.Find.find_socket_from danp.Socket.Find.accepts
    danp.Socket.Find.is_exact danp.Socket.Find.is_wildcard danp.Socket.Find.is_active has
calling-Takes = record {
  lock = refl;
  pool = record { slots = refl; flags = refl };
  packet = refl;
  array = to_peer-IsPacket (asked calling 0 2 46) 0 flag_syn [] 0 0 accepted calling-Asks.reaches;
  address = refl;
  plain = refl;
  found = refl;
}

abbrev heard : Node list_osal
heard = filled_node (after_syn calling 0 2 46) 0 0 answer

heard-ReachesPeer : ReachesPeer (connected 0 heard) 0 1 1 0 accepted
unfolding allocate Buffer.allocate Buffer.first_free Buffer.free free transmit send_packet
    danp.Socket.Connect.bind_unbound danp.Socket.Connect.set_peer danp.Socket.Control.send_control
    danp.Socket.Control.control_payload danp.Route.route_lookup danp.Route.lookup
heard-ReachesPeer = record {
  pool = record { slots = refl; flags = refl };
  packet = refl;
  array = refl;
  short = omega arith;
  routed = refl;
  fits = omega arith;
  driver = refl;
}

abbrev ack : Packet
ack = to_peer (connected 0 heard) 0 flag_ack (0 ∷ []) 1

abbrev answered : Node list_osal
answered = after_request asks 0 0 1 (peer_header caller flag_syn) one_waiting

answered-Awaits : Awaits answered 0 0 2
unfolding allocate Buffer.allocate Buffer.first_free Buffer.free free transmit send_packet
    danp.Socket.Connect.bind_unbound danp.Socket.Connect.set_peer danp.Socket.Control.send_control
    danp.Socket.Control.control_payload danp.Socket.Create.create danp.Socket.Create.finish
    danp.Socket.Input.adopt
answered-Awaits = record {
  lock = refl;
  pool = record { slots = refl; flags = refl };
  packet = refl;
  array =
      refill-IsPacket 0 syn blank_packet
        (to_peer-IsPacket (asked calling 0 2 46) 0 flag_syn [] 0 0 accepted calling-Asks.reaches)
        blank-IsPacket;
  address = refl;
}

handshake_establishes_example :
    ((k : Node list_osal) × (connect (hears 0 (packet_bytes answer) 0) 0 2 46 calling ≡ (pos 0, k))
      × (k.sent ≡ (0, ack) ∷ (0, syn) ∷ [])
      × ((socket_at k 0).state ≡ established)
      × ((socket_at k 0).remote_node ≡ 2)
      × ((socket_at k 0).remote_port ≡ 46))
    × (input 0 (packet_bytes syn) called ≡ some answered)
    × (answered.sent ≡ (0, answer) ∷ [])
    × ((m : Node list_osal) × (input 0 (packet_bytes ack) answered ≡ some m)
        × ((accept (λ n. n) 0 m).0 ≡ some 1)
        × IsOtherEnd (socket_at m 1) caller)
unfolding danp.Socket.Connect.bind_unbound danp.Socket.Connect.set_peer
handshake_establishes_example =
    handshake_establishes calling 0 2 46 0 0 accepted called 0 0 0 1 nobody one_waiting 1 0 accepted
      0 0 1 0 accepted 0 list_osal-IsOsal calling-Asks called-Takes asks-Admits refl
      queued_up-ReachesPeer calling-Takes heard-ReachesPeer answered-Awaits
