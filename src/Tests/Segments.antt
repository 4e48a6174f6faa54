-- ===== src/Tests/Segments.antt =====
-- A segment of a stream between two nodes at a fixed input.
use danp.Prelude.{ℕ, ◌≡◌, refl, false, [], ◌∷◌, Option, some, arith, pos, replicate}
use danp.Types.{stream, established, flag_none, flag_ack}
use danp.Node.{
  Node, Socket, blank_socket, socket_at, packet_at, allocate, free, transmit, send_packet,
}
use danp.Buffer
use danp.Socket.Transfer.{send, send_segment}
use danp.Socket.Transfer.Chunks.{Holds}
use danp.Receive.{input}
use danp.Driver.{packet_bytes}
use danp.Exchange.Peer.{to_peer-IsPacket, peer_header}
use danp.Exchange.Reception.{Takes}
use danp.Exchange.Segment.{hears, after_segment, segment}
use danp.Exchange.Acknowledged.{SendsSegment, TakesSegment, acknowledgement, segment_acknowledged}
use danp.Tests.Os.{list_osal, list_osal-IsOsal, ListQueue}
use danp.Tests.Exchange.{station, text, no_packets, bound_to, accepted, blank-IsPacket}

-- A stream between a port of a node and a port of its peer; it sends with the number 5 next.
abbrev connected_to : (node port peer peer_port : ℕ) → Socket list_osal
connected_to node port peer peer_port = record (bound_to node port) {
  type = stream;
  state = established;
  remote_node = peer;
  remote_port = peer_port;
  tx_seq = 5;
  rx_expected_seq = 5;
  signal = some false;
}

abbrev end_point : (node port peer peer_port : ℕ) → Node list_osal
end_point node port peer peer_port = record (station node peer port) {
  socket_pool = connected_to node port peer peer_port ∷ replicate 19 (blank_socket list_osal);
}

abbrev pub near_end : Node list_osal
near_end = end_point 1 10 2 7

abbrev pub far_end : Node list_osal
far_end = end_point 2 7 1 10

pub near_end-SendsSegment : SendsSegment near_end 0 text 0 0 accepted
unfolding allocate Buffer.allocate Buffer.first_free danp.Route.route_lookup danp.Route.lookup
near_end-SendsSegment = record {
  type = refl;
  state = refl;
  in_range = omega arith;
  sem = false;
  signal = refl;
  reaches = record {
    pool = record { slots = refl; flags = refl };
    packet = refl;
    array = refl;
    short = omega arith;
    routed = refl;
    fits = omega arith;
    driver = refl;
  };
}

pub far_end-TakesSegment :
    TakesSegment far_end 0 0 0
      (segment near_end 0 text 0)
      (peer_header (socket_at near_end 0) flag_none)
      5
      no_packets
      1
      0
      accepted
unfolding allocate Buffer.allocate Buffer.first_free danp.Route.route_lookup danp.Route.lookup
    danp.Socket.Find.find_socket danp.Socket.Find.find_socket_from danp.Socket.Find.accepts
    danp.Socket.Find.is_exact danp.Socket.Find.is_wildcard danp.Socket.Find.is_active
far_end-TakesSegment = record {
  takes = record {
    lock = refl;
    pool = record { slots = refl; flags = refl };
    packet = refl;
    array = blank-IsPacket;
    address = refl;
    plain = refl;
    found = refl;
  };
  type = refl;
  is_stream = record {
    in_range = omega arith;
    connected = refl;
    queue = refl;
    pool = record { slots = refl; flags = refl };
  };
  expected = refl;
  room = omega arith;
  reaches = record {
    pool = record { slots = refl; flags = refl };
    packet = refl;
    array = refl;
    short = omega arith;
    routed = refl;
    fits = omega arith;
    driver = refl;
  };
}

near_end-Takes :
    Takes (after_segment near_end 0 text 0) 0 0 0 (peer_header (socket_at far_end 0) flag_ack)
unfolding allocate Buffer.allocate Buffer.free Buffer.first_free send_segment free transmit
    send_packet danp.Socket.Find.find_socket danp.Socket.Find.find_socket_from
    danp.Socket.Find.accepts danp.Socket.Find.is_exact danp.Socket.Find.is_wildcard
    danp.Socket.Find.is_active
near_end-Takes = record {
  lock = refl;
  pool = record { slots = refl; flags = refl };
  packet = refl;
  array =
      to_peer-IsPacket near_end 0 flag_none (5 ∷ text) 0 0 accepted near_end-SendsSegment.reaches;
  address = refl;
  plain = refl;
  found = refl;
}

segment_acknowledged_example :
    let pkt = segment near_end 0 text 0 in
    let ack = acknowledgement far_end 0 0 0 pkt 5 1 in
    ((after_segment near_end 0 text 0).sent ≡ (0, pkt) ∷ [])
    × ((m : Node list_osal) × (input 0 (packet_bytes pkt) far_end ≡ some m)
        × (m.sent ≡ (0, ack) ∷ [])
        × ((socket_at m 0).rx_expected_seq ≡ 6)
        × ((q' : ListQueue (Option ℕ)) × ((socket_at m 0).rx_queue ≡ some q')
            × (q'.1 ≡ some 0 ∷ []))
        × Holds (packet_at m 0) (5 ∷ text))
    × ((k : Node list_osal) × (send (hears 0 (packet_bytes ack)) 1 0 text near_end
          ≡ some (pos 2, k))
        × ((socket_at k 0).tx_seq ≡ 6))
segment_acknowledged_example =
    segment_acknowledged near_end far_end 0 0 text 0 0 accepted 0 0 1 0 accepted no_packets 0 0
      list_osal-IsOsal near_end-SendsSegment far_end-TakesSegment near_end-Takes
