-- ===== src/Tests/Repeats.antt =====
-- A segment that arrives twice, at a fixed input.
use danp.Prelude.{◌≡◌, refl, [], ◌∷◌, arith, pos}
use danp.Types.{Packet, flag_none, flag_ack}
use danp.Header.{unpack_header}
use danp.Node.{Node, allocate, free, transmit, send_packet}
use danp.Buffer
use danp.Socket.Input.{on_segment}
use danp.Socket.Transfer.{recv}
use danp.Socket.Transfer.Chunks.{Holds}
use danp.Driver.Delivery.{IsPacket}
use danp.Exchange.Peer.{to_peer-IsPacket, to_peer-Holds}
use danp.Exchange.Reception.{Takes, filled_node}
use danp.Exchange.Stream.{counted}
use danp.Exchange.Segment.{segment}
use danp.Exchange.Once.Arrivals.{segment-input}
use danp.Exchange.Once.Delivered.{arrived, repeated, delivered_once}
use danp.Tests.Os.{list_osal, list_osal-IsOsal}
use danp.Tests.Exchange.{text, no_packets, accepted}
use danp.Tests.Segments.{near_end, far_end, near_end-SendsSegment, far_end-TakesSegment}

abbrev pkt : Packet
pkt = segment near_end 0 text 0

pkt-IsPacket : IsPacket pkt
pkt-IsPacket =
    to_peer-IsPacket near_end 0 flag_none (5 ∷ text) 0 0 accepted near_end-SendsSegment.reaches

pkt-Holds : Holds pkt (5 ∷ text)
pkt-Holds = to_peer-Holds near_end 0 flag_none (5 ∷ text) 0 0 accepted near_end-SendsSegment.reaches

far_end-Takes : Takes far_end 0 0 0 (unpack_header pkt.header_raw)
unfolding unpack_header danp.Header.pack_header danp.Types.has
far_end-Takes = far_end-TakesSegment.takes

-- The node once the segment has come, and once it has come again.
abbrev once : Node list_osal
once = on_segment 0 0 (filled_node far_end 0 0 pkt)

abbrev twice : Node list_osal
twice = on_segment 1 0 (filled_node once 0 1 pkt)

once-Takes : Takes once 0 1 0 (unpack_header pkt.header_raw)
unfolding on_segment danp.Driver.Refill.refill danp.Driver.packet_bytes
    danp.Socket.Control.send_control danp.Socket.Control.control_payload allocate Buffer.allocate
    Buffer.first_free send_packet free transmit Buffer.free unpack_header danp.Header.pack_header
    danp.Types.has danp.Socket.Input.is_syn_received danp.Socket.Input.enqueue_received
    danp.Socket.Find.find_socket danp.Socket.Find.find_socket_from danp.Socket.Find.accepts
    danp.Socket.Find.is_exact danp.Socket.Find.is_wildcard danp.Socket.Find.is_active
    danp.Socket.Find.is_dgram
once-Takes = record {
  lock = refl;
  pool = record { slots = refl; flags = refl };
  packet = refl;
  array =
      to_peer-IsPacket (counted far_end 0 0 0 pkt) 0 flag_ack (5 ∷ []) 1 0 accepted
        far_end-TakesSegment.reaches;
  address = refl;
  plain = refl;
  found = refl;
}

delivered_once_example :
    (read : Node list_osal) × (recv (λ t. t) 0 9 twice ≡ (pos 2, text, read))
    × (recv (λ t. t) 0 9 read ≡ (pos 0, [], read))
unfolding unpack_header danp.Types.has danp.Header.pack_header on_segment danp.Driver.Refill.refill
    danp.Driver.packet_bytes danp.Socket.Control.send_control allocate Buffer.allocate
    Buffer.first_free send_packet
delivered_once_example =
    delivered_once far_end 0 0 0 pkt 5 text no_packets once twice 9 list_osal-IsOsal refl
      pkt-IsPacket pkt-Holds refl far_end-Takes far_end-TakesSegment.is_stream refl refl refl
      (omega arith)
      (segment-input far_end 0 0 0 pkt 5 text pkt-IsPacket pkt-Holds far_end-Takes refl refl refl)
      (repeated once twice 1 arrived once-Takes
        (segment-input once 0 1 0 pkt 5 text pkt-IsPacket pkt-Holds once-Takes refl refl refl))
