-- ===== src/Exchange/Acknowledged.antt =====
-- danp_send on a stream, over a driver to its peer and back: a segment and its acknowledgement.
use danp.Prelude.{
  ℕ, suc, ◌+◌, ◌^◌, ◌%◌, ◌<◌, ◌≡◌, refl, ap, sym, subst, ◌∙◌, List, [], ◌∷◌, ◌++◌, Option, some,
  arith, ℤ, pos, length, get_or, set, get_or-set_self, length-set,
}
use danp.Types.{Packet, stream, established, flag_none, flag_ack}
use danp.Osal.{Osal, IsOsal}
use danp.Header.{Header, unpack_header}
use danp.Node.{
  Node, Socket, blank_socket, socket_at, packet_at, put_socket, allocate, free, transmit,
  send_packet,
}
use danp.Socket.Connect.{take_signal}
use danp.Socket.Input.Receiver.{IsStream, advanced}
use danp.Socket.Transfer.{send_segment, end_send, send}
use danp.Socket.Transfer.Chunks.{Holds}
use danp.Receive.{input}
use danp.Driver.{packet_bytes}
use danp.Exchange.Reception.{Takes}
use danp.Exchange.Peer.{
  ReachesPeer, to_peer, peer_header, unpack-peer_header, to_peer-Holds, to_peer-IsPacket,
}
use danp.Exchange.Branches.{take_signal-given, signalled}
use danp.Exchange.Stream.{counted, segment_taken, acknowledgement_taken}
use danp.Exchange.Segment.{
  hears, after_segment, segment, hears-taken, after_segment-sockets, after_segment-sent,
  send-signal,
}

module _ {o : Osal} where
  -- The socket `i` is an ESTABLISHED stream that can send these bytes in one segment.
  pub record SendsSegment (n : Node o) (i : ℕ) (bytes : List ℕ) (slot out : ℕ) (tx : Packet → ℤ)
      : Type 0 where
    pub type : (socket_at n i).type ≡ stream
    pub state : (socket_at n i).state ≡ established
    pub in_range : i < length n.socket_pool
    pub sem : o.Sem
    pub signal : (socket_at n i).signal ≡ some sem
    pub reaches : ReachesPeer n i (suc (length bytes)) slot out tx

  -- The node takes the segment `pkt` from the interface `iface` into the packet `slot`, for the
  -- stream `j`, which waits for its number and has room; and it can then acknowledge it.
  pub record TakesSegment (n : Node o) (iface slot j : ℕ) (pkt : Packet) (h : Header) (seq : ℕ)
      (q : o.Mq (Option ℕ)) (slot' out : ℕ) (tx : Packet → ℤ) : Type 0 where
    pub takes : Takes n iface slot j h
    pub type : (socket_at n j).type ≡ stream
    pub is_stream : IsStream n j q
    pub expected : (socket_at n j).rx_expected_seq ≡ seq
    pub room : length (o.contents q) < o.places q
    pub reaches : ReachesPeer (counted n iface slot j pkt) j 1 slot' out tx

  -- The acknowledgement of the segment `pkt`.
  abbrev pub acknowledgement : Node o → (iface slot j : ℕ) → Packet → (seq slot' : ℕ) → Packet
  acknowledgement n iface slot j pkt seq slot' =
      to_peer (counted n iface slot j pkt) j flag_ack (seq ∷ []) slot'

  unpack-acknowledgement :
      (n : Node o) (iface slot j : ℕ) (pkt : Packet) (seq slot' : ℕ)
      → j < length n.socket_pool
      → unpack_header (acknowledgement n iface slot j pkt seq slot').header_raw
        ≡ peer_header (socket_at n j) flag_ack
  unpack-acknowledgement n iface slot j pkt seq slot' r =
      unpack-peer_header (socket_at (counted n iface slot j pkt) j) flag_ack
      ∙ ap (λ (s : Socket o). peer_header s flag_ack)
          (get_or-set_self n.socket_pool j (advanced n j) (blank_socket o) r)

  module _ (a b : Node o) (i j : ℕ) (bytes : List ℕ) (slot out : ℕ) (tx : Packet → ℤ)
      (iface_b slot_b slot_b' out_b : ℕ) (tx_b : Packet → ℤ) (q : o.Mq (Option ℕ))
      (iface_a slot_a : ℕ) where
    abbrev pkt : Packet
    pkt = segment a i bytes slot

    abbrev seq : ℕ
    seq = (socket_at a i).tx_seq

    abbrev ack : Packet
    ack = acknowledgement b iface_b slot_b j pkt seq slot_b'

    abbrev sent_a : Node o
    sent_a = after_segment a i bytes slot

    segment-taken :
        IsOsal o
        → SendsSegment a i bytes slot out tx
        → TakesSegment b iface_b slot_b j pkt
            (peer_header (socket_at a i) flag_none)
            seq
            q
            slot_b'
            out_b
            tx_b
        → (m : Node o) × (input iface_b (packet_bytes pkt) b ≡ some m)
          × (m.sent ≡ (out_b, ack) ∷ b.sent)
          × ((socket_at m j).rx_expected_seq ≡ (seq + 1) % 256)
          × ((q' : o.Mq (Option ℕ)) × ((socket_at m j).rx_queue ≡ some q')
              × (o.contents q' ≡ o.contents q ++ some slot_b ∷ []))
          × Holds (packet_at m slot_b) (seq ∷ bytes)
    segment-taken os v w =
        let header = unpack-peer_header (socket_at a i) flag_none in
        segment_taken b iface_b slot_b j pkt seq bytes
          (to_peer-IsPacket a i flag_none (seq ∷ bytes) slot out tx v.reaches)
          (to_peer-Holds a i flag_none (seq ∷ bytes) slot out tx v.reaches)
          (subst (λ h. Takes b iface_b slot_b j h) (sym header) w.takes) slot_b' out_b tx_b q os
          (ap (λ (h : Header). h.flags) header) w.is_stream w.type w.expected w.room w.reaches

    acknowledgement-taken :
        (v : SendsSegment a i bytes slot out tx)
        → TakesSegment b iface_b slot_b j pkt
            (peer_header (socket_at a i) flag_none)
            seq
            q
            slot_b'
            out_b
            tx_b
        → Takes sent_a iface_a slot_a i (peer_header (socket_at b j) flag_ack)
        → (m : Node o) × (input iface_a (packet_bytes ack) sent_a ≡ some m)
          × (m.socket_pool ≡ set a.socket_pool i (signalled a i v.sem))
    acknowledgement-taken v w t =
        let header =
          unpack-acknowledgement b iface_b slot_b j pkt seq slot_b' w.is_stream.in_range in
        let c = counted b iface_b slot_b j pkt in
        let same = after_segment-sockets a i bytes slot in
        unfold send_segment allocate send_packet free transmit in
        acknowledgement_taken sent_a iface_a slot_a i ack seq []
          (to_peer-IsPacket c j flag_ack (seq ∷ []) slot_b' out_b tx_b w.reaches)
          (to_peer-Holds c j flag_ack (seq ∷ []) slot_b' out_b tx_b w.reaches)
          (subst (λ h. Takes sent_a iface_a slot_a i h) (sym header) t) v.sem refl
          (ap (λ (h : Header). h.flags) header) v.state v.type refl v.signal

    -- danp_send of the sender, which hears the acknowledgement in its first wait.
    send-acknowledged :
        IsOsal o
        → (v : SendsSegment a i bytes slot out tx) → (m : Node o)
        → input iface_a (packet_bytes ack) sent_a ≡ some m
        → m.socket_pool ≡ set a.socket_pool i (signalled a i v.sem)
        → (k : Node o) × (send (hears iface_a (packet_bytes ack)) 1 i bytes a
            ≡ some (pos (length bytes), k))
          × ((socket_at k i).tx_seq ≡ (seq + 1) % 256)
    unfolding end_send
    send-acknowledged os v m e same =
        let (sem', free_again) = os.give_take v.sem in
        let now : socket_at m i ≡ signalled a i v.sem =
          ap (λ (p : List (Socket o)). get_or p i (blank_socket o)) same
          ∙ get_or-set_self a.socket_pool i (signalled a i v.sem) (blank_socket o) v.in_range in
        let waited : hears iface_a (packet_bytes ack) 0 sent_a ≡ m =
          hears-taken iface_a (packet_bytes ack) 0 sent_a m e in
        let m' : Node o = put_socket m i (record (socket_at m i) { signal = some sem' }) in
        let taken : take_signal i m ≡ some m' =
          take_signal-given i m (o.sem_give v.sem) sem' (ap (λ (s : Socket o). s.signal) now)
            free_again in
        let inside : i < length m.socket_pool =
          omega
            (arith, ap length same, length-set a.socket_pool i (signalled a i v.sem), v.in_range) in
        let kept : (socket_at m' i).tx_seq ≡ seq =
          ap (λ (s : Socket o). s.tx_seq)
            (get_or-set_self m.socket_pool i (record (socket_at m i) { signal = some sem' })
              (blank_socket o) inside)
          ∙ ap (λ (s : Socket o). s.tx_seq) now in
        let s : Socket o = record (socket_at m' i) {
          tx_seq = ((socket_at m' i).tx_seq + 1) % 2 ^ 8;
        } in
        (
          put_socket m' i s,
          send-signal (hears iface_a (packet_bytes ack)) i bytes a m' slot v.type
              (omega (arith, v.reaches.short)) v.reaches.packet (ap (take_signal i) waited ∙ taken),
          ap (λ (s : Socket o). s.tx_seq)
                (get_or-set_self m'.socket_pool i s (blank_socket o) (
                  omega (
                    arith,
                    inside,
                    length-set m.socket_pool i (record (socket_at m i) { signal = some sem' }),
                  )))
              ∙ ap (λ t. (t + 1) % 256) kept,
        )

    -- A stream that has its peer sends at most 127 bytes over its driver; the peer's driver hands
    -- danp_input the bytes of that packet, and the peer's stream waits for the number, has room, and
    -- can answer; the sender's driver hands danp_input the bytes of the answer while danp_send
    -- waits. Then a packet with the number and the sender's bytes is last in the peer's queue, the
    -- peer expects the next number, and has sent one acknowledgement; and danp_send returns, in the
    -- first round of its loop, how many bytes it sent, its number now the one that the peer expects.
    pub segment_acknowledged :
        IsOsal o
        → SendsSegment a i bytes slot out tx
        → TakesSegment b iface_b slot_b j pkt
            (peer_header (socket_at a i) flag_none)
            seq
            q
            slot_b'
            out_b
            tx_b
        → Takes sent_a iface_a slot_a i (peer_header (socket_at b j) flag_ack)
        → (sent_a.sent ≡ (out, pkt) ∷ a.sent)
          × ((m : Node o) × (input iface_b (packet_bytes pkt) b ≡ some m)
              × (m.sent ≡ (out_b, ack) ∷ b.sent)
              × ((socket_at m j).rx_expected_seq ≡ (seq + 1) % 256)
              × ((q' : o.Mq (Option ℕ)) × ((socket_at m j).rx_queue ≡ some q')
                  × (o.contents q' ≡ o.contents q ++ some slot_b ∷ []))
              × Holds (packet_at m slot_b) (seq ∷ bytes))
          × ((k : Node o) × (send (hears iface_a (packet_bytes ack)) 1 i bytes a
                ≡ some (pos (length bytes), k))
              × ((socket_at k i).tx_seq ≡ (seq + 1) % 256))
    segment_acknowledged os v w t =
        let (m, heard, same) = acknowledgement-taken v w t in
        (
          after_segment-sent a i bytes slot out tx v.reaches,
          segment-taken os v w,
          send-acknowledged os v m heard same,
        )
