-- ===== src/Exchange/Stream.antt =====
-- A segment of a stream at its receiver, and its acknowledgement back at the sender.
use danp.Prelude.{
  get_or, subst, set, length-set, false, ℕ, ◌+◌, ◌%◌, ◌<◌, ◌≡◌, ap, sym, ◌∙◌, List, [], ◌∷◌, ◌++◌,
  Option, some, arith, length, ℤ, get_or-set_self,
}
use danp.Types.{blank_packet, Packet, stream, established, flag_ack}
use danp.Osal.{Osal, IsOsal}
use danp.Header.{unpack_header}
use danp.Buffer.{Pool}
use danp.Node.Traffic.{allocate-taken}
use danp.Socket.Control.Laws.{send_control-used}
use danp.Node.{Node, Socket, blank_socket, socket_at, put_socket, packet_at, free}
use danp.Socket.Input.{on_segment, give_signal}
use danp.Socket.Input.Receiver.{IsStream, seq_of, advanced, acknowledged, on_segment_delivers}
use danp.Socket.Transfer.Chunks.{Holds, Holds-first}
use danp.Receive.{input}
use danp.Driver.{packet_bytes}
use danp.Driver.Delivery.{IsPacket}
use danp.Exchange.Reception.{
  Takes, got, filled_node, filled_node-length, filled_node-Holds, input-dispatch,
}
use danp.Exchange.Peer.{ReachesPeer, to_peer, send_control-acknowledges}
use danp.Exchange.Branches.{
  dispatch-segment, dispatch-data_ack, on_data_ack-expected, give_signal-free, on_segment-traffic,
  signalled,
}

module _ {o : Osal} where
  -- The node with the packet that it received, once it has counted it.
  abbrev pub counted : Node o → (iface slot j : ℕ) → Packet → Node o
  counted n iface slot j pkt =
      put_socket (filled_node n iface slot pkt) j (advanced (filled_node n iface slot pkt) j)

  module _ (n : Node o) (iface slot j : ℕ) (pkt : Packet) (seq : ℕ) (bytes : List ℕ)
      (w : IsPacket pkt) (h : Holds pkt (seq ∷ bytes))
      (t : Takes n iface slot j (unpack_header pkt.header_raw)) where
    pub got_seq : seq_of (filled_node n iface slot pkt) slot ≡ seq
    got_seq =
        Holds-first (packet_at (filled_node n iface slot pkt) slot) seq bytes
          (filled_node-Holds n iface slot pkt j t w (seq ∷ bytes) h)

    pub filled_node-IsStream :
        {q : o.Mq (Option ℕ)} → IsStream n j q → IsStream (filled_node n iface slot pkt) j q
    filled_node-IsStream v = record {
      in_range = v.in_range;
      connected = v.connected;
      queue = v.queue;
      pool = record {
        slots = length-set n.pool.packets slot (got n iface slot pkt) ∙ v.pool.slots;
        flags = length-set n.pool.free_map slot false ∙ v.pool.flags;
      };
    }

    -- The answer leaves the packet that was received as it is.
    pub acknowledged-packet :
        {q : o.Mq (Option ℕ)}
        → IsStream n j q
        → let f = filled_node n iface slot pkt in
          packet_at (acknowledged slot j f) slot ≡ packet_at f slot
    acknowledged-packet v =
        let f = filled_node n iface slot pkt in
        let (r, _) = allocate-taken n slot t.pool t.packet in
        let used : get_or f.pool.free_map slot false ≡ false =
          get_or-set_self n.pool.free_map slot false false
            (omega (arith, r, v.pool.slots, v.pool.flags)) in
        send_control-used j flag_ack (seq_of f slot) slot (counted n iface slot j pkt)
          (filled_node-IsStream v).pool used

    counted_type :
        j < length n.socket_pool
        → (socket_at n j).type ≡ stream
        → (socket_at (counted n iface slot j pkt) j).type ≡ stream
    counted_type r type =
        ap (λ (s : Socket o). s.type)
          (get_or-set_self n.socket_pool j (advanced (filled_node n iface slot pkt) j)
            (blank_socket o) r)
        ∙ type

    -- A stream takes the segment that it waits for: it is queued, counted, and acknowledged.
    pub segment_taken :
        (slot' out : ℕ) (tx : Packet → ℤ) (q : o.Mq (Option ℕ))
        → IsOsal o
        → (unpack_header pkt.header_raw).flags ≡ 0
        → IsStream n j q
        → (socket_at n j).type ≡ stream
        → (socket_at n j).rx_expected_seq ≡ seq
        → length (o.contents q) < o.places q
        → ReachesPeer (counted n iface slot j pkt) j 1 slot' out tx
        → (m : Node o) × (input iface (packet_bytes pkt) n ≡ some m)
          × (m.sent
              ≡ (out, to_peer (counted n iface slot j pkt) j flag_ack (seq ∷ []) slot') ∷ n.sent)
          × ((socket_at m j).rx_expected_seq ≡ (seq + 1) % 256)
          × ((q' : o.Mq (Option ℕ)) × ((socket_at m j).rx_queue ≡ some q')
              × (o.contents q' ≡ o.contents q ++ some slot ∷ []))
          × Holds (packet_at m slot) (seq ∷ bytes)
    segment_taken slot' out tx q os flags v type expected room reaches =
        let f = filled_node n iface slot pkt in
        let any : 0 < (packet_at f slot).length =
          omega (arith, filled_node-length n iface slot pkt j t w, h.length) in
        let in_order : seq_of f slot ≡ (socket_at f j).rx_expected_seq = got_seq ∙ sym expected in
        let (q', queued, held, next, _) =
          on_segment_delivers slot j f q os (filled_node-IsStream v) in_order room in
        let (sent, pool) = on_segment-traffic slot j f v.connected in_order in
        let kept : packet_at (on_segment slot j f) slot ≡ packet_at f slot =
          ap (λ (p : Pool). get_or p.packets slot blank_packet) pool ∙ acknowledged-packet v in
        (
          on_segment slot j f,
          input-dispatch n iface slot pkt j t w
              ∙ ap some (
                  dispatch-segment slot j (unpack_header pkt.header_raw) f flags type v.connected
                    any),
          sent
              ∙ rw got_seq (
                  send_control-acknowledges (counted n iface slot j pkt) j seq slot' out tx
                    (counted_type v.in_range type) reaches),
          next ∙ ap (λ e. (e + 1) % 256) expected,
          (q', queued, held),
          subst (λ x. Holds x (seq ∷ bytes)) (sym kept)
              (filled_node-Holds n iface slot pkt j t w (seq ∷ bytes) h),
        )

    -- The acknowledgement that a stream waits for gives its signal.
    pub acknowledgement_taken :
        (sem : o.Sem)
        → length bytes ≡ 0
        → (unpack_header pkt.header_raw).flags ≡ flag_ack
        → (socket_at n j).state ≡ established
        → (socket_at n j).type ≡ stream
        → (socket_at n j).tx_seq ≡ seq
        → (socket_at n j).signal ≡ some sem
        → (m : Node o) × (input iface (packet_bytes pkt) n ≡ some m)
          × (m.socket_pool ≡ set n.socket_pool j (signalled n j sem))
    acknowledgement_taken sem empty flags state type waits e =
        let f = filled_node n iface slot pkt in
        let number : seq_of f slot ≡ (socket_at f j).tx_seq = got_seq ∙ sym waits in
        let one : (packet_at f slot).length ≡ 1 =
          omega (arith, filled_node-length n iface slot pkt j t w, h.length, empty) in
        (
          free (some slot) (give_signal j f),
          input-dispatch n iface slot pkt j t w
              ∙ ap some (
                  dispatch-data_ack slot j (unpack_header pkt.header_raw) f flags state one
                  ∙ on_data_ack-expected slot j f type number),
          give_signal-free (some slot) j f sem e,
        )
