-- ===== src/Exchange/Once/Delivered.antt =====
-- A segment that arrives any number of times, and danp_recv.
use danp.Prelude.{
  ℕ, ◌<◌, ◌≡◌, refl, ap, sym, ◌∙◌, List, [], ◌∷◌, Option, some, length, pos, true, take,
  get_or-set_self, subst,
}
use danp.Types.{Packet, stream}
use danp.Osal.{Osal, IsOsal, buffer_mutex}
use danp.Header.{unpack_header}
use danp.Node.{Node, Socket, blank_socket, socket_at, put_socket, packet_at, free}
use danp.Socket.Input.{on_segment}
use danp.Socket.Input.Receiver.{IsStream}
use danp.Socket.Transfer.{recv, copy_length}
use danp.Socket.Transfer.Chunks.{Holds, copied-stream}
use danp.Socket.Transfer.Received.{
  copied-bounds, Holds-Fits, take_received-waiting, take_received-empty, recv-taken, recv-nothing,
}
use danp.Receive.{input}
use danp.Driver.{packet_bytes}
use danp.Driver.Delivery.{IsPacket}
use danp.Exchange.Reception.{Takes, filled_node}
use danp.Exchange.Once.Arrivals.{
  IsQueued, segment-input, on_segment-IsQueued, on_segment-again-IsQueued,
}

module _ {o : Osal} where
  -- The node after the packet has come again and again, each time for the same socket.
  pub data Repeats (pkt : Packet) (iface j : ℕ) (m : Node o) : Node o → Type 0 where
    arrived : Repeats pkt iface j m m
    repeated :
        (k l : Node o) (slot : ℕ)
        → Repeats pkt iface j m k
        → Takes k iface slot j (unpack_header pkt.header_raw)
        → input iface (packet_bytes pkt) k ≡ some l
        → Repeats pkt iface j m l

  -- danp_recv hands out the bytes of the packet that waits, and then nothing.
  recv-IsQueued :
      (j max_len slot seq : ℕ) (bytes : List ℕ) (q : o.Mq (Option ℕ)) (m : Node o)
      → IsOsal o
      → IsQueued m j slot seq bytes q
      → (k : Node o) × (recv (λ n. n) j max_len m
          ≡ (pos (length (take max_len bytes)), take max_len bytes, k))
        × (recv (λ n. n) j max_len k ≡ (pos 0, [], k))
  recv-IsQueued j max_len slot seq bytes q m os u =
      let (q', got, left, _) = os.receive_oldest q (some slot) [] u.held in
      let s : Socket o = record (socket_at m j) { rx_queue = some q' } in
      let k = put_socket m j s in
      let at : socket_at k j ≡ s = get_or-set_self m.socket_pool j s (blank_socket o) u.in_range in
      let type : (socket_at k j).type ≡ stream = ap (λ (x : Socket o). x.type) at ∙ u.type in
      let out = copied-stream max_len seq (packet_at m slot) bytes u.packet in
      let size : copy_length stream max_len (packet_at m slot) ≡ length (take max_len bytes) =
        sym
          (copied-bounds stream max_len (packet_at m slot)
            (Holds-Fits (packet_at m slot) (seq ∷ bytes) u.packet)).0
        ∙ ap length out in
      let first =
        recv-taken (λ n. n) j max_len slot m k
          (take_received-waiting j (some slot) m q q' u.queue got) in
      (
        free (some slot) k,
        first ∙ rw (type, size, out) refl,
        recv-nothing (λ n. n) j max_len (free (some slot) k)
            (take_received-empty j (free (some slot) k) q'
              (unfold free in ap (λ (x : Socket o). x.rx_queue) at) (os.receive_empty q' left)),
      )

  module _ (n : Node o) (iface slot j : ℕ) (pkt : Packet) (seq : ℕ) (bytes : List ℕ)
      (q : o.Mq (Option ℕ)) where
    Repeats-IsQueued :
        (q' : o.Mq (Option ℕ)) (m k : Node o)
        → o.mutex_lock buffer_mutex ≡ true
        → IsPacket pkt
        → Holds pkt (seq ∷ bytes)
        → (unpack_header pkt.header_raw).flags ≡ 0
        → IsQueued m j slot seq bytes q'
        → Repeats pkt iface j m k
        → IsQueued k j slot seq bytes q'
    Repeats-IsQueued q' m k lock w h flags u arrived = u
    Repeats-IsQueued q' m k lock w h flags u (repeated k' l slot' r t e) =
        let u' = Repeats-IsQueued q' m k' lock w h flags u r in
        let whole = segment-input k' iface slot' j pkt seq bytes w h t flags u'.type u'.state in
        let same : on_segment slot' j (filled_node k' iface slot' pkt) ≡ k = cc (whole, e) in
        subst (λ x. IsQueued x j slot seq bytes q') same
          (on_segment-again-IsQueued k' iface slot' j slot pkt seq bytes w h t q' u' lock)

    -- A segment with a number and bytes, for an ESTABLISHED stream that waits for its number and
    -- whose queue is empty, arrives, and then arrives again any number of times, each time for that
    -- stream, as when its acknowledgements are lost. danp_recv hands out its bytes once, cut to the
    -- reader's buffer; the next danp_recv has nothing.
    pub delivered_once :
        (m k : Node o) (max_len : ℕ)
        → IsOsal o
        → o.mutex_lock buffer_mutex ≡ true
        → IsPacket pkt
        → Holds pkt (seq ∷ bytes)
        → (unpack_header pkt.header_raw).flags ≡ 0
        → Takes n iface slot j (unpack_header pkt.header_raw)
        → IsStream n j q
        → (socket_at n j).type ≡ stream
        → (socket_at n j).rx_expected_seq ≡ seq
        → o.contents q ≡ []
        → 0 < o.places q
        → input iface (packet_bytes pkt) n ≡ some m
        → Repeats pkt iface j m k
        → (read : Node o) × (recv (λ t. t) j max_len k
            ≡ (pos (length (take max_len bytes)), take max_len bytes, read))
          × (recv (λ t. t) j max_len read ≡ (pos 0, [], read))
    delivered_once m k max_len os lock w h flags t v type expected empty room e r =
        let (q', first) =
          on_segment-IsQueued n iface slot j pkt seq bytes w h t q os v type expected empty room in
        let whole = segment-input n iface slot j pkt seq bytes w h t flags type v.connected in
        let same : on_segment slot j (filled_node n iface slot pkt) ≡ m = cc (whole, e) in
        let u = subst (λ x. IsQueued x j slot seq bytes q') same first in
        recv-IsQueued j max_len slot seq bytes q' k os (Repeats-IsQueued q' m k lock w h flags u r)
