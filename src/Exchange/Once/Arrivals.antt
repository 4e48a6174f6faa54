-- ===== src/Exchange/Once/Arrivals.antt =====
-- The first arrival of a segment, and another one.
use danp.Prelude.{
  ℕ, ◌+◌, ◌%◌, ◌<◌, ◌≡◌, ◌≢◌, ap, sym, subst, ◌∙◌, List, [], ◌∷◌, ◌++◌, Option, some, arith, length,
  true, false, get_or, get_or-set_self, get_or-set_ne, length-set,
}
use danp.Types.{Packet, blank_packet, stream, established, flag_ack, pool_size}
use danp.Osal.{Osal, IsOsal, buffer_mutex}
use danp.Buffer.Laws.{IsPool, free-IsPool, free-packets}
use danp.Header.{unpack_header}
use danp.Node.{Node, Socket, blank_socket, socket_at, put_socket, packet_at, free}
use danp.Node.Traffic.{allocate-free_slot, allocate-taken, SameButTraffic-IsPool}
use danp.Socket.Control.{send_control}
use danp.Socket.Control.Laws.{send_control-used, send_control-SameButTraffic}
use danp.Socket.Input.{on_segment}
use danp.Socket.Input.Receiver.{
  IsStream, seq_of, advanced, acknowledged, on_segment-in_order, on_segment_duplicate,
  enqueue_received-room, acknowledged-queue, acknowledged-socket, acknowledged-in_range,
  acknowledged-SameButTraffic,
}
use danp.Socket.Transfer.Chunks.{Holds}
use danp.Exchange.Reception.{
  Takes, got, filled_node, filled_node-Holds, filled_node-length, input-dispatch,
}
use danp.Exchange.Branches.{dispatch-segment}
use danp.Receive.{input}
use danp.Driver.{packet_bytes}
use danp.Exchange.Stream.{got_seq, filled_node-IsStream, acknowledged-packet}
use danp.Driver.Delivery.{IsPacket}

module _ {o : Osal} where
  -- The packet `slot` waits alone in the queue of the stream `j`, with a number and bytes, and the
  -- stream expects the next number.
  pub record IsQueued (m : Node o) (j slot seq : ℕ) (bytes : List ℕ) (q' : o.Mq (Option ℕ))
      : Type 0 where
    pub in_range : j < length m.socket_pool
    pub type : (socket_at m j).type ≡ stream
    pub state : (socket_at m j).state ≡ established
    pub expected : (socket_at m j).rx_expected_seq ≡ (seq + 1) % 256
    pub queue : (socket_at m j).rx_queue ≡ some q'
    pub held : o.contents q' ≡ some slot ∷ []
    pub pool : IsPool m.pool
    pub inside : slot < pool_size
    pub used : get_or m.pool.free_map slot false ≡ false
    pub packet : Holds (packet_at m slot) (seq ∷ bytes)

  -- A segment for an ESTABLISHED stream, from danp_input on.
  pub segment-input :
      (n : Node o) (iface slot j : ℕ) (pkt : Packet) (seq : ℕ) (bytes : List ℕ)
      → IsPacket pkt
      → Holds pkt (seq ∷ bytes)
      → Takes n iface slot j (unpack_header pkt.header_raw)
      → (unpack_header pkt.header_raw).flags ≡ 0
      → (socket_at n j).type ≡ stream
      → (socket_at n j).state ≡ established
      → input iface (packet_bytes pkt) n ≡ some (on_segment slot j (filled_node n iface slot pkt))
  segment-input n iface slot j pkt seq bytes w h t flags type state =
      let f = filled_node n iface slot pkt in
      let any : 0 < (packet_at f slot).length =
        omega (arith, filled_node-length n iface slot pkt j t w, h.length) in
      input-dispatch n iface slot pkt j t w
      ∙ ap some (dispatch-segment slot j (unpack_header pkt.header_raw) f flags type state any)

  -- It is so too where the sockets, the flag of the packet, and the packet are the same.
  same-IsQueued :
      (m k : Node o) (j slot seq : ℕ) (bytes : List ℕ) (q : o.Mq (Option ℕ))
      → IsQueued m j slot seq bytes q
      → k.socket_pool ≡ m.socket_pool
      → IsPool k.pool
      → get_or k.pool.free_map slot false ≡ get_or m.pool.free_map slot false
      → packet_at k slot ≡ packet_at m slot
      → IsQueued k j slot seq bytes q
  same-IsQueued m k j slot seq bytes q u sockets pool flag packet =
      let at : socket_at k j ≡ socket_at m j =
        ap (λ (socks : List (Socket o)). get_or socks j (blank_socket o)) sockets in
      record {
        in_range = omega (arith, u.in_range, ap length sockets);
        type = ap (λ (x : Socket o). x.type) at ∙ u.type;
        state = ap (λ (x : Socket o). x.state) at ∙ u.state;
        expected = ap (λ (x : Socket o). x.rx_expected_seq) at ∙ u.expected;
        queue = ap (λ (x : Socket o). x.rx_queue) at ∙ u.queue;
        held = u.held;
        pool = pool;
        inside = u.inside;
        used = flag ∙ u.used;
        packet = subst (λ x. Holds x (seq ∷ bytes)) (sym packet) u.packet;
      }

  module _ (n : Node o) (iface slot j : ℕ) (pkt : Packet) (seq : ℕ) (bytes : List ℕ)
      (w : IsPacket pkt) (h : Holds pkt (seq ∷ bytes))
      (t : Takes n iface slot j (unpack_header pkt.header_raw)) where
    pub on_segment-IsQueued :
        (q : o.Mq (Option ℕ))
        → IsOsal o
        → IsStream n j q
        → (socket_at n j).type ≡ stream
        → (socket_at n j).rx_expected_seq ≡ seq
        → o.contents q ≡ []
        → 0 < o.places q
        → (q' : o.Mq (Option ℕ)) × IsQueued
            (on_segment slot j (filled_node n iface slot pkt))
            j
            slot
            seq
            bytes
            q'
    on_segment-IsQueued q os v type expected empty room =
        let f = filled_node n iface slot pkt in
        let m = acknowledged slot j f in
        let u = filled_node-IsStream n iface slot j pkt seq bytes w h t v in
        let (q', sent, held, _) =
          os.send_room q (some slot) (omega (arith, room, ap length empty)) in
        let s : Socket o = record (socket_at m j) { rx_queue = some q' } in
        let in_order = got_seq n iface slot j pkt seq bytes w h t ∙ sym expected in
        let whole : on_segment slot j f ≡ put_socket m j s =
          on_segment-in_order slot j f v.connected in_order
          ∙ enqueue_received-room j slot m q q' (acknowledged-queue slot j f u) sent in
        let inside = acknowledged-in_range slot j f u in
        let at : socket_at (put_socket m j s) j ≡ record (advanced f j) { rx_queue = some q' } =
          get_or-set_self m.socket_pool j s (blank_socket o) inside
          ∙ ap (λ (x : Socket o). record x { rx_queue = some q' })
              (acknowledged-socket slot j f u) in
        let same = acknowledged-SameButTraffic slot j f u in
        let (r, _) = allocate-taken n slot t.pool t.packet in
        (
          q',
          subst (λ k. IsQueued k j slot seq bytes q') (sym whole)
              (record {
                in_range = omega (arith, inside, length-set m.socket_pool j s);
                type = ap (λ (x : Socket o). x.type) at ∙ type;
                state = ap (λ (x : Socket o). x.state) at ∙ v.connected;
                expected =
                    ap (λ (x : Socket o). x.rx_expected_seq) at ∙ ap (λ e. (e + 1) % 256) expected;
                queue = ap (λ (x : Socket o). x.rx_queue) at;
                held = held ∙ ap (λ xs. xs ++ some slot ∷ []) empty;
                pool = SameButTraffic-IsPool same u.pool;
                inside = omega (arith, r, v.pool.slots);
                used =
                    ap (λ m. get_or m slot false) same.free_map
                    ∙ get_or-set_self n.pool.free_map slot false false
                        (omega (arith, r, v.pool.slots, v.pool.flags));
                packet =
                    subst (λ x. Holds x (seq ∷ bytes))
                      (sym (acknowledged-packet n iface slot j pkt seq bytes w h t v))
                      (filled_node-Holds n iface slot pkt j t w (seq ∷ bytes) h);
              }),
        )

  module _ (m : Node o) (iface slot' j slot : ℕ) (pkt : Packet) (seq : ℕ) (bytes : List ℕ)
      (w : IsPacket pkt) (h : Holds pkt (seq ∷ bytes))
      (t : Takes m iface slot' j (unpack_header pkt.header_raw)) (q : o.Mq (Option ℕ))
      (u : IsQueued m j slot seq bytes q) where
    abbrev again : Node o
    again = filled_node m iface slot' pkt

    again-pool : IsPool again.pool
    again-pool =
        (filled_node-IsStream m iface slot' j pkt seq bytes w h t (record {
          in_range = u.in_range;
          connected = u.state;
          queue = u.queue;
          pool = u.pool;
        })).pool

    -- The packet that waits is not the one that is taken for the second arrival.
    other : slot' ≢ slot
    other e = cc (
        sym u.used
        ∙ ap (λ k. get_or m.pool.free_map k false) (sym e)
        ∙ allocate-free_slot m slot' t.packet)

    again-flag : get_or again.pool.free_map slot false ≡ get_or m.pool.free_map slot false
    again-flag = get_or-set_ne m.pool.free_map slot' slot false false other

    free-packet : (p : Option ℕ) (k : Node o) (i : ℕ) → packet_at (free p k) i ≡ packet_at k i
    unfolding free
    free-packet p k i =
        ap (λ (xs : List Packet). get_or xs i blank_packet)
          (free-packets (o.mutex_lock buffer_mutex) p k.pool)

    -- A repeated segment leaves the queue as it was.
    pub on_segment-again-IsQueued :
        o.mutex_lock buffer_mutex ≡ true → IsQueued (on_segment slot' j again) j slot seq bytes q
    on_segment-again-IsQueued lock =
        let (r, _) = allocate-taken m slot' t.pool t.packet in
        let number = got_seq m iface slot' j pkt seq bytes w h t in
        let taken : get_or again.pool.free_map slot' false ≡ false =
          get_or-set_self m.pool.free_map slot' false false
            (omega (arith, r, u.pool.slots, u.pool.flags)) in
        let (whole, sockets, flags) =
          on_segment_duplicate slot' j again lock again-pool u.state
            (λ e. omega (arith, sym number ∙ e ∙ u.expected)) (omega (arith, r, u.pool.slots))
            taken in
        let c = send_control j flag_ack (seq_of again slot') again in
        let sent = send_control-SameButTraffic j flag_ack (seq_of again slot') again again-pool in
        same-IsQueued m (on_segment slot' j again) j slot seq bytes q u sockets
          (subst (λ (k : Node o). IsPool k.pool) (sym whole)
            (unfold free in
              free-IsPool (o.mutex_lock buffer_mutex) (some slot') c.pool
                (SameButTraffic-IsPool sent again-pool)))
          (ap (λ f. get_or f slot false) flags
            ∙ get_or-set_ne again.pool.free_map slot' slot true false other
            ∙ again-flag)
          (ap (λ (k : Node o). packet_at k slot) whole
            ∙ free-packet (some slot') c slot
            ∙ send_control-used j flag_ack (seq_of again slot') slot again again-pool
                (again-flag ∙ u.used)
            ∙ get_or-set_ne m.pool.packets slot' slot (got m iface slot' pkt) blank_packet other)
