-- ===== src/Exchange/Receiver.antt =====
-- danp_input and danp_recv_from: the packet that comes from the driver.
use danp.Prelude.{
  ℕ, ◌<◌, ◌≡◌, refl, ap, subst, ◌∙◌, ◌⊎◌, inl, inr, true, false, [], ◌∷◌, ◌++◌, Option, some, arith,
  pos, length, ltb, get_or-set_self,
}
use danp.Types.{Packet, dgram, open_state, established, has, flag_syn, flag_ack}
use danp.Osal.{Osal, IsOsal, socket_mutex}
use danp.Buffer.Laws.{IsPool}
use danp.Header.{Header, unpack_header}
use danp.Node.{Node, Socket, blank_socket, socket_at, put_socket, packet_at, allocate, free}
use danp.Route.{interface_at}
use danp.Socket.Find.{find_socket}
use danp.Socket.Input.{dispatch, on_data, enqueue_received}
use danp.Socket.Input.Receiver.{enqueue_received-room}
use danp.Socket.Transfer.Received.{take_received-waiting}
use danp.Socket.Transfer.{copy_length, deliver, take_received, recv_from}
use danp.Receive.{input}
use danp.Driver.{packet_bytes}
use danp.Exchange.Reception.{
  Takes, got, filled_node, filled_node-got, filled_node-length, input-dispatch,
}
use danp.Driver.Delivery.{IsPacket}

module _ {o : Osal} where
  -- Data, with no flags, for a datagram socket that is open or has a peer: it goes to the queue.
  dispatch-data :
      (p i : ℕ) (h : Header) (n : Node o)
      → has h.flags flag_syn ≡ false
      → has h.flags flag_ack ≡ false
      → (socket_at n i).type ≡ dgram
      → ((socket_at n i).state ≡ open_state) ⊎ ((socket_at n i).state ≡ established)
      → ltb 0 (packet_at n p).length ≡ true
      → dispatch p i h n ≡ enqueue_received i (some p) n
  unfolding dispatch on_data
  dispatch-data p i h n syn ack type (inl e) any = rw (e, syn, ack, any, on_data, type) refl
  dispatch-data p i h n syn ack type (inr e) any = rw (e, syn, ack, any, on_data, type) refl

  -- danp_recv_from on a datagram socket, with nothing to wait for.
  pub recv_from-taken :
      (await : Node o → Node o) (j max_len p : ℕ) (n k : Node o)
      → (socket_at n j).type ≡ dgram
      → take_received j (await n) ≡ some (some p, k)
      → recv_from await j max_len n
        ≡ some (
          pos (copy_length dgram max_len (packet_at k p)),
          some (deliver max_len (packet_at k p)),
          free (some p) k,
        )
  unfolding recv_from
  recv_from-taken await j max_len p n k t r = rw (recv_from, t, r, recv_from) refl

  -- The node takes a datagram of `len` bytes from the interface `iface` with this header: it is for
  -- the interface, the socket `j` is found for it, a datagram socket in use with an empty queue
  -- `q`, and `slot` is the next packet to be had.
  pub record CanReceive (n : Node o) (iface slot j len : ℕ) (h : Header) (q : o.Mq (Option ℕ))
      : Type 0 where
    pub lock : o.mutex_lock socket_mutex ≡ true
    pub pool : IsPool n.pool
    pub packet : (allocate n).0 ≡ some slot
    pub array : IsPacket (packet_at n slot)
    pub address : h.dst ≡ (interface_at n.routing iface).address
    pub flags : h.flags ≡ 0
    pub found : find_socket n h.dst_port h.src h.src_port ≡ some j
    pub in_range : j < length n.socket_pool
    pub type : (socket_at n j).type ≡ dgram
    pub state : ((socket_at n j).state ≡ open_state) ⊎ ((socket_at n j).state ≡ established)
    pub queue : (socket_at n j).rx_queue ≡ some q
    pub waiting : o.contents q ≡ []
    pub room : 0 < o.places q
    pub any : 0 < len

  module _ (n : Node o) (iface slot : ℕ) (pkt : Packet) where
    module _ (j : ℕ) (q : o.Mq (Option ℕ)) where
      CanReceive-Takes :
          CanReceive n iface slot j pkt.length (unpack_header pkt.header_raw) q
          → Takes n iface slot j (unpack_header pkt.header_raw)
      CanReceive-Takes v = record {
        lock = v.lock;
        pool = v.pool;
        packet = v.packet;
        array = v.array;
        address = v.address;
        plain = ground (arith, v.flags);
        found = v.found;
      }

      input-queued :
          CanReceive n iface slot j pkt.length (unpack_header pkt.header_raw) q
          → IsPacket pkt
          → input iface (packet_bytes pkt) n
            ≡ some (enqueue_received j (some slot) (filled_node n iface slot pkt))
      input-queued v w =
          let t = CanReceive-Takes v in
          let any : ltb 0 (packet_at (filled_node n iface slot pkt) slot).length ≡ true =
            rw (filled_node-length n iface slot pkt j t w) (ground (arith, v.any)) in
          input-dispatch n iface slot pkt j t w
          ∙ ap some (
              dispatch-data slot j (unpack_header pkt.header_raw) (filled_node n iface slot pkt)
                (unfold has in rw (v.flags) refl) (unfold has in rw (v.flags) refl) v.type v.state
                any)

      -- The datagram is queued, and danp_recv_from takes it.
      pub receive-datagram :
          (max_len : ℕ)
          → IsOsal o
          → CanReceive n iface slot j pkt.length (unpack_header pkt.header_raw) q
          → IsPacket pkt
          → (m : Node o) × (input iface (packet_bytes pkt) n ≡ some m)
            × ((k : Node o) × (recv_from (λ t. t) j max_len m
                  ≡ some (
                    pos (copy_length dgram max_len (got n iface slot pkt)),
                    some (deliver max_len (got n iface slot pkt)),
                    k,
                  )))
      receive-datagram max_len os v w =
          let (q', sent, held, _) = os.send_room q (some slot) (rw (v.waiting) v.room) in
          let full : o.contents q' ≡ some slot ∷ [] =
            held ∙ ap (λ t. t ++ some slot ∷ []) v.waiting in
          let (q'', taken, _, _) = os.receive_oldest q' (some slot) [] full in
          let s : Socket o = record (socket_at (filled_node n iface slot pkt) j) {
            rx_queue = some q';
          } in
          let m : Node o = put_socket (filled_node n iface slot pkt) j s in
          let now : socket_at m j ≡ s =
            get_or-set_self n.socket_pool j s (blank_socket o) v.in_range in
          let type : (socket_at m j).type ≡ dgram = ap (λ (x : Socket o). x.type) now ∙ v.type in
          let queue : (socket_at m j).rx_queue ≡ some q' = ap (λ (x : Socket o). x.rx_queue) now in
          let k : Node o = put_socket m j (record (socket_at m j) { rx_queue = some q'' }) in
          let done =
            recv_from-taken (λ t. t) j max_len slot m k type
              (take_received-waiting j (some slot) m q' q'' queue taken) in
          (
            m,
            input-queued v w
                ∙ ap some
                    (enqueue_received-room j slot (filled_node n iface slot pkt) q q' v.queue sent),
            (
              free (some slot) k,
              subst
                  (λ (x : Packet).
                    recv_from (λ t. t) j max_len m
                    ≡ some (
                      pos (copy_length dgram max_len x),
                      some (deliver max_len x),
                      free (some slot) k,
                    ))
                  (filled_node-got n iface slot pkt j (CanReceive-Takes v) w) done,
            ),
          )
