-- ===== src/Exchange/Reception.antt =====
-- danp_input on the bytes of a packet that another node sent, up to the branch of the handler.
use danp.Prelude.{
  ℕ, List, take, ◌≡◌, refl, ap, ◌∙◌, true, false, some, arith, length, set, ltb, ◌==◌,
  get_or-set_self, ==_iff,
}
use danp.Types.{Packet, blank_packet, flag_rst, header_size, u16}
use danp.Osal.{Osal, socket_mutex}
use danp.Buffer.Laws.{IsPool}
use danp.Header.{Header, unpack_header}
use danp.Node.{Node, packet_at, allocate}
use danp.Node.Traffic.{allocate-taken}
use danp.Route.{interface_at}
use danp.Socket.Find.{find_socket}
use danp.Socket.Input.{input_handler, handle, dispatch}
use danp.Socket.Transfer.Chunks.{Holds}
use danp.Receive.{route_received, input}
use danp.Driver.{packet_bytes}
use danp.Driver.Delivery.{IsPacket, refill-packet_bytes, packet_bytes-length}
use danp.Driver.Refill.{refill, fill_packet-refill}

module _ {o : Osal} where
  -- The node takes a packet with this header from the interface `iface`: it is for the interface,
  -- no RST, the socket `j` is found for it, and `slot` is the next packet to be had.
  pub record Takes (n : Node o) (iface slot j : ℕ) (h : Header) : Type 0 where
    pub lock : o.mutex_lock socket_mutex ≡ true
    pub pool : IsPool n.pool
    pub packet : (allocate n).0 ≡ some slot
    pub array : IsPacket (packet_at n slot)
    pub address : h.dst ≡ (interface_at n.routing iface).address
    pub plain : (h.flags == flag_rst) ≡ false
    pub found : find_socket n h.dst_port h.src h.src_port ≡ some j

  module _ (n : Node o) (iface slot : ℕ) (pkt : Packet) where
    -- The packet of the pool that `danp_input` fills, and the node with it.
    abbrev pub got : Packet
    got = refill iface (packet_bytes pkt) (packet_at n slot)

    abbrev pub filled_node : Node o
    filled_node = record n {
      pool = record {
        packets = set n.pool.packets slot got;
        free_map = set n.pool.free_map slot false;
      };
    }

    module _ (j : ℕ) (v : Takes n iface slot j (unpack_header pkt.header_raw))
        (w : IsPacket pkt) where
      pub filled_node-got : packet_at filled_node slot ≡ got
      filled_node-got =
          get_or-set_self n.pool.packets slot got blank_packet
            (allocate-taken n slot v.pool v.packet).0

      pub filled_node-length : (packet_at filled_node slot).length ≡ pkt.length
      filled_node-length =
          ap (λ (x : Packet). x.length) filled_node-got
          ∙ (refill-packet_bytes iface pkt (packet_at n slot) w v.array).1

      filled_node-header : (packet_at filled_node slot).header_raw ≡ pkt.header_raw
      filled_node-header =
          ap (λ (x : Packet). x.header_raw) filled_node-got
          ∙ (refill-packet_bytes iface pkt (packet_at n slot) w v.array).0

      pub filled_node-Holds :
          (payload : List ℕ) → Holds pkt payload → Holds (packet_at filled_node slot) payload
      filled_node-Holds payload h =
          let (_, _, bytes, _) = refill-packet_bytes iface pkt (packet_at n slot) w v.array in
          record {
            length = filled_node-length ∙ h.length;
            bytes = ap (λ (x : Packet). take x.length x.payload) filled_node-got ∙ bytes ∙ h.bytes;
          }

      input-routed : input iface (packet_bytes pkt) n ≡ some (route_received iface slot filled_node)
      unfolding input
      input-routed =
          let size = packet_bytes-length pkt w in
          let (r, e) = allocate-taken n slot v.pool v.packet in
          let long : ltb (u16 (length (packet_bytes pkt))) header_size ≡ false =
            ground (arith, size, w.fits) in
          let filled =
            fill_packet-refill iface (packet_bytes pkt) (packet_at n slot) (omega (arith, size))
              (omega (arith, size, w.fits)) in
          rw (long, v.packet, input, e, filled, e) refl

      route_received-dispatch :
          route_received iface slot filled_node
          ≡ dispatch slot j (unpack_header pkt.header_raw) filled_node
      route_received-dispatch =
          let h = unpack_header pkt.header_raw in
          let raw = filled_node-header in
          let here : (h.dst == (interface_at n.routing iface).address) ≡ true =
            (==_iff _ _).1 v.address in
          let found : find_socket filled_node h.dst_port h.src h.src_port ≡ some j =
            unfold find_socket in v.found in
          let addressed : route_received iface slot filled_node ≡ input_handler slot filled_node =
            unfold route_received in rw (raw, here) refl in
          let locked : input_handler slot filled_node ≡ handle slot filled_node =
            unfold input_handler in rw (v.lock) refl in
          let dispatched : handle slot filled_node ≡ dispatch slot j h filled_node =
            unfold handle in rw (raw, v.plain, found, handle, raw) refl in
          addressed ∙ locked ∙ dispatched

      -- danp_input hands the packet to the branches of the handler for the socket.
      pub input-dispatch :
          input iface (packet_bytes pkt) n
          ≡ some (dispatch slot j (unpack_header pkt.header_raw) filled_node)
      input-dispatch = input-routed ∙ ap some route_received-dispatch
