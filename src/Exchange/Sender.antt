-- ===== src/Exchange/Sender.antt =====
-- danp_send_to: the packet that it hands to the driver.
use danp.Prelude.{
  ℕ, ◌+◌, ◌-◌, ◌%◌, ◌≤◌, ◌<◌, ◌≡◌, refl, ap, ◌∙◌, inl, inr, false, List, [], ◌∷◌, ◌++◌, some, arith,
  ℤ, pos, length, ltb, get_or-set_self,
}
use danp.Types.{Packet, blank_packet, dgram, u8, flag_none, header_size, max_packet_size}
use danp.Osal.{Osal, route_mutex}
use danp.Buffer.Laws.{IsPool}
use danp.Header.{pack_header}
use danp.Header.RoundTrip.{unpack-pack}
use danp.Node.{
  Node, Socket, socket_at, packet_at, put_packet, filled, allocate, free, transmit, send_packet,
}
use danp.Node.Traffic.{allocate-taken}
use danp.Route.{route_lookup, interface_at, route_tx}
use danp.Route.Transmit.{MaySend, route_tx_cases, route_tx-MaySend}
use danp.Socket.Transfer.{send_datagram, send_to}
use danp.Socket.Transfer.Chunks.{Holds, filled-Holds}

module _ {o : Osal} where
  -- The header of a datagram of a socket.
  abbrev pub datagram_header : Socket o → (dst_node dst_port : ℕ) → ℕ
  datagram_header s dst_node dst_port =
      pack_header 0 dst_node s.local_node (u8 dst_port) (u8 s.local_port) flag_none

  -- The node can send a datagram of `len` bytes to a node: the socket is a datagram socket, `slot`
  -- is the next packet to be had, and the routes lead to the driver `tx` of the interface `out`.
  pub record CanSend (n : Node o) (i dst_node len slot out : ℕ) (tx : Packet → ℤ) : Type 0 where
    pub type : (socket_at n i).type ≡ dgram
    pub pool : IsPool n.pool
    pub packet : (allocate n).0 ≡ some slot
    pub array : length (packet_at n slot).payload ≡ max_packet_size
    pub short : len ≤ max_packet_size - 1
    pub routed : route_lookup (o.mutex_lock route_mutex) n.routing (dst_node % 256) ≡ some out
    pub fits : len + header_size ≤ (interface_at n.routing out).mtu
    pub driver : (interface_at n.routing out).tx_func ≡ some tx

  send_packet-sent :
      (p header_raw : ℕ) (payload : List ℕ) (n : Node o)
      → (send_packet p header_raw payload n).sent
        ≡ (route_tx
            (o.mutex_lock route_mutex)
            n.routing
            (some (packet_at (put_packet n p (filled header_raw payload (packet_at n p))) p))).1
          ++ n.sent
  unfolding send_packet transmit free
  send_packet-sent p header_raw payload n = refl

  -- The packet filled in and sent is handed to the driver that its route leads to.
  pub send_packet-handed :
      (n : Node o) (slot header_raw : ℕ) (payload : List ℕ) (out : ℕ) (tx : Packet → ℤ)
      → IsPool n.pool
      → (allocate n).0 ≡ some slot
      → MaySend
          (o.mutex_lock route_mutex)
          n.routing
          (filled header_raw payload (packet_at n slot))
          out
          tx
      → (send_packet slot header_raw payload (allocate n).1).sent
        ≡ (out, filled header_raw payload (packet_at n slot)) ∷ n.sent
  send_packet-handed n slot header_raw payload out tx v packet m =
      let (r, e) = allocate-taken n slot v packet in
      let pkt : Packet = filled header_raw payload (packet_at n slot) in
      let there : packet_at (put_packet n slot pkt) slot ≡ pkt =
        get_or-set_self n.pool.packets slot pkt blank_packet r in
      send_packet-sent slot header_raw payload (allocate n).1
      ∙ rw (e, there)
          (ap (λ t. t ++ n.sent)
            (ap (λ (p : ℤ × List (ℕ × Packet)). p.1)
              (route_tx-MaySend (o.mutex_lock route_mutex) n.routing pkt out tx m)))

  module _ (n : Node o) (i dst_node dst_port slot out : ℕ) (tx : Packet → ℤ) (bytes : List ℕ) where
    -- The packet as it is sent.
    abbrev pub datagram : Packet
    datagram = filled (datagram_header (socket_at n i) dst_node dst_port) bytes (packet_at n slot)

    send_to-datagram :
        CanSend n i dst_node (length bytes) slot out tx
        → send_to i bytes dst_node dst_port n ≡ (
          pos (length bytes),
          send_packet slot (datagram_header (socket_at n i) dst_node dst_port) bytes (allocate n).1,
        )
    unfolding send_to send_datagram
    send_to-datagram v =
        let short : ltb (max_packet_size - 1) (length bytes) ≡ false = ground (arith, v.short) in
        rw (send_to, v.type, short, v.packet, send_datagram) refl

    datagram-MaySend :
        CanSend n i dst_node (length bytes) slot out tx
        → MaySend (o.mutex_lock route_mutex) n.routing datagram out tx
    datagram-MaySend v = record {
      routed =
          rw
            (unpack-pack 0 dst_node (socket_at n i).local_node (u8 dst_port)
              (u8 (socket_at n i).local_port) flag_none)
            v.routed;
      fits = v.fits;
      driver = v.driver;
    }

    -- danp_send_to hands the datagram to the driver, and returns its length.
    pub send_to-sent :
        CanSend n i dst_node (length bytes) slot out tx
        → ((send_to i bytes dst_node dst_port n).0 ≡ pos (length bytes))
          × ((send_to i bytes dst_node dst_port n).1.sent ≡ (out, datagram) ∷ n.sent)
    send_to-sent v = rw (send_to-datagram v) (
      refl,
      send_packet-handed n slot (datagram_header (socket_at n i) dst_node dst_port) bytes out tx
          v.pool v.packet (datagram-MaySend v),
    )

    pub datagram-Holds : CanSend n i dst_node (length bytes) slot out tx → Holds datagram bytes
    datagram-Holds v =
        filled-Holds (packet_at n slot) (datagram_header (socket_at n i) dst_node dst_port) bytes
          (omega (arith, v.short, v.array))

  -- Where every interface has at most the MTU that the drivers of the library set, 128, a datagram
  -- of 125 to 127 bytes, for which there is a packet, is handed to no driver; danp_send_to returns
  -- its length all the same.
  pub send_to_lost :
      (n : Node o) (i dst_node dst_port slot : ℕ) (bytes : List ℕ)
      → (socket_at n i).type ≡ dgram
      → IsPool n.pool
      → (allocate n).0 ≡ some slot
      → ((k : ℕ) → (interface_at n.routing k).mtu ≤ max_packet_size)
      → 124 < length bytes
      → length bytes ≤ 127
      → ((send_to i bytes dst_node dst_port n).0 ≡ pos (length bytes))
        × ((send_to i bytes dst_node dst_port n).1.sent ≡ n.sent)
  unfolding send_to send_datagram
  send_to_lost n i dst_node dst_port slot bytes type v packet mtu long short =
      let header : ℕ = datagram_header (socket_at n i) dst_node dst_port in
      let pkt : Packet = filled header bytes (packet_at n slot) in
      let (r, e) = allocate-taken n slot v packet in
      let there : packet_at (put_packet n slot pkt) slot ≡ pkt =
        get_or-set_self n.pool.packets slot pkt blank_packet r in
      let fits : ltb (max_packet_size - 1) (length bytes) ≡ false = ground arith in
      let lock = o.mutex_lock route_mutex in
      let unsent : (route_tx lock n.routing (some pkt)).1 ≡ [] =
        elim (route_tx_cases lock n.routing pkt) [
          | inr (_, f) ↦ rw f refl
          | inl (j, f, w, _) ↦ absurd (omega (arith, w.fits, mtu j))
        ] in
      rw (send_to, type, fits, packet, send_datagram)
        (
          refl,
          send_packet-sent slot header bytes (allocate n).1
              ∙ rw (e, there) (ap (λ t. t ++ n.sent) unsent),
        )
