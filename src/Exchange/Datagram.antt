-- ===== src/Exchange/Datagram.antt =====
-- A datagram on its whole way, from the caller of danp_send_to to the caller of danp_recv_from.
use danp.Prelude.{
  ℕ, ◌+◌, ◌-◌, ◌%◌, ◌^◌, ◌≤◌, ◌≡◌, refl, ap, sym, subst, ◌∙◌, List, ◌∷◌, Option, none, some, arith,
  ℤ, pos, length, take, length-blit,
}
use danp.Types.{Packet, dgram, u8, flag_none}
use danp.Osal.{Osal, IsOsal}
use danp.Header.{unpack_header}
use danp.Header.RoundTrip.{pack_header-lt, unpack-pack}
use danp.Node.{Node, socket_at, packet_at}
use danp.Socket.Transfer.{Delivery, copy_length, deliver, send_to, recv_from}
use danp.Socket.Transfer.Chunks.{Holds, copied-dgram}
use danp.Socket.Transfer.Received.{Fits, copied-bounds}
use danp.Receive.{input}
use danp.Driver.{packet_bytes}
use danp.Driver.Delivery.{IsPacket, refill-packet_bytes}
use danp.Driver.Refill.{refill}
use danp.Exchange.Sender.{datagram_header, CanSend, datagram, send_to-sent, datagram-Holds}
use danp.Exchange.Receiver.{CanReceive, receive-datagram}

-- What a reader gets of a datagram of the text `bytes` from a node and a port.
pub record Arrived (d : Delivery) (max_len : ℕ) (bytes : List ℕ) (node port : ℕ) : Type 0 where
  pub text : d.bytes ≡ take max_len bytes
  pub from_node : d.src_node ≡ node % 256
  pub from_port : d.src_port ≡ port % 64

module _ {o : Osal} where
  module _ (a b : Node o) (i dst_node dst_port slot out : ℕ) (tx : Packet → ℤ) (bytes : List ℕ)
      (v : CanSend a i dst_node (length bytes) slot out tx) where
    sent : Packet
    sent = datagram a i dst_node dst_port slot out tx bytes

    datagram-IsPacket : IsPacket sent
    unfolding sent
    datagram-IsPacket = record {
      header =
          pack_header-lt 0 dst_node (socket_at a i).local_node (u8 dst_port)
            (u8 (socket_at a i).local_port) flag_none;
      fits = omega (arith, v.short);
      array = length-blit (packet_at a slot).payload 0 bytes ∙ v.array;
    }

    module _ (iface max_len : ℕ) (old : Packet) (w : IsPacket old) where
      received : Packet
      received = refill iface (packet_bytes sent) old

      received-header : received.header_raw ≡ datagram_header (socket_at a i) dst_node dst_port
      unfolding received
      received-header =
          (refill-packet_bytes iface sent old datagram-IsPacket w).0 ∙ (unfold sent in refl)

      received-Holds : Holds received bytes
      unfolding received
      received-Holds =
          let (_, same_length, same_bytes, _) =
            refill-packet_bytes iface sent old datagram-IsPacket w in
          let h = datagram-Holds a i dst_node dst_port slot out tx bytes v in
          record {
            length = same_length ∙ (unfold sent in h.length);
            bytes = same_bytes ∙ (unfold sent in h.bytes);
          }

      received-Fits : Fits received
      unfolding received refill
      received-Fits = omega (
        arith,
        received-Holds.length,
        v.short,
        w.array,
        length-blit old.payload 0 (danp.Prelude.drop 4 (packet_bytes sent)),
      )

      received-Arrived :
          Arrived
            (deliver max_len received)
            max_len
            bytes
            (socket_at a i).local_node
            (socket_at a i).local_port
      unfolding deliver
      received-Arrived =
          let fields =
            unpack-pack 0 dst_node (socket_at a i).local_node (u8 dst_port)
              (u8 (socket_at a i).local_port) flag_none in
          record {
            text = copied-dgram max_len received bytes received-Holds;
            from_node = rw (received-header, fields) refl;
            from_port = rw (received-header, fields) (omega arith);
          }

      received-length :
          pos (copy_length dgram max_len received) ≡ pos (length (deliver max_len received).bytes)
      unfolding deliver
      received-length = ap pos (sym (copied-bounds dgram max_len received received-Fits).0)

    -- A datagram that danp_send_to of one node hands to its driver, and whose bytes the driver of
    -- another hands to danp_input, where a datagram socket in use is found for it, its queue empty
    -- and a packet to be had: danp_send_to returns the length and the driver gets one packet;
    -- danp_input returns; and danp_recv_from then returns the number of bytes that it copied, which
    -- are the sender's, cut to the reader's buffer, with the sender's node and port, cut to the
    -- eight and six bits that the header has for them.
    pub datagram_arrives :
        (j slot' iface max_len : ℕ) (q : o.Mq (Option ℕ))
        → IsOsal o
        → CanReceive b iface slot' j
            (length bytes)
            (unpack_header (datagram_header (socket_at a i) dst_node dst_port))
            q
        → let (ret, a') = send_to i bytes dst_node dst_port a in
          (pkt : Packet) × (ret ≡ pos (length bytes))
          × (a'.sent ≡ (out, pkt) ∷ a.sent)
          × ((m : Node o) × (input iface (packet_bytes pkt) b ≡ some m)
              × ((d : Delivery) × (k : Node o) × (recv_from (λ t. t) j max_len m
                    ≡ some (pos (length d.bytes), some d, k))
                  × Arrived d max_len bytes (socket_at a i).local_node (socket_at a i).local_port))
    datagram_arrives j slot' iface max_len q os w =
        let (ret, handed) = send_to-sent a i dst_node dst_port slot out tx bytes v in
        let old = packet_at b slot' in
        let (m, put_in, (k, got_out)) =
          receive-datagram b iface slot' (datagram a i dst_node dst_port slot out tx bytes) j q
            max_len os w (unfold sent in datagram-IsPacket) in
        (
          datagram a i dst_node dst_port slot out tx bytes,
          ret,
          handed,
          (
            m,
            put_in,
            (
              deliver max_len (received iface max_len old w.array),
              k,
              subst
                  (λ r.
                    recv_from (λ t. t) j max_len m
                    ≡ some (r, some (deliver max_len (received iface max_len old w.array)), k))
                  (received-length iface max_len old w.array) (unfold received sent in got_out),
              received-Arrived iface max_len old w.array,
            ),
          ),
        )
