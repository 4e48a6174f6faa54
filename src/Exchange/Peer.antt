-- ===== src/Exchange/Peer.antt =====
-- The packets that a connected socket sends to its peer.
use danp.Prelude.{
  refl, ℕ, ◌+◌, ◌%◌, ◌≤◌, ◌≡◌, ◌∙◌, List, [], ◌∷◌, some, arith, length, ℤ, length-blit,
}
use danp.Types.{Packet, stream, flag_ack, has, u8, header_size, max_packet_size}
use danp.Osal.{Osal, route_mutex}
use danp.Buffer.Laws.{IsPool}
use danp.Header.{Header, unpack_header}
use danp.Header.RoundTrip.{pack_header-lt, unpack-pack}
use danp.Node.{Node, Socket, socket_at, packet_at, socket_header, filled, allocate, send_packet}
use danp.Route.{route_lookup, interface_at}
use danp.Socket.Find.{is_dgram}
use danp.Socket.Control.{send_control, control_payload}
use danp.Socket.Transfer.Chunks.{Holds, filled-Holds}
use danp.Driver.Delivery.{IsPacket}
use danp.Exchange.Sender.{send_packet-handed}

module _ {o : Osal} where
  -- A socket of the node can send its peer a packet of `len` bytes: `slot` is the next packet to be
  -- had, and the routes lead to the driver `tx` of the interface `out`.
  pub record ReachesPeer (n : Node o) (i len slot out : ℕ) (tx : Packet → ℤ) : Type 0 where
    pub pool : IsPool n.pool
    pub packet : (allocate n).0 ≡ some slot
    pub array : length (packet_at n slot).payload ≡ max_packet_size
    pub short : len ≤ max_packet_size
    pub routed :
        route_lookup (o.mutex_lock route_mutex) n.routing ((socket_at n i).remote_node % 256)
        ≡ some out
    pub fits : len + header_size ≤ (interface_at n.routing out).mtu
    pub driver : (interface_at n.routing out).tx_func ≡ some tx

  -- The packet that the socket sends with these flags.
  abbrev pub to_peer : Node o → (i flags : ℕ) → List ℕ → (slot : ℕ) → Packet
  to_peer n i flags payload slot =
      filled (socket_header (socket_at n i) flags) payload (packet_at n slot)

  -- What its header says.
  abbrev pub peer_header : Socket o → ℕ → Header
  peer_header s flags = record {
    dst = s.remote_node % 256;
    src = s.local_node % 256;
    dst_port = u8 s.remote_port % 64;
    src_port = u8 s.local_port % 64;
    flags = flags % 8;
  }

  pub unpack-peer_header :
      (s : Socket o) (flags : ℕ) → unpack_header (socket_header s flags) ≡ peer_header s flags
  unpack-peer_header s flags =
      unpack-pack 0 s.remote_node s.local_node (u8 s.remote_port) (u8 s.local_port) flags

  module _ (n : Node o) (i flags : ℕ) (payload : List ℕ) (slot out : ℕ) (tx : Packet → ℤ)
      (v : ReachesPeer n i (length payload) slot out tx) where
    pub to_peer-Holds : Holds (to_peer n i flags payload slot) payload
    to_peer-Holds =
        filled-Holds (packet_at n slot) (socket_header (socket_at n i) flags) payload
          (omega (arith, v.short, v.array))

    pub to_peer-IsPacket : IsPacket (to_peer n i flags payload slot)
    to_peer-IsPacket = record {
      header =
          pack_header-lt 0 (socket_at n i).remote_node (socket_at n i).local_node
            (u8 (socket_at n i).remote_port) (u8 (socket_at n i).local_port) flags;
      fits = v.short;
      array = length-blit (packet_at n slot).payload 0 payload ∙ v.array;
    }

    -- It is handed to the driver.
    pub to_peer-handed :
        (send_packet slot (socket_header (socket_at n i) flags) payload (allocate n).1).sent
        ≡ (out, to_peer n i flags payload slot) ∷ n.sent
    to_peer-handed =
        send_packet-handed n slot (socket_header (socket_at n i) flags) payload out tx v.pool
          v.packet
          (record {
            routed = rw (unpack-peer_header (socket_at n i) flags) (v.routed);
            fits = v.fits;
            driver = v.driver;
          })

  -- A control packet is handed to the driver.
  pub send_control-handed :
      (n : Node o) (i flags seq : ℕ) (payload : List ℕ) (slot out : ℕ) (tx : Packet → ℤ)
      → control_payload (socket_at n i) flags seq ≡ payload
      → ReachesPeer n i (length payload) slot out tx
      → (send_control i flags seq n).sent ≡ (out, to_peer n i flags payload slot) ∷ n.sent
  unfolding send_control
  send_control-handed n i flags seq payload slot out tx e v =
      rw (v.packet, send_control, e) (to_peer-handed n i flags payload slot out tx v)

  -- The acknowledgement of a stream: its payload is the number.
  pub send_control-acknowledges :
      (n : Node o) (i seq slot out : ℕ) (tx : Packet → ℤ)
      → (socket_at n i).type ≡ stream
      → ReachesPeer n i 1 slot out tx
      → (send_control i flag_ack seq n).sent ≡ (out, to_peer n i flag_ack (seq ∷ []) slot) ∷ n.sent
  unfolding control_payload is_dgram has
  send_control-acknowledges n i seq slot out tx t v =
      send_control-handed n i flag_ack seq (seq ∷ []) slot out tx (rw t refl) v
