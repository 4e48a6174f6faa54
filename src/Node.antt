-- ===== src/Node.antt =====
-- The static data of the library in one record: the sockets of src/danp_socket.c, the packet pool of
-- src/danp_buffer.c, the routing of src/danp_route.c, and `danp_config`; with the helpers that the
-- socket functions share.
-- A socket pointer is its index in `socket_pool`. `sent` lists the packets that were handed to a
-- driver, with the interface, newest first.
pub mod Traffic
use danp.Prelude.{
  ℕ, Bool, true, false, List, [], ◌∷◌, ◌++◌, Option, none, some, ℤ, set, get_or, replicate, blit,
}
use danp.Types.{
  Packet, blank_packet, SocketType, dgram, stream, SocketState, closed, has, flag_ack, u8,
}
use danp.Osal.{Osal, socket_mutex, route_mutex, buffer_mutex}
use danp.Header.{pack_header}
use danp.Buffer
use danp.Buffer.{Pool}
use danp.Route.{Routing, route_tx}

abbrev pub max_socket_count : ℕ
max_socket_count = 20

-- `danp_socket_t`. The queue of received packets holds packet pointers, NULL for a reset.
pub record Socket (o : Osal) : Type 0 where
  pub state : SocketState
  pub type : SocketType
  pub local_port : ℕ
  pub local_node : ℕ
  pub remote_node : ℕ
  pub remote_port : ℕ
  pub tx_seq : ℕ
  pub rx_expected_seq : ℕ
  pub rx_queue : Option (o.Mq (Option ℕ))
  pub accept_queue : Option (o.Mq ℕ)
  pub signal : Option o.Sem
  pub next : Option ℕ

pub record Node (o : Osal) : Type 0 where
  pub config_local_node : ℕ
  pub pool : Pool
  pub routing : Routing
  pub socket_pool : List (Socket o)
  pub socket_list : Option ℕ
  pub next_ephemeral_port : ℕ
  pub sent : List (ℕ × Packet)

-- Zeroed memory.
abbrev pub blank_socket : (o : Osal) → Socket o
blank_socket o = record {
  state = closed;
  type = dgram;
  local_port = 0;
  local_node = 0;
  remote_node = 0;
  remote_port = 0;
  tx_seq = 0;
  rx_expected_seq = 0;
  rx_queue = none;
  accept_queue = none;
  signal = none;
  next = none;
}

-- The packet that a sender has filled in.
abbrev pub filled : (header_raw : ℕ) → (payload : List ℕ) → Packet → Packet
filled header_raw payload pkt = record pkt {
  header_raw = header_raw;
  payload = blit pkt.payload 0 payload;
  length = danp.Prelude.length payload;
}

module _ {o : Osal} where
  abbrev pub socket_at : Node o → ℕ → Socket o
  socket_at n i = get_or n.socket_pool i (blank_socket o)

  abbrev pub put_socket : Node o → ℕ → Socket o → Node o
  put_socket n i s = record n { socket_pool = set n.socket_pool i s }

  abbrev pub packet_at : Node o → ℕ → Packet
  packet_at n p = get_or n.pool.packets p blank_packet

  abbrev pub put_packet : Node o → ℕ → Packet → Node o
  put_packet n p pkt = record n { pool = record (n.pool) { packets = set n.pool.packets p pkt } }

  -- `danp_buffer_allocate` and `danp_buffer_free` on the pool of the node.
  unfoldable pub allocate : Node o → Option ℕ × Node o
  allocate n =
      let (p, pool) = Buffer.allocate (o.mutex_lock buffer_mutex) n.pool in
      (p, record n { pool = pool })

  unfoldable pub free : Option ℕ → Node o → Node o
  free p n = record n { pool = Buffer.free (o.mutex_lock buffer_mutex) p n.pool }

  -- `danp_route_tx(pkt)`.
  unfoldable pub transmit : ℕ → Node o → ℤ × Node o
  transmit p n =
      let (ret, calls) = route_tx (o.mutex_lock route_mutex) n.routing (some (packet_at n p)) in
      (ret, record n { sent = calls ++ n.sent })

  -- The packet filled in, transmitted and given back, as every sender does.
  unfoldable pub send_packet : ℕ → (header_raw : ℕ) → (payload : List ℕ) → Node o → Node o
  unfolding transmit free
  send_packet p header_raw payload n =
      let ready = put_packet n p (filled header_raw payload (packet_at n p)) in
      free (some p) (transmit p ready).1

  -- `danp_pack_header` for a packet of a socket: ports are passed as `uint8_t`.
  abbrev pub socket_header : Socket o → ℕ → ℕ
  socket_header s flags =
      pack_header 0 s.remote_node s.local_node (u8 s.remote_port) (u8 s.local_port) flags
