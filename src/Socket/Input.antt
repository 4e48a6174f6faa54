-- ===== src/Socket/Input.antt =====
-- danp_socket_input_handler: what a received packet does to its socket, branch by branch.
pub mod Receiver
pub mod States
mod Steps
pub mod Handler
use danp.Prelude.{
  ℕ, ◌+◌, bit_or, Bool, true, false, not, ◌&&◌, ◌||◌, List, [], ◌∷◌, Option, none, some, ltb, ◌==◌,
  if◌then◌else◌, length, get_or,
}
use danp.Types.{
  SocketType, dgram, stream, SocketState, closed, syn_sent, syn_received, established, Packet, has,
  flag_syn, flag_ack, flag_rst, u8,
}
use danp.Osal.{Osal, socket_mutex}
use danp.Header.{Header, unpack_header}
use danp.Node.{Socket, Node, socket_at, put_socket, packet_at, free}
use danp.Socket.Find.{is_dgram, is_open, is_listening, find_socket}
use danp.Socket.Control.{send_control}
use danp.Socket.Create.{create, drain_packets}

unfoldable pub is_syn_sent : SocketState → Bool
is_syn_sent syn_sent = true
is_syn_sent s = false

unfoldable pub is_syn_received : SocketState → Bool
is_syn_received syn_received = true
is_syn_received s = false

unfoldable pub is_established : SocketState → Bool
is_established established = true
is_established s = false

-- ESTABLISHED or SYN_RECEIVED.
unfoldable pub is_connected : SocketState → Bool
unfolding is_established is_syn_received
is_connected s = is_established s || is_syn_received s

module _ {o : Osal} where
  -- osalMessageQueueSend on the queue of received packets, its result not looked at.
  unfoldable pub enqueue_received : ℕ → Option ℕ → Node o → Node o
  enqueue_received i p n = elim (socket_at n i).rx_queue [
    | none ↦ n
    | some q ↦ elim (o.mq_send q p) [
      | none ↦ n
      | some q' ↦ put_socket n i (record (socket_at n i) { rx_queue = some q' })
    ]
  ]

  -- osalSemaphoreGive on the signal of a socket.
  unfoldable pub give_signal : ℕ → Node o → Node o
  give_signal i n = elim (socket_at n i).signal [
    | none ↦ n
    | some sem ↦ put_socket n i (record (socket_at n i) { signal = some (o.sem_give sem) })
  ]

  -- flags == DANP_FLAG_RST
  unfoldable pub on_reset : ℕ → Option ℕ → Node o → Node o
  unfolding enqueue_received is_dgram
  on_reset p none n = free (some p) n
  on_reset p (some i) n =
      let s = socket_at n i in
      let closed_node = put_socket n i (record s { state = closed; local_port = 0 }) in
      free (some p) (if is_dgram s.type then n else enqueue_received i none closed_node)

  -- SYN on an active socket. A stream starts again from sequence number 0 with an empty queue.
  unfoldable pub clear_queue : ℕ → Option (o.Mq (Option ℕ)) → Node o → Node o
  unfolding drain_packets
  clear_queue i none n = n
  clear_queue i (some q) n =
      let (q', n') = drain_packets (length (o.contents q)) q n in
      put_socket n' i (record (socket_at n' i) { rx_queue = some q' })

  unfoldable pub restart : ℕ → Node o → Node o
  unfolding clear_queue is_dgram
  restart i n =
      let s = socket_at n i in
      let zeroed = put_socket n i (record s { tx_seq = 0; rx_expected_seq = 0 }) in
      if is_dgram s.type then n else clear_queue i s.rx_queue zeroed

  abbrev pub set_state : ℕ → SocketState → Node o → Node o
  set_state i st n = put_socket n i (record (socket_at n i) { state = st })

  unfoldable pub on_resync : ℕ → ℕ → Node o → Node o
  unfolding restart
  on_resync p i n =
      free (some p)
        (set_state i syn_received (send_control i (bit_or flag_ack flag_syn) 0 (restart i n)))

  -- SYN on a listening socket: a child socket for the peer goes to the accept queue.
  unfoldable pub adopt : (child dst_port src src_port : ℕ) → Node o → Node o
  adopt child dst_port src src_port n = put_socket n child (record (socket_at n child) {
    local_node = n.config_local_node;
    local_port = dst_port;
    remote_node = src;
    remote_port = src_port;
    state = syn_received;
  })

  unfoldable pub enqueue_accepted : ℕ → ℕ → Node o → Option (Node o)
  enqueue_accepted i child n = elim (socket_at n i).accept_queue [
    | none ↦ none
    | some q ↦ elim (o.mq_send q child) [
      | none ↦ none
      | some q' ↦ some (put_socket n i (record (socket_at n i) { accept_queue = some q' }))
    ]
  ]

  unfoldable pub on_connect_request : ℕ → ℕ → Header → Node o → Node o
  unfolding adopt enqueue_accepted
  on_connect_request p i h n =
      let (child, made) = create (socket_at n i).type n in
      elim child [
        | none ↦ free (some p) made
        | some c ↦
            let adopted = adopt c h.dst_port h.src h.src_port made in
            elim (enqueue_accepted i c adopted) [
              | none ↦ free (some p) (
                  put_socket adopted c
                    (record (socket_at adopted c) { state = closed; local_port = 0 }))
              | some queued ↦ free (some p) (send_control c (bit_or flag_ack flag_syn) 0 queued)
            ]
      ]

  -- ACK on a socket that sent SYN, and the final ACK on one that received it.
  unfoldable pub on_accepted : ℕ → ℕ → Node o → Node o
  unfolding give_signal
  on_accepted p i n =
      free (some p) (give_signal i (send_control i flag_ack 0 (set_state i established n)))

  unfoldable pub on_final_ack : ℕ → ℕ → Node o → Node o
  on_final_ack p i n = free (some p) (set_state i established n)

  -- The acknowledgement of a data packet.
  unfoldable pub on_data_ack : ℕ → ℕ → Node o → Node o
  unfolding give_signal is_dgram
  on_data_ack p i n =
      let s = socket_at n i in
      let acked_seq = get_or (packet_at n p).payload 0 0 in
      free (some p) (if not (is_dgram s.type) && acked_seq == s.tx_seq then give_signal i n else n)

  -- Data. A packet that is queued is not given back.
  unfoldable pub on_segment : ℕ → ℕ → Node o → Node o
  unfolding enqueue_received is_syn_received
  on_segment p i n =
      let seq = get_or (packet_at n p).payload 0 0 in
      let n1 = if is_syn_received (socket_at n i).state then set_state i established n else n in
      let s = socket_at n1 i in
      let counted = put_socket n1 i (record s { rx_expected_seq = u8 (s.rx_expected_seq + 1) }) in
      if seq == s.rx_expected_seq
      then enqueue_received i (some p) (send_control i flag_ack seq counted)
      else free (some p) (send_control i flag_ack seq n1)

  unfoldable pub on_data : ℕ → ℕ → Node o → Node o
  unfolding on_segment enqueue_received
  on_data p i n = elim (socket_at n i).type [
    | dgram ↦ enqueue_received i (some p) n
    | stream ↦ on_segment p i n
  ]

  -- The conditions of the handler in their order, for the socket that was found.
  unfoldable pub dispatch : ℕ → ℕ → Header → Node o → Node o
  unfolding is_connected is_listening is_syn_sent is_syn_received is_dgram is_open
  dispatch p i h n =
      let s = socket_at n i in
      let len = (packet_at n p).length in
      let syn = has h.flags flag_syn in
      let ack = has h.flags flag_ack in
      if is_connected s.state && syn
      then on_resync p i n
      else (if is_listening s.state && syn
          then on_connect_request p i h n
          else (if is_syn_sent s.state && ack
              then on_accepted p i n
              else (if is_syn_received s.state && (ack && not syn)
                  then on_final_ack p i n
                  else (if ack && (not syn && len == 1)
                      then on_data_ack p i n
                      else (if (is_connected s.state || (is_dgram s.type && is_open s.state))
                            && ltb 0 len
                          then on_data p i n
                          else free (some p) n)))))

  unfoldable pub handle : ℕ → Node o → Node o
  unfolding on_reset dispatch
  handle p n =
      let h = unpack_header (packet_at n p).header_raw in
      let found = find_socket n h.dst_port h.src h.src_port in
      if h.flags == flag_rst
      then on_reset p found n
      else elim found [ none ↦ free (some p) n | some i ↦ dispatch p i h n ]

  -- Without the lock the packet is neither handled nor given back.
  unfoldable pub input_handler : ℕ → Node o → Node o
  unfolding handle
  input_handler p n = if o.mutex_lock socket_mutex then handle p n else n
