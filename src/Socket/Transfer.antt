-- ===== src/Socket/Transfer.antt =====
-- danp_send, danp_send_to, danp_recv and danp_recv_from.
-- `await k` is what the other threads do to the node during the k-th wait of the call. `bytes` is
-- the caller's data, its length the argument `len`; a received text is what is copied to `buffer`.
pub mod Reliable
pub mod Chunks
pub mod Received
use danp.Prelude.{
  ℕ, zero, suc, ◌+◌, ◌-◌, Bool, true, false, not, List, [], ◌∷◌, Option, none, some, ℤ, pos,
  minus_one, leb, ltb, ◌==◌, if◌then◌else◌, length, take, drop,
}
use danp.Types.{SocketType, dgram, stream, Packet, flag_none, max_packet_size, retry_limit, u8}
use danp.Osal.{Osal, route_mutex, buffer_mutex}
use danp.Header.{pack_header, unpack_header}
use danp.Node.{
  Socket, Node, socket_at, put_socket, packet_at, socket_header, allocate, free, send_packet,
}
use danp.Socket.Find.{is_dgram}
use danp.Socket.Connect.{take_signal}

-- `copy_len` of the receiving functions: a stream's packet has its sequence number in front.
unfoldable pub copy_length : SocketType → (max_len : ℕ) → Packet → ℕ
copy_length dgram max_len pkt = if ltb max_len pkt.length then max_len else pkt.length
copy_length stream max_len pkt =
    if ltb 0 pkt.length
    then (if ltb max_len (pkt.length - 1) then max_len else pkt.length - 1)
    else 0

-- The bytes that are copied to the caller.
unfoldable pub copied : SocketType → (max_len : ℕ) → Packet → List ℕ
unfolding copy_length
copied dgram max_len pkt = take (copy_length dgram max_len pkt) pkt.payload
copied stream max_len pkt = take (copy_length stream max_len pkt) (drop 1 pkt.payload)

-- What `danp_recv_from` delivers: the bytes, and the sender's node and port.
pub record Delivery : Type 0 where
  pub bytes : List ℕ
  pub src_node : ℕ
  pub src_port : ℕ

unfoldable pub deliver : (max_len : ℕ) → Packet → Delivery
unfolding copied
deliver max_len pkt =
    let h = unpack_header pkt.header_raw in
    record { bytes = copied dgram max_len pkt; src_node = h.src; src_port = h.src_port }

module _ {o : Osal} where
  -- The datagram of `danp_send` and `danp_send_to`, to a given header.
  unfoldable pub send_datagram : (header_raw : ℕ) → List ℕ → Node o → ℤ × Node o
  send_datagram header_raw bytes n =
      let (slot, n') = allocate n in
      elim slot [
        | none ↦ (minus_one, n')
        | some p ↦ (pos (length bytes), send_packet p header_raw bytes n')
      ]

  -- A data packet of a stream: the sequence number and the data.
  unfoldable pub send_segment : ℕ → List ℕ → ℕ → Node o → Node o
  send_segment i bytes p n =
      let s = socket_at n i in send_packet p (socket_header s flag_none) (s.tx_seq ∷ bytes) n

  -- The loop of `danp_send`. Without a packet it waits and goes round again, and counts no retry;
  -- `none` is a call that has not returned when the fuel is used up. `k` counts the waits.
  unfoldable pub send_loop :
      (ℕ → Node o → Node o) → ℕ → List ℕ → (fuel k retries : ℕ) → Node o → Option (Bool × Node o)
  unfolding send_segment
  send_loop await i bytes zero k retries n =
      if ltb retries retry_limit then none else some (false, n)
  send_loop await i bytes (suc fuel) k retries n =
      let (slot, n') = allocate n in
      let stalled = send_loop await i bytes fuel (k + 1) retries (await k n') in
      elim (ltb retries retry_limit) [
        | false ↦ some (false, n)
        | true ↦ elim slot [
          | none ↦ stalled
          | some p ↦
              let waited = await k (send_segment i bytes p n') in
              elim (take_signal i waited) [
                | some n'' ↦ some (true, n'')
                | none ↦ send_loop await i bytes fuel (k + 1) (retries + 1) waited
              ]
        ]
      ]

  -- What follows the loop.
  unfoldable pub end_send : ℕ → List ℕ → Option (Bool × Node o) → Option (ℤ × Node o)
  end_send i bytes none = none
  end_send i bytes (some (true, n)) = some (
    pos (length bytes),
    put_socket n i (record (socket_at n i) { tx_seq = u8 ((socket_at n i).tx_seq + 1) }),
  )
  end_send i bytes (some (false, n)) = some (minus_one, n)

  unfoldable pub send : (ℕ → Node o → Node o) → (fuel i : ℕ) → List ℕ → Node o → Option (ℤ × Node o)
  unfolding send_datagram send_loop end_send
  send await fuel i bytes n =
      if ltb (max_packet_size - 1) (length bytes)
      then some (minus_one, n)
      else elim (socket_at n i).type [
        | dgram ↦ some (send_datagram (socket_header (socket_at n i) flag_none) bytes n)
        | stream ↦ end_send i bytes (send_loop await i bytes fuel 0 0 n)
      ]

  -- `danp_send_to`. The length is tested after the type.
  unfoldable pub send_to : ℕ → List ℕ → (dst_node dst_port : ℕ) → Node o → ℤ × Node o
  unfolding send_datagram
  send_to i bytes dst_node dst_port n =
      let s = socket_at n i in
      let header = pack_header 0 dst_node s.local_node (u8 dst_port) (u8 s.local_port) flag_none in
      elim s.type [
        | stream ↦ (minus_one, n)
        | dgram ↦
            if ltb (max_packet_size - 1) (length bytes)
            then (minus_one, n)
            else send_datagram header bytes n
      ]

  -- osalMessageQueueReceive on the queue of received packets, after the wait.
  unfoldable pub take_received : ℕ → Node o → Option (Option ℕ × Node o)
  take_received i n = elim (socket_at n i).rx_queue [
    | none ↦ none
    | some q ↦ elim (o.mq_receive q) [
      | none ↦ none
      | some (p, q') ↦ some (p, put_socket n i (record (socket_at n i) { rx_queue = some q' }))
    ]
  ]

  -- `danp_recv`: the result, the bytes, and the node.
  unfoldable pub recv : (Node o → Node o) → (i max_len : ℕ) → Node o → ℤ × List ℕ × Node o
  unfolding take_received
  recv await i max_len n = elim (take_received i (await n)) [
    | none ↦ (pos 0, [], await n)
    | some (slot, n') ↦ elim slot [
      | none ↦ (pos 0, [], n')
      | some p ↦
          let type = (socket_at n' i).type in
          let pkt = packet_at n' p in
          (pos (copy_length type max_len pkt), copied type max_len pkt, free (some p) n')
    ]
  ]

  -- `danp_recv_from` on a datagram socket. The sender goes to `*src_node` and `*src_port`. The code
  -- does not test the packet for NULL: `none` stands for that fault.
  unfoldable pub recv_from :
      (Node o → Node o) → (i max_len : ℕ) → Node o → Option (ℤ × Option Delivery × Node o)
  unfolding take_received
  recv_from await i max_len n = elim (socket_at n i).type [
    | stream ↦ some (minus_one, none, n)
    | dgram ↦ elim (take_received i (await n)) [
      | none ↦ some (minus_one, none, await n)
      | some (slot, n') ↦ elim slot [
        | none ↦ none
        | some p ↦
            let pkt = packet_at n' p in
            some (pos (copy_length dgram max_len pkt), some (deliver max_len pkt), free (some p) n')
      ]
    ]
  ]
