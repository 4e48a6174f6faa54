-- ===== src/Example/Dgram/Echo.antt =====
-- The echo server: what it answers to a datagram that waits for it.
use danp.Prelude.{
  ℕ, zero, suc, ◌%◌, ◌<◌, ◌≡◌, refl, ap, sym, subst, ◌∙◌, List, ◌∷◌, Option, some, ℤ, pos, arith,
  length, take,
}
use danp.Types.{Packet, dgram, u8, flag_none}
use danp.Osal.{Osal}
use danp.Header.{Header, unpack_header, pack_header}
use danp.Header.RoundTrip.{unpack-pack, fields-lt}
use danp.Node.{Node, socket_at, put_socket, packet_at, free}
use danp.Socket.Transfer.{Delivery, copy_length, deliver, send_to}
use danp.Socket.Transfer.Chunks.{Holds, copied-dgram}
use danp.Exchange.Receiver.{recv_from-taken}
use danp.Socket.Transfer.Received.{take_received-waiting}
use danp.Exchange.Sender.{CanSend, datagram, send_to-sent, datagram-Holds}
use danp.Example.{Waits}
use danp.Example.Dgram.{answer, echo_round, reply_size}

module _ {o : Osal} where
  -- The node after the wait, once the packet `p` was taken off the queue and given back.
  abbrev pub after_receive : Node o → (sock p : ℕ) → o.Mq (Option ℕ) → Node o
  after_receive n sock p q' =
      free (some p) (put_socket n sock (record (socket_at n sock) { rx_queue = some q' }))

  -- The answer to a delivery of some bytes is a datagram to its sender.
  answer-delivery :
      (w : Waits o) (sock : ℕ) (d : Delivery) (len : ℕ) (n : Node o)
      → 0 < len
      → answer w sock (pos len) (some d) n ≡ (send_to sock d.bytes d.src_node d.src_port n).1
  unfolding answer
  answer-delivery w sock d zero n h = absurd (omega arith)
  answer-delivery w sock d (suc len) n h = refl

  module _ (w : Waits o) (sock p : ℕ) (n : Node o) (bytes : List ℕ) (q q' : o.Mq (Option ℕ)) where
    abbrev pub waiting : Packet
    waiting = packet_at (w.receiving n) p

    abbrev pub sender : Header
    sender = unpack_header waiting.header_raw

    abbrev pub received : Node o
    received = after_receive (w.receiving n) sock p q'

    -- What the server receives.
    abbrev pub delivered : Delivery
    delivered = deliver reply_size waiting

    delivered-bytes : Holds waiting bytes → delivered.bytes ≡ take reply_size bytes
    unfolding deliver
    delivered-bytes h = copied-dgram reply_size waiting bytes h

    -- The length that danp_recv_from returns is positive, as the datagram is not empty.
    delivered-some :
        Holds waiting bytes → 0 < length bytes → 0 < copy_length dgram reply_size waiting
    unfolding copy_length
    delivered-some h some_bytes = ground (arith, h.length)

    echo_round-answers :
        (socket_at n sock).type ≡ dgram
        → (socket_at (w.receiving n) sock).rx_queue ≡ some q
        → o.mq_receive q ≡ some (some p, q')
        → Holds waiting bytes
        → 0 < length bytes
        → echo_round w sock n
          ≡ some (send_to sock delivered.bytes delivered.src_node delivered.src_port received).1
    unfolding echo_round
    echo_round-answers type queue first h some_bytes =
        let got =
          recv_from-taken w.receiving sock reply_size p n
            (put_socket (w.receiving n) sock
              (record (socket_at (w.receiving n) sock) { rx_queue = some q' }))
            type (take_received-waiting sock (some p) (w.receiving n) q q' queue first) in
        rw (got, echo_round)
          (ap some (
            answer-delivery w sock delivered (copy_length dgram reply_size waiting) received
              (delivered-some h some_bytes)))

    -- The header of the answer: the sender's address, and the server's own.
    answer-header :
        (local_node local_port : ℕ)
        → unpack_header
            (pack_header 0 sender.src local_node (u8 sender.src_port) (u8 local_port) flag_none)
          ≡ record {
            dst = sender.src;
            src = local_node % 256;
            dst_port = sender.src_port;
            src_port = local_port % 64;
            flags = 0;
          }
    answer-header local_node local_port =
        let (_, node, _, port) = fields-lt waiting.header_raw in
        unpack-pack 0 sender.src local_node (u8 sender.src_port) (u8 local_port) flag_none
        ∙ header-eq (omega (arith, node)) refl (omega (arith, port)) (omega arith)
      where
        header-eq :
            {a b c d e f g k : ℕ}
            → a ≡ b
            → c ≡ d
            → e ≡ f
            → g ≡ k
            → ◌≡◌ {A = Header}
                (record { dst = a; src = c; dst_port = e; src_port = g; flags = 0 })
                (record { dst = b; src = d; dst_port = f; src_port = k; flags = 0 })
        header-eq r s t u = cc (r, s, t, u)

    -- A datagram that waits first in the queue of the echo server's socket, when its danp_recv_from
    -- has waited, is not empty, and can be answered: the round returns, and hands one datagram to
    -- the driver, with the bytes that it received, cut to 63, addressed to the node and the port
    -- that they came from.
    pub echo_round_lem :
        (slot out : ℕ) (tx : Packet → ℤ)
        → (socket_at n sock).type ≡ dgram
        → (socket_at (w.receiving n) sock).rx_queue ≡ some q
        → o.mq_receive q ≡ some (some p, q')
        → Holds waiting bytes
        → 0 < length bytes
        → CanSend received sock sender.src (length (take reply_size bytes)) slot out tx
        → (k : Node o) × (reply : Packet) × (echo_round w sock n ≡ some k)
          × (k.sent ≡ (out, reply) ∷ (w.receiving n).sent)
          × Holds reply (take reply_size bytes)
          × (unpack_header reply.header_raw ≡ record {
            dst = sender.src;
            src = (socket_at received sock).local_node % 256;
            dst_port = sender.src_port;
            src_port = (socket_at received sock).local_port % 64;
            flags = 0;
          })
    unfolding deliver free
    echo_round_lem slot out tx type queue first h some_bytes v =
        let same = delivered-bytes h in
        let v' : CanSend received sock sender.src (length delivered.bytes) slot out tx =
          subst (λ (t : List ℕ). CanSend received sock sender.src (length t) slot out tx) (sym same)
            v in
        let reply = datagram received sock sender.src sender.src_port slot out tx delivered.bytes in
        let (_, handed) =
          send_to-sent received sock sender.src sender.src_port slot out tx delivered.bytes v' in
        let held =
          datagram-Holds received sock sender.src sender.src_port slot out tx delivered.bytes v' in
        (
          (send_to sock delivered.bytes sender.src sender.src_port received).1,
          reply,
          echo_round-answers type queue first h some_bytes,
          handed,
          subst (Holds reply) same held,
          answer-header (socket_at received sock).local_node (socket_at received sock).local_port,
        )
