-- ===== src/Driver.antt =====
-- src/drivers: what the loopback, radio and ZMQ drivers put on their medium for a packet, and what
-- they hand to `danp_input`. The message queue, the radio and the ZMQ sockets are not in the
-- sources; a frame is the bytes that cross them.
pub mod Refill
pub mod Delivery
pub mod Setup
use danp.Prelude.{
  ℕ, ◌+◌, ◌-◌, ◌*◌, ◌/◌, ◌%◌, ◌^◌, Bool, List, [], ◌∷◌, ◌++◌, Option, none, some, ltb, ◌==◌,
  if◌then◌else◌, length, take, ℤ, pos, negsuc, minus_one,
}
use danp.Types.{Packet, max_packet_size}
use danp.Osal.{Osal}
use danp.Node.{Node}
use danp.Receive.{word_bytes, input}

-- The first bytes of a `danp_packet_t`: the header word, and as much of the payload as is in use.
-- The radio transmits them, and the loopback's copy of the packet is read so.
unfoldable pub packet_bytes : Packet → List ℕ
unfolding word_bytes
packet_bytes pkt = word_bytes pkt.header_raw ++ take pkt.length pkt.payload

-- `danp_zmq_tx`: the topic, which is the destination node in two bytes, and the buffer. A packet
-- longer than the buffer is written past its end: `none`.
unfoldable pub zmq_tx : Packet → Option (List ℕ × List ℕ)
unfolding packet_bytes
zmq_tx pkt =
    let topic = pkt.header_raw / 2 ^ 22 % 2 ^ 8 in
    if ltb max_packet_size pkt.length
    then none
    else some (topic % 2 ^ 8 ∷ topic / 2 ^ 8 ∷ [], packet_bytes pkt)

-- `danp_radio_tx`: the results of radio_ctrl_transmit and radio_ctrl_listen, the second asked for
-- only if the first is not negative.
unfoldable pub radio_tx : (transmitted listening : ℤ) → ℤ
radio_tx (negsuc e) listening = negsuc e
radio_tx (pos t) listening = listening

module _ {o : Osal} where
  -- A round of `danp_lo_rx_routine` on a packet from the queue.
  unfoldable pub lo_receive : (iface : ℕ) → Packet → Node o → Option (Node o)
  lo_receive iface pkt n = input iface (packet_bytes pkt) n

  -- A round of `danp_radio_rx_routine`: nothing where the result is not positive.
  unfoldable pub radio_receive : (iface : ℕ) → List ℕ → Node o → Option (Node o)
  radio_receive iface frame n = if ltb 0 (length frame) then input iface frame n else some n

  -- A round of `danp_zmq_rx_routine`.
  unfoldable pub zmq_receive : (iface : ℕ) → List ℕ → Node o → Option (Node o)
  zmq_receive iface frame n = if ltb (length frame) 4 then some n else input iface frame n
