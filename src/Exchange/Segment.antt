-- ===== src/Exchange/Segment.antt =====
-- danp_send on a stream: the segment that it hands to the driver, and its return on a signal.
use danp.Prelude.{
  ℕ, suc, ◌-◌, ◌≤◌, ◌≡◌, refl, ap, true, false, List, ◌∷◌, none, some, arith, ℤ, length, ltb,
}
use danp.Types.{Packet, stream, flag_none, max_packet_size}
use danp.Osal.{Osal}
use danp.Node.{Node, socket_at, allocate, free, transmit, send_packet}
use danp.Socket.Connect.{take_signal}
use danp.Socket.Transfer.{send_segment, send_loop, end_send, send}
use danp.Receive.{input}
use danp.Exchange.Peer.{ReachesPeer, to_peer, to_peer-handed}

module _ {o : Osal} where
  -- What a node does in a wait in which a driver hands it a frame.
  abbrev pub hears : (iface : ℕ) → List ℕ → ℕ → Node o → Node o
  hears iface frame k n = elim (input iface frame n) [ none ↦ n | some m ↦ m ]

  pub hears-taken :
      (iface : ℕ) (frame : List ℕ) (k : ℕ) (n m : Node o)
      → input iface frame n ≡ some m
      → hears iface frame k n ≡ m
  hears-taken iface frame k n m e = rw (hears, e) refl

  -- The node once it has sent the segment.
  abbrev pub after_segment : Node o → (i : ℕ) → List ℕ → (slot : ℕ) → Node o
  after_segment n i bytes slot = send_segment i bytes slot (allocate n).1

  -- The segment.
  abbrev pub segment : Node o → (i : ℕ) → List ℕ → (slot : ℕ) → Packet
  segment n i bytes slot = to_peer n i flag_none ((socket_at n i).tx_seq ∷ bytes) slot

  pub after_segment-sockets :
      (n : Node o) (i : ℕ) (bytes : List ℕ) (slot : ℕ)
      → (after_segment n i bytes slot).socket_pool ≡ n.socket_pool
  unfolding send_segment allocate send_packet free transmit
  after_segment-sockets n i bytes slot = refl

  pub after_segment-sent :
      (n : Node o) (i : ℕ) (bytes : List ℕ) (slot out : ℕ) (tx : Packet → ℤ)
      → ReachesPeer n i (suc (length bytes)) slot out tx
      → (after_segment n i bytes slot).sent ≡ (out, segment n i bytes slot) ∷ n.sent
  unfolding send_segment allocate
  after_segment-sent n i bytes slot out tx v =
      to_peer-handed n i flag_none ((socket_at n i).tx_seq ∷ bytes) slot out tx v

  send_loop-signal :
      (await : ℕ → Node o → Node o) (i : ℕ) (bytes : List ℕ) (n m : Node o) (slot : ℕ)
      → (allocate n).0 ≡ some slot
      → take_signal i (await 0 (after_segment n i bytes slot)) ≡ some m
      → send_loop await i bytes 1 0 0 n ≡ some (true, m)
  unfolding send_loop
  send_loop-signal await i bytes n m slot e t = rw (e, send_loop, t) refl

  -- danp_send, where the signal comes in its first wait.
  pub send-signal :
      (await : ℕ → Node o → Node o) (i : ℕ) (bytes : List ℕ) (n m : Node o) (slot : ℕ)
      → (socket_at n i).type ≡ stream
      → length bytes ≤ 127
      → (allocate n).0 ≡ some slot
      → take_signal i (await 0 (after_segment n i bytes slot)) ≡ some m
      → send await 1 i bytes n ≡ end_send i bytes (some (true, m))
  unfolding send
  send-signal await i bytes n m slot type short e t =
      let fits : ltb (max_packet_size - 1) (length bytes) ≡ false = ground arith in
      rw (send, fits, type, send)
        (ap (end_send i bytes) (send_loop-signal await i bytes n m slot e t))
