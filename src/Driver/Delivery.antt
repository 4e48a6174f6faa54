-- ===== src/Driver/Delivery.antt =====
-- danp_input and fill_packet of src/danp.c on the frames of the drivers.
use danp.Prelude.{
  ℕ, ◌+◌, ◌^◌, ◌≤◌, ◌<◌, ◌≡◌, ◌↔◌, refl, ap, ◌∙◌, List, ◌++◌, none, some, arith, length, take, blit,
  drop, length-blit, ltb, length-take, take-drop-blit, Bool-cases, Option-cases, inl, inr, false,
}
use danp.Types.{Packet, header_size, max_packet_size, u16}
use danp.Osal.{Osal}
use danp.Node.{Node, allocate, packet_at}
use danp.Receive.{word_bytes, bytes_word, fill_packet, input}
use danp.Driver.{packet_bytes}
use danp.Driver.Refill.{refill, fill_packet-refill, fill_packet-none}

-- A header word survives the copy to bytes and back.
bytes_word-word_bytes :
    (w : ℕ) (xs : List ℕ) → w < 2 ^ 32 → bytes_word (take 4 (word_bytes w ++ xs)) ≡ w
unfolding bytes_word word_bytes
bytes_word-word_bytes w xs h = omega arith

-- A packet that fits its array: what the drivers are handed.
pub record IsPacket (pkt : Packet) : Type 0 where
  pub header : pkt.header_raw < 2 ^ 32
  pub fits : pkt.length ≤ max_packet_size
  pub array : length pkt.payload ≡ max_packet_size

-- Filled from the bytes that a driver sent for a packet, it has that packet's header word, length and
-- bytes in use.
pub refill-packet_bytes :
    (iface : ℕ) (pkt old : Packet)
    → IsPacket pkt
    → IsPacket old
    → let got = refill iface (packet_bytes pkt) old in
      (got.header_raw ≡ pkt.header_raw)
      × (got.length ≡ pkt.length)
      × (take got.length got.payload ≡ take pkt.length pkt.payload)
      × (got.rx_interface ≡ some iface)
unfolding refill packet_bytes
refill-packet_bytes iface pkt old v w =
    let used : List ℕ = take pkt.length pkt.payload in
    let size : length used ≡ pkt.length =
      omega (arith, length-take pkt.length pkt.payload, v.fits, v.array) in
    let same : (refill iface (packet_bytes pkt) old).length ≡ length used = omega arith in
    (
      bytes_word-word_bytes pkt.header_raw (take pkt.length pkt.payload) v.header,
      same ∙ size,
      ap (λ k. take k (blit old.payload 0 used)) same
          ∙ take-drop-blit old.payload 0 used (omega (arith, size, w.array, v.fits)),
      refl,
    )

-- It is again such a packet.
pub refill-IsPacket :
    (iface : ℕ) (pkt old : Packet)
    → IsPacket pkt
    → IsPacket old
    → IsPacket (refill iface (packet_bytes pkt) old)
unfolding refill
refill-IsPacket iface pkt old v w =
    let (header, size, _, _) = refill-packet_bytes iface pkt old v w in
    record {
      header = omega (arith, header, v.header);
      fits = omega (arith, size, v.fits);
      array = length-blit old.payload 0 (drop 4 (packet_bytes pkt)) ∙ w.array;
    }

pub packet_bytes-length : (pkt : Packet) → IsPacket pkt → length (packet_bytes pkt) ≡ 4 + pkt.length
unfolding packet_bytes word_bytes
packet_bytes-length pkt v = omega (arith, length-take pkt.length pkt.payload, v.fits, v.array)

-- From the bytes that a driver sent for a packet, `danp_input` fills a packet without a fault, and it
-- has the same header word, the same length, and the same bytes in use, whatever the slot held
-- before.
pub fill_packet-packet_bytes :
    (iface : ℕ) (pkt old : Packet)
    → IsPacket pkt
    → IsPacket old
    → (got : Packet) × (fill_packet iface (packet_bytes pkt) (u16 (length (packet_bytes pkt))) old
        ≡ some got)
      × (got.header_raw ≡ pkt.header_raw)
      × (got.length ≡ pkt.length)
      × (take got.length got.payload ≡ take pkt.length pkt.payload)
      × (got.rx_interface ≡ some iface)
fill_packet-packet_bytes iface pkt old v w =
    let size = packet_bytes-length pkt v in
    let (header, len, bytes, from) = refill-packet_bytes iface pkt old v w in
    (
      refill iface (packet_bytes pkt) old,
      fill_packet-refill iface (packet_bytes pkt) old (omega (arith, size))
          (omega (arith, size, v.fits)),
      header,
      len,
      bytes,
      from,
    )

module _ {o : Osal} where
  input-overflow :
      (iface : ℕ) (raw : List ℕ) (n : Node o)
      → length raw < 2 ^ 16
      → input iface raw n ≡ none
      → (header_size + max_packet_size < length raw) × ((p : ℕ) × ((allocate n).0 ≡ some p))
  unfolding input
  input-overflow iface raw n small h = elim (Bool-cases (ltb (u16 (length raw)) header_size)) [
    | inl short ↦ absurd (ground arith)
    | inr long ↦ elim (Option-cases (allocate n).0) [
      | inl e ↦ absurd (ground arith)
      | inr (p, e) ↦ elim (Bool-cases (ltb (header_size + max_packet_size) (length raw))) [
        | inl over ↦ (ground arith, (p, e))
        | inr fits ↦
            let done =
              fill_packet-refill iface raw (packet_at (allocate n).1 p) (ground arith)
                (ground arith) in
            absurd (cc (rw (input, long, e, input, done) at h))
      ]
    ]
  ]

  input-overflows :
      (iface : ℕ) (raw : List ℕ) (n : Node o)
      → length raw < 2 ^ 16
      → (header_size + max_packet_size < length raw) × ((p : ℕ) × ((allocate n).0 ≡ some p))
      → input iface raw n ≡ none
  unfolding input
  input-overflows iface raw n small (over, (p, e)) =
      let long : ltb (u16 (length raw)) header_size ≡ false = ground arith in
      let fault = fill_packet-none iface raw (packet_at (allocate n).1 p) over small in
      rw (long, e, input, fault) refl

  -- `danp_input`, on a frame of less than 65536 bytes, makes an undefined copy exactly on a frame of
  -- more than 132 bytes for which there is a packet in the pool. On every other frame it returns; in
  -- particular no length below 4 wraps round.
  pub input-overflow_iff :
      (iface : ℕ) (raw : List ℕ) (n : Node o)
      → length raw < 2 ^ 16
      → (input iface raw n ≡ none)
        ↔ ((header_size + max_packet_size < length raw) × ((p : ℕ) × ((allocate n).0 ≡ some p)))
  input-overflow_iff iface raw n small =
      (input-overflow iface raw n small, input-overflows iface raw n small)
