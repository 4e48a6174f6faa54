-- ===== src/Driver/Refill.antt =====
-- fill_packet of src/danp.c on frames of 4 to 132 bytes, and on longer ones.
use danp.Prelude.{
  ℕ, ◌+◌, ◌-◌, ◌^◌, ◌≤◌, ◌<◌, ◌≡◌, refl, ap, sym, List, [], ◌∷◌, none, some, arith, length, take,
  take-all, blit, drop, ltb, Bool-cases, inl, inr, true, false,
}
use danp.Types.{Packet, header_size, max_packet_size, u16}
use danp.Receive.{word_bytes, bytes_word, memcpy, copy_payload, fill_packet}

-- The packet that `danp_input` leaves in a slot for a frame of 4 to 132 bytes, without the faults and
-- the wrap-around.
unfoldable pub refill : (iface : ℕ) → List ℕ → Packet → Packet
unfolding bytes_word
refill iface raw pkt = record {
  header_raw = bytes_word (take 4 raw);
  payload = blit pkt.payload 0 (drop 4 raw);
  length = length raw - 4;
  rx_interface = some iface;
}

blit-header :
    (w : ℕ) (raw : List ℕ) → 4 ≤ length raw → blit (word_bytes w) 0 (take 4 raw) ≡ take 4 raw
unfolding word_bytes
blit-header w [] h = absurd (omega arith)
blit-header w (a ∷ []) h = absurd (omega arith)
blit-header w (a ∷ b ∷ []) h = absurd (omega arith)
blit-header w (a ∷ b ∷ c ∷ []) h = absurd (omega arith)
blit-header w (a ∷ b ∷ c ∷ d ∷ raw) h = refl

memcpy-some :
    (size : ℕ) (dst src : List ℕ) (count : ℕ)
    → count ≤ size
    → count ≤ length src
    → memcpy size dst src count ≡ some (blit dst 0 (take count src))
unfolding memcpy
memcpy-some size dst src count fits read =
    let room : ltb size count ≡ false = ground arith in
    let there : ltb (length src) count ≡ false = ground arith in rw (room, there) refl

length-drop_four : (raw : List ℕ) → 4 ≤ length raw → length (drop 4 raw) ≡ length raw - 4
length-drop_four [] h = absurd (omega arith)
length-drop_four (a ∷ []) h = absurd (omega arith)
length-drop_four (a ∷ b ∷ []) h = absurd (omega arith)
length-drop_four (a ∷ b ∷ c ∷ []) h = absurd (omega arith)
length-drop_four (a ∷ b ∷ c ∷ d ∷ raw) h = omega arith

blit-nothing : (dst : List ℕ) → blit dst 0 [] ≡ dst
blit-nothing [] = refl
blit-nothing (x ∷ dst) = refl

length-zero : (xs : List ℕ) → length xs ≡ 0 → xs ≡ []
length-zero [] h = refl
length-zero (x ∷ xs) h = absurd (omega arith)

-- The copy of all bytes of a source that fits.
copy_payload-some :
    (payload src : List ℕ)
    → length src ≤ max_packet_size
    → copy_payload payload src (length src) ≡ some (blit payload 0 src)
unfolding copy_payload
copy_payload-some payload src fits = elim (Bool-cases (ltb 0 (length src))) [
  | inl e ↦
      rw (e, memcpy-some max_packet_size payload src (length src) fits (omega arith))
        (ap (λ (t : List ℕ). some (blit payload 0 t)) (take-all (length src) src (omega arith)))
  | inr e ↦
      let empty : src ≡ [] = length-zero src (ground arith) in
      rw (e, empty) (ap some (sym (blit-nothing payload)))
]

-- A payload of more than 128 bytes is copied past its array.
copy_payload-none :
    (payload src : List ℕ) (count : ℕ)
    → max_packet_size < count
    → copy_payload payload src count ≡ none
unfolding copy_payload memcpy
copy_payload-none payload src count over =
    let some_bytes : ltb 0 count ≡ true = ground arith in
    let long : ltb max_packet_size count ≡ true = ground arith in rw (some_bytes, long) refl

kept_length : (k : ℕ) → 4 ≤ k → k < 2 ^ 16 → u16 (u16 k + 2 ^ 16 - 4) ≡ k - 4
kept_length k l h = omega arith

pub fill_packet-refill :
    (iface : ℕ) (raw : List ℕ) (pkt : Packet)
    → header_size ≤ length raw
    → length raw ≤ header_size + max_packet_size
    → fill_packet iface raw (u16 (length raw)) pkt ≡ some (refill iface raw pkt)
unfolding fill_packet refill
fill_packet-refill iface raw pkt l h =
    let size = length-drop_four raw l in
    let kept : u16 (u16 (length raw) + 2 ^ 16 - 4) ≡ length raw - 4 =
      kept_length (length raw) l (omega (arith, h)) in
    let copied : copy_payload pkt.payload (drop 4 raw) (length raw - 4)
        ≡ some (blit pkt.payload 0 (drop 4 raw)) =
      rw⁻¹ size (copy_payload-some pkt.payload (drop 4 raw) (omega (arith, size, h))) in
    rw
      (
        memcpy-some 4 (word_bytes pkt.header_raw) raw 4 (omega arith) l,
        kept,
        copied,
        blit-header pkt.header_raw raw l,
      )
      refl

pub fill_packet-none :
    (iface : ℕ) (raw : List ℕ) (pkt : Packet)
    → header_size + max_packet_size < length raw
    → length raw < 2 ^ 16
    → fill_packet iface raw (u16 (length raw)) pkt ≡ none
unfolding fill_packet
fill_packet-none iface raw pkt over h =
    let kept : u16 (u16 (length raw) + 2 ^ 16 - 4) ≡ length raw - 4 =
      kept_length (length raw) (omega arith) h in
    rw
      (
        memcpy-some 4 (word_bytes pkt.header_raw) raw 4 (omega arith) (omega arith),
        kept,
        copy_payload-none pkt.payload (drop 4 raw) (length raw - 4) (omega arith),
      )
      refl
