-- ===== src/Socket/Transfer/Chunks.antt =====
-- The bytes that the sending functions write to a packet and the receiving functions copy out.
use danp.Prelude.{
  ℕ, get_or, zero, suc, ◌+◌, ◌-◌, ◌≤◌, ◌<◌, ◌≡◌, refl, ap, sym, ◌∙◌, List, [], ◌∷◌, Option, none,
  some, arith, length, take, drop, blit, min, ltb, if◌then◌else◌, length-take, length-blit,
  take-drop-blit, take-take, take-all, Bool-cases, inl, inr, true, subst,
}
use danp.Node.{filled}
use danp.Types.{Packet, dgram, stream}
use danp.Socket.Transfer.{copied}

-- A packet that holds this payload, written from the front of its array.
pub record Holds (pkt : Packet) (payload : List ℕ) : Type 0 where
  pub length : pkt.length ≡ danp.Prelude.length payload
  pub bytes : take pkt.length pkt.payload ≡ payload

-- The front of a payload, cut to the reader's buffer.
cut : ℕ → ℕ → ℕ
cut max_len len = if ltb max_len len then max_len else len

take-cut :
    (max_len len : ℕ) (xs bytes : List ℕ)
    → take len xs ≡ bytes
    → length bytes ≡ len
    → take (cut max_len len) xs ≡ take max_len bytes
unfolding cut
take-cut max_len len xs bytes e l = elim (Bool-cases (ltb max_len len)) [
  | inl short ↦
      let le : max_len ≤ len = ground arith in
      rw short (sym (take-take max_len len xs le) ∙ ap (take max_len) e)
  | inr whole ↦ rw (whole, e) (sym (take-all max_len bytes (ground arith)))
]

-- A datagram's bytes come out as they went in, cut to the reader's buffer.
pub copied-dgram :
    (max_len : ℕ) (pkt : Packet) (bytes : List ℕ)
    → Holds pkt bytes
    → copied dgram max_len pkt ≡ take max_len bytes
unfolding copied cut
copied-dgram max_len pkt bytes h =
    take-cut max_len pkt.length pkt.payload bytes h.bytes (sym h.length)

take-first : (n seq : ℕ) (xs bytes : List ℕ) → take n xs ≡ seq ∷ bytes → get_or xs 0 0 ≡ seq
take-first zero seq xs bytes e = absurd (cc)
take-first (suc n) seq [] bytes e = absurd (cc)
take-first (suc n) seq (x ∷ xs) bytes e = ap (λ t. get_or t 0 0) e

-- The sequence number of a stream's packet is the first byte of its payload.
pub Holds-first :
    (pkt : Packet) (seq : ℕ) (bytes : List ℕ)
    → Holds pkt (seq ∷ bytes)
    → get_or pkt.payload 0 0 ≡ seq
Holds-first pkt seq bytes h = take-first pkt.length seq pkt.payload bytes h.bytes

take-drop-one :
    (len seq : ℕ) (xs bytes : List ℕ)
    → take (suc len) xs ≡ seq ∷ bytes
    → take len (drop 1 xs) ≡ bytes
take-drop-one len seq [] bytes e = absurd (cc)
take-drop-one len seq (x ∷ xs) bytes e = ap (drop 1) e

-- The receiving functions copy, of a stream's packet that holds a sequence number and bytes, the
-- bytes without the number, cut to the reader's buffer.
pub copied-stream :
    (max_len seq : ℕ) (pkt : Packet) (bytes : List ℕ)
    → Holds pkt (seq ∷ bytes)
    → copied stream max_len pkt ≡ take max_len bytes
unfolding copied cut
copied-stream max_len seq pkt bytes h =
    let some_bytes : ltb 0 pkt.length ≡ true = rw (h.length) (ground arith) in
    let len : length bytes ≡ pkt.length - 1 = omega (arith, h.length) in
    let front : pkt.length ≡ suc (pkt.length - 1) = omega (arith, h.length) in
    rw some_bytes (
      take-cut max_len (pkt.length - 1) (drop 1 pkt.payload) bytes
        (take-drop-one (pkt.length - 1) seq pkt.payload bytes
          (subst (λ k. take k pkt.payload ≡ seq ∷ bytes) front h.bytes))
        len)

-- What `send_packet` writes to a packet of the pool, before it is transmitted.
pub filled-Holds :
    (pkt : Packet) (header_raw : ℕ) (payload : List ℕ)
    → length payload ≤ length pkt.payload
    → Holds (filled header_raw payload pkt) payload
filled-Holds pkt header_raw payload l = record {
  length = refl;
  bytes = take-drop-blit pkt.payload 0 payload (omega arith);
}
