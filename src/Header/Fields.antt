-- ===== src/Header/Fields.antt =====
-- The header word as a sum of its fields.
use danp.Prelude.{
  ℕ, zero, suc, ◌+◌, ◌*◌, ◌/◌, ◌%◌, ◌^◌, ◌<◌, ◌≡◌, refl, arith, bit_or, ◌⊎◌, inl, inr,
}
use danp.Prelude.Bits.{
  bit_or-shifted, bit_and-one, bit_and-three, bit_and-four, bit_and-port_mask, bit_and-node_mask,
  bit_and-two_pow,
}
use danp.Types.{has, flag_rst}
use danp.Header.{top_bits, pack_header, unpack_header}

-- `h |= r`, where `r` has `k` bits and the low `k` bits of `h` are clear.
or_low : (k h r : ℕ) → h % 2 ^ k ≡ 0 → r < 2 ^ k → bit_or h r ≡ h + r
or_low k h r e l =
    let aligned : h ≡ h / 2 ^ k * 2 ^ k = omega arith in
    rw aligned (bit_or-shifted k (h / 2 ^ k) r l)

digit_cases : (a : ℕ) → (a % 2 ≡ 0) ⊎ (a % 2 ≡ 1)
digit_cases a = ground arith

top_bits-sum : (prio flags : ℕ) → top_bits prio flags ≡ flags / 4 % 2 * 2 ^ 31 + prio % 2 * 2 ^ 30
unfolding top_bits has
top_bits-sum prio flags =
    rw (bit_and-one prio, bit_and-four flags)
      (elim (digit_cases prio) [
        | inl p ↦ elim (digit_cases (flags / 4)) [ inl f ↦ rw (p, f) | inr f ↦ rw (p, f) ]
        | inr p ↦ elim (digit_cases (flags / 4)) [ inl f ↦ rw (p, f) | inr f ↦ rw (p, f) ]
      ])

abbrev pub packed : (prio dst src dst_port src_port flags : ℕ) → ℕ
packed prio dst src dst_port src_port flags =
    flags / 4 % 2 * 2 ^ 31
    + prio % 2 * 2 ^ 30
    + dst % 256 * 2 ^ 22
    + src % 256 * 2 ^ 14
    + dst_port % 64 * 2 ^ 8
    + src_port % 64 * 2 ^ 2
    + flags % 4

pub pack_header-sum :
    (prio dst src dst_port src_port flags : ℕ)
    → pack_header prio dst src dst_port src_port flags ≡ packed prio dst src dst_port src_port flags
unfolding pack_header
pack_header-sum prio dst src dst_port src_port flags =
    let h0 = flags / 4 % 2 * 2 ^ 31 + prio % 2 * 2 ^ 30 in
    let h1 = h0 + dst % 256 * 2 ^ 22 in
    let h2 = h1 + src % 256 * 2 ^ 14 in
    let h3 = h2 + dst_port % 64 * 2 ^ 8 in
    let h4 = h3 + src_port % 64 * 2 ^ 2 in
    rw (
      top_bits-sum prio flags,
      bit_and-node_mask dst,
      bit_and-node_mask src,
      bit_and-port_mask dst_port,
      bit_and-port_mask src_port,
      bit_and-three flags,
      or_low 30 h0 (dst % 256 * 2 ^ 22) (omega arith) (omega arith),
      or_low 22 h1 (src % 256 * 2 ^ 14) (omega arith) (omega arith),
      or_low 14 h2 (dst_port % 64 * 2 ^ 8) (omega arith) (omega arith),
      or_low 8 h3 (src_port % 64 * 2 ^ 2) (omega arith) (omega arith),
      or_low 2 h4 (flags % 4) (omega arith) (omega arith),
    )

-- `f |= DANP_FLAG_RST`, for the two flags of the low bits.
or_rst : (f : ℕ) → f < 4 → bit_or f flag_rst ≡ 4 + f
or_rst zero h = refl
or_rst (suc zero) h = refl
or_rst (suc (suc zero)) h = refl
or_rst (suc (suc (suc zero))) h = refl
or_rst (suc (suc (suc (suc f)))) h = absurd (omega arith)

-- The fields read back as quotients and remainders.
pub unpack_header-fields :
    (raw : ℕ)
    → unpack_header raw ≡ record {
      dst = raw / 2 ^ 22 % 256;
      src = raw / 2 ^ 14 % 256;
      dst_port = raw / 2 ^ 8 % 64;
      src_port = raw / 2 ^ 2 % 64;
      flags = raw / 2 ^ 31 % 2 * 4 + raw % 4;
    }
unfolding unpack_header has
unpack_header-fields raw =
    rw
      (
        bit_and-node_mask (raw / 2 ^ 22),
        bit_and-node_mask (raw / 2 ^ 14),
        bit_and-port_mask (raw / 2 ^ 8),
        bit_and-port_mask (raw / 2 ^ 2),
        bit_and-three raw,
        bit_and-two_pow 31 raw,
      )
      (elim (digit_cases (raw / 2 ^ 31)) [
        | inl e ↦ rw e (ground arith)
        | inr e ↦ rw (e, or_rst (raw % 4) (omega arith)) (ground arith)
      ])
