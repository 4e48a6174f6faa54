-- ===== src/Header.antt =====
-- src/danp.c: the 32-bit header word, packed and unpacked.
-- Bit 31 is RST, bit 30 the priority, then the nodes (8 bits each), the ports (6 bits each), and
-- ACK and SYN.
mod Fields
pub mod RoundTrip
use danp.Prelude.{ℕ, ◌*◌, ◌/◌, ◌^◌, bit_and, bit_or, if◌then◌else◌}
use danp.Types.{has, flag_rst}

-- What `danp_unpack_header` stores through its pointers.
pub record Header : Type 0 where
  pub dst : ℕ
  pub src : ℕ
  pub dst_port : ℕ
  pub src_port : ℕ
  pub flags : ℕ

-- The statements that set bits of `h`, up to RST.
top_bits : ℕ → ℕ → ℕ
top_bits prio flags =
    let h = bit_or 0 (bit_and prio 0x01 * 2 ^ 30) in
    if has flags flag_rst then bit_or h (1 * 2 ^ 31) else h

unfoldable pub pack_header : (prio dst src dst_port src_port flags : ℕ) → ℕ
unfolding top_bits
pack_header prio dst src dst_port src_port flags =
    bit_or
      (bit_or
        (bit_or
          (bit_or (bit_or (top_bits prio flags) (bit_and dst 0xff * 2 ^ 22))
            (bit_and src 0xff * 2 ^ 14))
          (bit_and dst_port 0x3f * 2 ^ 8))
        (bit_and src_port 0x3f * 2 ^ 2))
      (bit_and flags 0x03)

unfoldable pub unpack_header : ℕ → Header
unpack_header raw =
    let f = bit_and raw 0x03 in
    record {
      dst = bit_and (raw / 2 ^ 22) 0xff;
      src = bit_and (raw / 2 ^ 14) 0xff;
      dst_port = bit_and (raw / 2 ^ 8) 0x3f;
      src_port = bit_and (raw / 2 ^ 2) 0x3f;
      flags = if has raw (2 ^ 31) then bit_or f flag_rst else f;
    }
