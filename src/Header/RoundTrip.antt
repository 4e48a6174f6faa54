-- ===== src/Header/RoundTrip.antt =====
-- danp_pack_header and danp_unpack_header of src/danp.c, one after the other.
use danp.Prelude.{ℕ, ◌/◌, ◌%◌, ◌^◌, ◌<◌, ◌≡◌, arith}
use danp.Types.{max_ports}
use danp.Header.{pack_header, unpack_header}
use danp.Header.Fields.{packed, pack_header-sum, unpack_header-fields}

-- A packed header fits the 32 bits of `header_raw`, whatever the arguments.
pub pack_header-lt :
    (prio dst src dst_port src_port flags : ℕ)
    → pack_header prio dst src dst_port src_port flags < 2 ^ 32
pack_header-lt prio dst src dst_port src_port flags =
    omega (arith, pack_header-sum prio dst src dst_port src_port flags)

-- Unpacking a packed header gives the arguments back, each cut to the width of its field: 8 bits
-- for a node, 6 for a port and 3 for the flags. The priority does not reach the result.
pub unpack-pack :
    (prio dst src dst_port src_port flags : ℕ)
    → unpack_header (pack_header prio dst src dst_port src_port flags) ≡ record {
      dst = dst % 256;
      src = src % 256;
      dst_port = dst_port % 64;
      src_port = src_port % 64;
      flags = flags % 8;
    }
unpack-pack prio dst src dst_port src_port flags =
    rw
      (
        pack_header-sum prio dst src dst_port src_port flags,
        unpack_header-fields (packed prio dst src dst_port src_port flags),
      )
      (ground arith)

-- Packing what was unpacked from a 32-bit word, under the priority of its bit 30, gives the word
-- back: no two words of one priority have the same fields.
pub pack-unpack :
    (raw : ℕ)
    → raw < 2 ^ 32
    → let h = unpack_header raw in
      pack_header (raw / 2 ^ 30 % 2) h.dst h.src h.dst_port h.src_port h.flags ≡ raw
pack-unpack raw h = rw (unpack_header-fields, pack_header-sum) (omega arith)

-- A port of a header has six bits.
pub dst_port-lt : (raw : ℕ) → (unpack_header raw).dst_port < max_ports
dst_port-lt raw = rw (unpack_header-fields raw) (omega arith)

-- The fields of a header are in range.
pub fields-lt :
    (raw : ℕ)
    → let h = unpack_header raw in
      (h.dst < 256) × (h.src < 256) × (h.dst_port < 64) × (h.src_port < 64)
fields-lt raw = rw (unpack_header-fields raw) (omega arith)
