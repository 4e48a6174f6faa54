-- ===== src/Tests/Packets.antt =====
-- The header word, the packet pool and the frames of the drivers at fixed inputs.
use danp.Prelude.{
  ℕ, ◌+◌, ◌≤◌, ◌<◌, ◌≡◌, refl, ◌⊎◌, inl, inr, Bool, true, false, List, [], ◌∷◌, Option, none, some,
  arith, replicate, set, length, get_or, take, ◌^◌, ◌↔◌,
}
use danp.Types.{Packet, blank_packet, pool_size, max_packet_size, header_size, dgram, stream, u16}
use danp.Header.{pack_header, unpack_header}
use danp.Header.RoundTrip.{unpack-pack, pack-unpack}
use danp.Buffer
use danp.Buffer.{Pool, get_free_count}
use danp.Buffer.Scan.{IsFirstFree}
use danp.Buffer.Laws.{allocate_cases}
use danp.Receive.{fill_packet}
use danp.Driver.{packet_bytes}
use danp.Driver.Delivery.{IsPacket, fill_packet-packet_bytes}

-- Node 42, port 10, from node 7, port 63, with SYN and ACK.
header_word : pack_header 0 42 7 10 63 3 ≡ 176_278_271
unfolding pack_header danp.Types.has
header_word = refl

unpack-pack_example :
    unpack_header (pack_header 1 300 7 70 63 4)
    ≡ record { dst = 44; src = 7; dst_port = 6; src_port = 63; flags = 4 }
unpack-pack_example = unpack-pack 1 300 7 70 63 4

pack-unpack_example :
    let h = unpack_header 0xdead_beef in
    pack_header 1 h.dst h.src h.dst_port h.src_port h.flags ≡ 0xdead_beef
pack-unpack_example = pack-unpack 0xdead_beef (omega arith)

-- Slot 0 is taken, and the others are free.
abbrev used_pool : Pool
used_pool = record {
  packets = replicate pool_size blank_packet;
  free_map = false ∷ replicate 19 true;
}

abbrev full_pool : Pool
full_pool = record {
  packets = replicate pool_size blank_packet;
  free_map = replicate pool_size false;
}

second_slot : (Buffer.allocate true used_pool).0 ≡ some 1
unfolding Buffer.allocate Buffer.first_free
second_slot = refl

none_when_full : (Buffer.allocate true full_pool).0 ≡ none
unfolding Buffer.allocate Buffer.first_free
none_when_full = refl

allocate_cases_example :
    ((get_free_count true used_pool ≡ 0) × (Buffer.allocate true used_pool ≡ (none, used_pool)))
    ⊎ ((i : ℕ) × IsFirstFree used_pool.free_map i
        × (Buffer.allocate true used_pool
            ≡ (some i, record used_pool { free_map = set used_pool.free_map i false }))
        × (get_free_count true used_pool
            ≡ danp.Prelude.suc (get_free_count true (Buffer.allocate true used_pool).1)))
allocate_cases_example = allocate_cases used_pool

-- A packet with the payload 5, 6, 7.
abbrev small_packet : Packet
small_packet = record blank_packet {
  header_raw = 0x0a81_ca7f;
  payload = 5 ∷ 6 ∷ 7 ∷ replicate 125 0;
  length = 3;
}

small_packet-IsPacket : IsPacket small_packet
small_packet-IsPacket = record { header = omega arith; fits = omega arith; array = refl }

blank_packet-IsPacket : IsPacket blank_packet
blank_packet-IsPacket = record { header = omega arith; fits = omega arith; array = refl }

fill_packet-packet_bytes_example :
    (got : Packet) × (fill_packet 0
        (packet_bytes small_packet)
        (u16 (length (packet_bytes small_packet)))
        blank_packet
      ≡ some got)
    × (got.header_raw ≡ 0x0a81_ca7f)
    × (got.length ≡ 3)
    × (take got.length got.payload ≡ 5 ∷ 6 ∷ 7 ∷ [])
    × (got.rx_interface ≡ some 0)
fill_packet-packet_bytes_example =
    fill_packet-packet_bytes 0 small_packet blank_packet small_packet-IsPacket blank_packet-IsPacket
