-- ===== src/Receive.antt =====
-- src/danp.c: danp_init and danp_input. A frame is the bytes that a driver received: the header word
-- in the byte order of the host, taken to be little-endian, and the payload.

use danp.Prelude.{
  ℕ, ◌+◌, ◌-◌, ◌*◌, ◌/◌, ◌%◌, ◌^◌, Bool, ◌||◌, ◌>>=◌, List, [], ◌∷◌, Option, none, some, ltb, ◌==◌,
  if◌then◌else◌, length, take, drop, blit, get_or,
}
use danp.Types.{Packet, header_size, max_packet_size, u16}
use danp.Header.{unpack_header}
use danp.Osal.{Osal}
use danp.Buffer
use danp.Route.{interface_at}
use danp.Node.{Node, packet_at, put_packet, allocate, free}
use danp.Socket.Create.{socket_init}
use danp.Socket.Input.{input_handler}

-- The four bytes of a `uint32_t` in memory, and the `uint32_t` of four bytes.
unfoldable pub word_bytes : ℕ → List ℕ
word_bytes w = w % 2 ^ 8 ∷ w / 2 ^ 8 % 2 ^ 8 ∷ w / 2 ^ 16 % 2 ^ 8 ∷ w / 2 ^ 24 % 2 ^ 8 ∷ []

unfoldable pub bytes_word : List ℕ → ℕ
bytes_word raw =
    get_or raw 0 0 + get_or raw 1 0 * 2 ^ 8 + get_or raw 2 0 * 2 ^ 16 + get_or raw 3 0 * 2 ^ 24

-- `memcpy` of `count` bytes to the front of an array of `size` bytes. `none` stands for a write past
-- the array and for a read past the source.
unfoldable pub memcpy : (size : ℕ) → (dst src : List ℕ) → (count : ℕ) → Option (List ℕ)
memcpy size dst src count =
    if ltb size count || ltb (length src) count then none else some (blit dst 0 (take count src))

-- The copy of the payload, which has a test for an empty one and none for a long one.
unfoldable pub copy_payload : (payload src : List ℕ) → (count : ℕ) → Option (List ℕ)
unfolding memcpy
copy_payload payload src count =
    let copy = memcpy max_packet_size payload src count in
    if ltb 0 count then copy else some payload

-- The packet as the two memcpy and the two assignments leave it, for the argument `len`. The length
-- is kept in 16 bits, so a `len` below 4 would wrap round.
unfoldable pub fill_packet : (iface : ℕ) → List ℕ → (len : ℕ) → Packet → Option Packet
unfolding bytes_word memcpy copy_payload
fill_packet iface raw len pkt = do
  header ← memcpy 4 (word_bytes pkt.header_raw) raw 4
  let size = u16 (len + 2 ^ 16 - 4)
  payload ← copy_payload pkt.payload (drop 4 raw) size
  some (record {
    header_raw = bytes_word header;
    payload = payload;
    length = size;
    rx_interface = some iface;
  })

module _ {o : Osal} where
  -- `danp_init`; the two flags say whether the mutexes could be made. Their results are not used.
  unfoldable pub init : (socket_mutex_made buffer_mutex_made : Bool) → ℕ → Node o → Node o
  init socket_mutex_made buffer_mutex_made local_node n =
      let configured = record n { config_local_node = local_node } in
      let n' = (socket_init socket_mutex_made configured).1 in
      record n' { pool = (Buffer.init buffer_mutex_made n'.pool).0 }

  -- From the test of the destination on.
  unfoldable pub route_received : (iface p : ℕ) → Node o → Node o
  route_received iface p n =
      if (unpack_header (packet_at n p).header_raw).dst == (interface_at n.routing iface).address
      then input_handler p n
      else free (some p) n

  -- `danp_input`; the length of the frame is the argument `len`. `none` is the undefined copy.
  unfoldable pub input : (iface : ℕ) → List ℕ → Node o → Option (Node o)
  unfolding fill_packet route_received
  input iface raw n =
      let len = u16 (length raw) in
      let (slot, n') = allocate n in
      if ltb len header_size then some n else elim slot [
        | none ↦ some n'
        | some p ↦ elim (fill_packet iface raw len (packet_at n' p)) [
          | none ↦ none
          | some pkt ↦ some (route_received iface p (put_packet n' p pkt))
        ]
      ]
