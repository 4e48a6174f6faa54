-- ===== src/Types.antt =====
-- The constants, enumerations and the packet of include/danp/danp.h.
-- A C integer is the number that it stands for; a payload is its array of bytes.
use danp.Prelude.{
  ℕ, ◌^◌, ◌%◌, List, Bool, Option, none, replicate, not, ◌==◌, bit_and, ◌≡◌, refl, ◌⊎◌, inl, inr,
}

abbrev pub max_packet_size : ℕ
max_packet_size = 128

abbrev pub pool_size : ℕ
pool_size = 20

abbrev pub header_size : ℕ
header_size = 4

abbrev pub retry_limit : ℕ
retry_limit = 3

abbrev pub max_ports : ℕ
max_ports = 64

abbrev pub max_nodes : ℕ
max_nodes = 256

-- `danp_packet_flags_t`
abbrev pub flag_none : ℕ
flag_none = 0x00

abbrev pub flag_syn : ℕ
flag_syn = 0x01

abbrev pub flag_ack : ℕ
flag_ack = 0x02

abbrev pub flag_rst : ℕ
flag_rst = 0x04

-- The condition `flags & mask` of C.
unfoldable pub has : ℕ → ℕ → Bool
has flags mask = not (bit_and flags mask == 0)

-- The conversions to `uint8_t` and `uint16_t`.
abbrev pub u8 : ℕ → ℕ
u8 x = x % 2 ^ 8

abbrev pub u16 : ℕ → ℕ
u16 x = x % 2 ^ 16

-- `danp_socket_type_t`
pub data SocketType : Type 0 where
  dgram stream : SocketType

pub type_cases : (t : SocketType) → (t ≡ dgram) ⊎ (t ≡ stream)
type_cases dgram = inl refl
type_cases stream = inr refl

-- `danp_socket_state_t`
pub data SocketState : Type 0 where
  closed open_state listening syn_sent syn_received established : SocketState

-- `danp_packet_t`; an interface is named by its place in the table of interfaces.
pub record Packet : Type 0 where
  pub header_raw : ℕ
  pub payload : List ℕ
  pub length : ℕ
  pub rx_interface : Option ℕ

-- A packet of the pool as the program starts: static memory is zero.
abbrev pub blank_packet : Packet
blank_packet = record {
  header_raw = 0;
  payload = replicate max_packet_size 0;
  length = 0;
  rx_interface = none;
}
