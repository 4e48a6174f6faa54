-- ===== src/Tests/Exchange.antt =====
-- A datagram between two nodes at a fixed input.
use danp.Prelude.{
  ℕ, zero, suc, ◌≤◌, ◌≡◌, refl, inl, true, List, [], ◌∷◌, Option, none, some, arith, ℤ, pos, length,
  replicate,
}
use danp.Types.{Packet, blank_packet, dgram, open_state, u8}
use danp.Header.{unpack_header, pack_header}
use danp.Node.{Node, Socket, blank_socket, allocate}
use danp.Route.{interface_at, Routing, Interface}
use danp.Buffer
use danp.Socket.Transfer.{Delivery, send_to, recv_from}
use danp.Receive.{input}
use danp.Driver.{packet_bytes}
use danp.Driver.Delivery.{IsPacket}
use danp.Exchange.Sender.{datagram_header, CanSend, send_to_lost}
use danp.Exchange.Receiver.{CanReceive}
use danp.Exchange.Datagram.{Arrived, datagram_arrives}
use danp.Tests.Os.{list_osal, list_osal-IsOsal, ListQueue}

abbrev pub no_packets : ListQueue (Option ℕ)
no_packets = (10, [])

abbrev pub bound_to : (node port : ℕ) → Socket list_osal
bound_to node port = record (blank_socket list_osal) {
  state = open_state;
  local_node = node;
  local_port = port;
  rx_queue = some no_packets;
}

abbrev pub accepted : Packet → ℤ
accepted pkt = pos 0

-- An interface with the address of the node, and a route over it to the node `peer`.
abbrev wired : (mtu node peer : ℕ) → Routing
wired mtu node peer = record {
  interfaces =
      record { name = some []; address = node; mtu = mtu; tx_func = some accepted; next = none }
      ∷ [];
  iface_list = some 0;
  route_table = record { dest_node = peer; iface = 0 } ∷ [];
}

-- A node with a datagram socket on a port.
abbrev pub station : (node peer port : ℕ) → Node list_osal
station node peer port = record {
  config_local_node = node;
  pool = record { packets = replicate 20 blank_packet; free_map = replicate 20 true };
  routing = wired 132 node peer;
  socket_pool = bound_to node port ∷ replicate 19 (blank_socket list_osal);
  socket_list = some 0;
  next_ephemeral_port = 1;
  sent = [];
}

abbrev pub text : List ℕ
text = 104 ∷ 105 ∷ []

station-CanSend : CanSend (station 1 2 10) 0 2 2 0 0 accepted
unfolding allocate Buffer.allocate Buffer.first_free danp.Route.route_lookup danp.Route.lookup
station-CanSend = record {
  type = refl;
  pool = record { slots = refl; flags = refl };
  packet = refl;
  array = refl;
  short = omega arith;
  routed = refl;
  fits = omega arith;
  driver = refl;
}

pub blank-IsPacket : IsPacket blank_packet
blank-IsPacket = record { header = omega arith; fits = omega arith; array = refl }

station-CanReceive :
    CanReceive
      (station 2 1 7)
      0
      0
      0
      2
      (unpack_header (datagram_header (bound_to 1 10) 2 7))
      no_packets
unfolding allocate Buffer.allocate Buffer.first_free pack_header unpack_header danp.Types.has
    danp.Socket.Find.find_socket danp.Socket.Find.find_socket_from danp.Socket.Find.accepts
    danp.Socket.Find.is_exact danp.Socket.Find.is_wildcard danp.Socket.Find.is_active
station-CanReceive = record {
  lock = refl;
  pool = record { slots = refl; flags = refl };
  packet = refl;
  array = blank-IsPacket;
  address = refl;
  flags = refl;
  found = refl;
  in_range = omega arith;
  type = refl;
  state = inl refl;
  queue = refl;
  waiting = refl;
  room = omega arith;
  any = omega arith;
}

datagram_arrives_example :
    let (ret, a') = send_to 0 text 2 7 (station 1 2 10) in
    (pkt : Packet) × (ret ≡ pos 2)
    × (a'.sent ≡ (0, pkt) ∷ [])
    × ((m : Node list_osal) × (input 0 (packet_bytes pkt) (station 2 1 7) ≡ some m)
        × ((d : Delivery) × (k : Node list_osal) × (recv_from (λ t. t) 0 64 m
              ≡ some (pos (length d.bytes), some d, k))
            × Arrived d 64 text 1 10))
datagram_arrives_example =
    datagram_arrives (station 1 2 10) (station 2 1 7) 0 2 7 0 0 accepted text station-CanSend 0 0 0
      64 no_packets list_osal-IsOsal station-CanReceive

-- The node with an interface as the drivers of the library set it up.
abbrev usual_station : Node list_osal
usual_station = record (station 1 2 10) { routing = wired 128 1 2 }

usual_station_mtu : (k : ℕ) → (interface_at usual_station.routing k).mtu ≤ 128
usual_station_mtu zero = omega arith
usual_station_mtu (suc k) = omega arith

send_to_lost_example :
    let (ret, m) = send_to 0 (replicate 125 7) 2 7 usual_station in (ret ≡ pos 125) × (m.sent ≡ [])
unfolding allocate Buffer.allocate Buffer.first_free
send_to_lost_example =
    send_to_lost usual_station 0 2 7 0 (replicate 125 7) refl
      (record { slots = refl; flags = refl }) refl usual_station_mtu (omega arith) (omega arith)
