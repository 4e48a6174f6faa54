-- ===== src/Tests/Examples.antt =====
-- The example programs at fixed inputs.
use danp.Prelude.{
  ℕ, ◌≡◌, refl, true, false, List, [], ◌∷◌, Option, none, some, arith, negsuc, replicate,
}
use danp.Types.{Packet, blank_packet, header_size, max_packet_size}
use danp.Header.{unpack_header}
use danp.Node.{Node, Socket, socket_at, blank_socket, filled, allocate}
use danp.Route.{Routing, blank_interface, interface_at, route_tx}
use danp.Buffer
use danp.Socket.Transfer.{send, recv}
use danp.Socket.Transfer.Chunks.{Holds}
use danp.Exchange.Sender.{datagram_header, CanSend}
use danp.Run.{static_data}
use danp.Example.{Waits}
use danp.Route.{find_interface_by_name}
use danp.Route.Text.{is_space, is_delimiter, same_string}
use danp.Receive
use danp.Example.Route.Decimal.{All}
use danp.Example.Route.{route_entry, configure_route, installed}
use danp.Example.Route.Entry.{IsPlain, configure_route-installs}
use danp.Example.Route.Ready.{MainReady, routed}
use danp.Example.Mains.{mains_ready}
use danp.Example.Dgram
use danp.Example.Stream
use danp.Example.Stream.{serve, acknowledge, ack_text}
use danp.Example.Stream.Session.{serve_ends}
use danp.Socket.Create.{create}
use danp.Socket.Bind.{bind}
use danp.Types.{dgram, stream, established}
use danp.Example.Dgram.{echo_round}
use danp.Example.Dgram.Echo.{received, echo_round_lem}
use danp.Tests.Os.{list_osal, ListQueue}
use danp.Tests.Exchange.{station, bound_to, text, accepted, no_packets}

abbrev quiet : Waits list_osal
quiet = record { sending = λ k n. n; receiving = λ n. n; pausing = λ n. n }

-- A datagram of two bytes, from port 10 of node 1, is first in the queue of port 47.
abbrev ping : Packet
ping = filled (datagram_header (bound_to 1 10) 2 47) text blank_packet

abbrev one_packet : ListQueue (Option ℕ)
one_packet = (10, some 0 ∷ [])

abbrev echo_station : Node list_osal
echo_station = record (station 2 1 47) {
  pool = record {
    packets = ping ∷ replicate 19 blank_packet;
    free_map = false ∷ replicate 19 true;
  };
  socket_pool =
      record (bound_to 2 47) { rx_queue = some one_packet } ∷ replicate 19 (blank_socket list_osal);
}

echo_station-CanSend :
    CanSend (received quiet 0 0 echo_station [] one_packet no_packets) 0 1 2 0 0 accepted
unfolding allocate Buffer.allocate Buffer.first_free Buffer.free danp.Node.free
    danp.Route.route_lookup danp.Route.lookup
echo_station-CanSend = record {
  type = refl;
  pool = record { slots = refl; flags = refl };
  packet = refl;
  array = refl;
  short = omega arith;
  routed = refl;
  fits = omega arith;
  driver = refl;
}

echo_round_example :
    (k : Node list_osal) × (reply : Packet) × (echo_round quiet 0 echo_station ≡ some k)
    × (k.sent ≡ (0, reply) ∷ [])
    × Holds reply text
    × (unpack_header reply.header_raw
        ≡ record { dst = 1; src = 2; dst_port = 10; src_port = 47; flags = 0 })
unfolding unpack_header danp.Header.pack_header danp.Types.has danp.Node.free
echo_round_example =
    echo_round_lem quiet 0 0 echo_station text one_packet no_packets 0 0 accepted refl refl refl
      (record { length = refl; bytes = refl }) (omega arith) echo_station-CanSend

-- The interface "if1", registered.
abbrev backbone : List ℕ
backbone = b'i' ∷ b'f' ∷ b'1' ∷ []

abbrev one_interface : Routing
one_interface = record {
  interfaces =
      record blank_interface { name = some backbone; mtu = 128; tx_func = some accepted } ∷ [];
  iface_list = some 0;
  route_table = record { dest_node = 3; iface = 0 } ∷ [];
}

backbone-IsPlain : All IsPlain backbone
unfolding is_space is_delimiter
backbone-IsPlain = (
  record { solid = refl; joins = refl },
  (record { solid = refl; joins = refl }, (record { solid = refl; joins = refl }, tt)),
)

configure_route-installs_example :
    configure_route true true 500 backbone one_interface
    ≡ (installed, record one_interface { route_table = record { dest_node = 500; iface = 0 } ∷ [] })
unfolding route_entry find_interface_by_name same_string
configure_route-installs_example =
    configure_route-installs 500 backbone (omega arith) backbone-IsPlain (λ e. cc) one_interface 0
      (omega arith) refl

abbrev no_interface : Routing
no_interface = record { interfaces = blank_interface ∷ []; iface_list = none; route_table = [] }

abbrev loaded : Node list_osal
loaded = static_data list_osal no_interface

mains_ready_example :
    MainReady (Dgram.client_main true true true true true 0 accepted loaded) 0 20 10 accepted
    × MainReady (Dgram.server_main true true true true true 0 accepted loaded) 0 10 20 accepted
    × MainReady (Stream.client_main true true true true true 0 accepted loaded) 0 20 10 accepted
    × MainReady (Stream.server_main true true true true true 0 accepted loaded) 0 10 20 accepted
mains_ready_example = mains_ready true true 0 accepted loaded (omega arith)

abbrev begun : Node list_osal
begun = Receive.init true true 10 (record loaded { routing = routed no_interface 0 10 accepted 20 })

-- The node once the echo server has waited for the first time, in vain.
abbrev started : Node list_osal
started = (create dgram begun).1

abbrev serving : Node list_osal
serving = (bind 0 47 started).1

-- A stream with a packet of data in its queue, of a node without a route: what it sends is lost.
abbrev lost_end : Node list_osal
lost_end = record (station 2 1 46) {
  pool = record {
    packets = filled 0 (5 ∷ text) blank_packet ∷ replicate 19 blank_packet;
    free_map = false ∷ replicate 19 true;
  };
  routing = no_interface;
  socket_pool =
      record (bound_to 2 46) {
        type = stream;
        rx_queue = some one_packet;
        state = established;
        signal = some false;
      }
      ∷ replicate 19 (blank_socket list_osal);
}

abbrev given_up : Node list_osal
given_up = elim (send quiet.sending 9 0 ack_text (recv quiet.receiving 0 63 lost_end).2) [
  | none ↦ lost_end
  | some (ret, n) ↦ n
]

lost_end-serve : serve (λ k. quiet) 9 0 1 0 lost_end ≡ some given_up
unfolding serve acknowledge recv danp.Socket.Transfer.copy_length send danp.Node.free allocate
    Buffer.allocate Buffer.first_free Buffer.free danp.Socket.Connect.take_signal
    danp.Node.send_packet
lost_end-serve = refl

serve_ends_example :
    (j : ℕ) × (a : Node list_osal) × (e : ℕ) × (send quiet.sending 9 0 ack_text a
      ≡ some (negsuc e, given_up))
serve_ends_example = serve_ends (λ k. quiet) 9 0 1 0 lost_end given_up lost_end-serve
