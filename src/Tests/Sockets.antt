-- ===== src/Tests/Sockets.antt =====
-- The sockets of a node at fixed inputs, over the OS layer of lists.
use danp.Prelude.{
  ℕ, ◌+◌, ◌≤◌, ◌<◌, ◌≡◌, refl, ◌⊎◌, Bool, true, false, List, [], ◌∷◌, Option, none, some, arith,
  pos, minus_one, length, replicate, ◌↔◌,
}
use danp.Types.{
  blank_packet, max_ports, retry_limit, stream, established, max_packet_size, header_size, flag_ack,
}
use danp.Buffer
use danp.Buffer.Laws.{IsPool}
use danp.Node.{Socket, Node, socket_at, put_socket, blank_socket, allocate, free}
use danp.Node.Traffic.{SameButTraffic}
use danp.Socket.Find.{find_socket, port_in_use, holds_port, accepts}
use danp.Socket.Find.Walk.{NoneOf, First}
use danp.Socket.Links.{IsLinked, find_socket-IsLinked}
use danp.Socket.Bind.{bind}
use danp.Socket.Bind.Ports.{BindsAny, bind_any_cases, bind_port_cases}
use danp.Socket.Control.{send_control}
use danp.Socket.Control.Laws.{send_control-SameButTraffic}
use danp.Socket.Input.{on_segment}
use danp.Socket.Input.Receiver.{
  IsStream, acknowledged, on_segment_delivers, on_segment_full, on_segment_duplicate,
}
use danp.Socket.Transfer.{send}
use danp.Socket.Transfer.Reliable.{IsReady, Attempts, Returns, send-Returns, send_stalls}
use danp.Receive.{input}
use danp.Driver.Delivery.{input-overflow_iff}
use danp.Tests.Os.{list_osal, list_osal-IsOsal, ListQueue}

-- An ESTABLISHED stream on port 10, in slot 0, which expects the number 5.
abbrev peer_stream : ListQueue (Option ℕ) → Socket list_osal
peer_stream q = record (blank_socket list_osal) {
  state = established;
  type = stream;
  local_port = 10;
  local_node = 1;
  remote_node = 42;
  remote_port = 20;
  rx_expected_seq = 5;
  rx_queue = some q;
  signal = some false;
}

-- Packet 0 holds a data packet with the number `seq`; it and packet 1 are taken.
abbrev node_with : ListQueue (Option ℕ) → (seq : ℕ) → (free_map : List Bool) → Node list_osal
node_with q seq free_map = record {
  config_local_node = 1;
  pool = record {
    packets =
        record blank_packet { payload = seq ∷ replicate 127 0; length = 2 }
        ∷ replicate 19 blank_packet;
    free_map = free_map;
  };
  routing = record { interfaces = []; iface_list = none; route_table = [] };
  socket_pool = peer_stream q ∷ replicate 19 (blank_socket list_osal);
  socket_list = some 0;
  next_ephemeral_port = 10;
  sent = [];
}

abbrev some_free : List Bool
some_free = false ∷ false ∷ replicate 18 true

abbrev none_free : List Bool
none_free = replicate 20 false

abbrev pub roomy : ListQueue (Option ℕ)
roomy = (10, some 1 ∷ [])

abbrev crowded : ListQueue (Option ℕ)
crowded = (2, some 1 ∷ some 2 ∷ [])

abbrev pub here : Node list_osal
here = node_with roomy 5 some_free

pub here-IsPool : IsPool here.pool
here-IsPool = record { slots = refl; flags = refl }

here-IsStream : IsStream here 0 roomy
here-IsStream = record {
  in_range = omega arith;
  connected = refl;
  queue = refl;
  pool = here-IsPool;
}

on_segment_delivers_example :
    let m = on_segment 0 0 here in
    (q' : ListQueue (Option ℕ)) × ((socket_at m 0).rx_queue ≡ some q')
    × (q'.1 ≡ some 1 ∷ some 0 ∷ [])
    × ((socket_at m 0).rx_expected_seq ≡ 6)
    × (m.pool.free_map ≡ some_free)
on_segment_delivers_example =
    on_segment_delivers 0 0 here roomy list_osal-IsOsal here-IsStream refl (omega arith)

abbrev crowded_node : Node list_osal
crowded_node = node_with crowded 5 some_free

crowded-IsStream : IsStream crowded_node 0 crowded
crowded-IsStream = record {
  in_range = omega arith;
  connected = refl;
  queue = refl;
  pool = record { slots = refl; flags = refl };
}

on_segment_full_example :
    let m = on_segment 0 0 crowded_node in
    (m ≡ acknowledged 0 0 crowded_node)
    × ((socket_at m 0).rx_queue ≡ some crowded)
    × ((socket_at m 0).rx_expected_seq ≡ 6)
    × (m.pool.free_map ≡ some_free)
on_segment_full_example =
    on_segment_full 0 0 crowded_node crowded list_osal-IsOsal crowded-IsStream refl (omega arith)

abbrev repeated : Node list_osal
repeated = node_with roomy 4 some_free

on_segment_duplicate_example :
    let m = on_segment 0 0 repeated in
    (m ≡ free (some 0) (send_control 0 flag_ack 4 repeated))
    × (m.socket_pool ≡ repeated.socket_pool)
    × (m.pool.free_map ≡ true ∷ false ∷ replicate 18 true)
on_segment_duplicate_example =
    on_segment_duplicate 0 0 repeated refl (record { slots = refl; flags = refl }) refl
      (omega arith) (omega arith) refl

send_control-SameButTraffic_example : SameButTraffic here (send_control 0 flag_ack 5 here)
send_control-SameButTraffic_example = send_control-SameButTraffic 0 flag_ack 5 here here-IsPool

pub here-IsLinked : IsLinked here (0 ∷ [])
here-IsLinked = record {
  chain = (refl, refl);
  distinct = (tt, tt);
  below = (omega arith, tt);
  fits = omega arith;
}

find_socket-IsLinked_example :
    ((find_socket here 10 42 20 ≡ none) × NoneOf (accepts 10 42 20) here.socket_pool (0 ∷ []))
    ⊎ ((i : ℕ) × (find_socket here 10 42 20 ≡ some i)
        × First (accepts 10 42 20) here.socket_pool (0 ∷ []) i)
find_socket-IsLinked_example = find_socket-IsLinked here (0 ∷ []) 10 42 20 here-IsLinked

bind_any_cases_example : BindsAny 1 here (bind 1 0 here)
bind_any_cases_example = bind_any_cases 1 here refl (omega arith)

bind_port_cases_example :
    ((11 < max_ports)
      × (port_in_use here 11 ≡ false)
      × (bind 1 11 here
          ≡ (pos 0, put_socket here 1 (record (socket_at here 1) { local_port = 11 }))))
    ⊎ (((max_ports ≤ 11) ⊎ (port_in_use here 11 ≡ true)) × (bind 1 11 here ≡ (minus_one, here)))
bind_port_cases_example = bind_port_cases 1 11 here refl (omega arith)

-- Port 10 is taken, so the next one is given.
bind_any_next :
    let (ret, m) = bind 1 0 here in
    (ret ≡ pos 0) × ((socket_at m 1).local_port ≡ 11) × (m.next_ephemeral_port ≡ 12)
unfolding bind danp.Socket.Bind.search_port danp.Socket.Bind.advance_port port_in_use
    danp.Socket.Find.port_in_use_from holds_port
bind_any_next = (refl, refl, refl)

-- Nothing happens while the sender waits.
abbrev idle : ℕ → Node list_osal → Node list_osal
idle k n = n

here-IsReady : IsReady here
unfolding allocate Buffer.allocate Buffer.first_free
here-IsReady = record { pool = here-IsPool; packet = (2, refl) }

send-Returns_example :
    (r : Bool × Node list_osal) × Attempts idle 0 (7 ∷ 8 ∷ []) retry_limit 0 here r
    × Returns idle 0 (7 ∷ 8 ∷ []) r (send idle retry_limit 0 (7 ∷ 8 ∷ []) here)
send-Returns_example =
    send-Returns idle 0 (7 ∷ 8 ∷ []) here (λ k n v. v) here-IsReady refl (omega arith)

abbrev exhausted : Node list_osal
exhausted = node_with roomy 5 none_free

send_stalls_example : send idle 100 0 (7 ∷ []) exhausted ≡ none
unfolding allocate Buffer.allocate Buffer.first_free
send_stalls_example =
    send_stalls idle 0 (7 ∷ []) exhausted (λ k. refl) refl refl refl (omega arith) 100

abbrev oversized : List ℕ
oversized = replicate 133 0

input-overflow_iff_example : (input 0 oversized here ≡ none) ↔ (
    (header_size + max_packet_size < length oversized) × ((p : ℕ) × ((allocate here).0 ≡ some p)))
input-overflow_iff_example = input-overflow_iff 0 oversized here (omega arith)
