-- ===== src/Tests/States.antt =====
-- The states of sockets at fixed inputs.
use danp.Prelude.{ℕ, ◌≡◌, refl, ◌⊎◌, [], ◌∷◌, arith, pos, some, none, replicate}
use danp.Types.{blank_packet, dgram, established, closed, flag_syn}
use danp.Header.{pack_header, unpack_header}
use danp.Node.{Node, socket_at, packet_at}
use danp.Socket.Kept.{Kept}
use danp.Socket.Create.{create}
use danp.Socket.Create.Slots.{KeptBut, create-cases}
use danp.Socket.Input.{input_handler}
use danp.Socket.Input.States.{Transition}
use danp.Socket.Input.Handler.{found_for, input_handler-Transition}
use danp.Tests.Os.{list_osal}
use danp.Socket.Links.{IsLinked, Off}
use danp.Socket.Control.{close}
use danp.Socket.Control.Close.{close-IsLinked}
use danp.Tests.Sockets.{here, here-IsPool, here-IsLinked}

create-cases_example :
    ((c : ℕ) × ((create dgram here).0 ≡ some c) × KeptBut c here (create dgram here).1)
    ⊎ (((create dgram here).0 ≡ none) × Kept here (create dgram here).1)
create-cases_example = create-cases dgram here here-IsPool

-- Packet 0 is SYN from the peer of the stream in slot 0.
abbrev syn_again : Node list_osal
syn_again = record here {
  pool = record (here.pool) {
    packets =
        record blank_packet { header_raw = pack_header 0 1 42 10 20 flag_syn }
        ∷ replicate 19 blank_packet;
  };
}

syn_again-found : found_for 0 syn_again ≡ some 0
unfolding danp.Socket.Find.find_socket danp.Socket.Find.find_socket_from danp.Socket.Find.accepts
    danp.Socket.Find.is_exact danp.Socket.Find.is_wildcard danp.Socket.Find.is_active pack_header
    unpack_header danp.Types.has
syn_again-found = refl

input_handler-Transition_example :
    Transition
      (unpack_header (packet_at syn_again 0).header_raw).flags
      (found_for 0 syn_again)
      0
      established
      (socket_at (input_handler 0 syn_again) 0).state
input_handler-Transition_example =
    input_handler-Transition 0 syn_again (record { slots = refl; flags = refl }) 0

close-IsLinked_example :
    let (ret, m) = close 0 here in
    (ret ≡ pos 0)
    × IsLinked m []
    × Off 0 []
    × ((socket_at m 0).state ≡ closed)
    × ((socket_at m 0).local_port ≡ 0)
close-IsLinked_example = close-IsLinked 0 here (0 ∷ []) refl here-IsPool here-IsLinked (omega arith)
