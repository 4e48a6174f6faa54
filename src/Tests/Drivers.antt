-- ===== src/Tests/Drivers.antt =====
-- The drivers and danp_print_stats at fixed inputs.
use danp.Prelude.{◌≡◌, refl, true, [], ◌∷◌, some, arith, pos, map, ◌++◌}
use mathlib.Core.Option.{map as map_option}
use danp.Types.{Packet, blank_packet}
use danp.Osal.{buffer_mutex}
use danp.Buffer.{get_free_count}
use danp.Node.{socket_at}
use danp.Receive.{input}
use danp.Socket.Stats.{
  socket_stats, active_sockets, empty_line, buffer_stats, max_sockets, next_port, free_buffers,
  line_of, print_stats,
}
use danp.Socket.Stats.Listing.{print_stats-IsLinked}
use danp.Driver.{packet_bytes}
use danp.Driver.Setup.{LoContext, lo_tx, lo_round}
use danp.Driver.Setup.Loopback.{Carries, lo_tx-lo_round}
use danp.Tests.Os.{list_osal, list_osal-IsOsal}
use danp.Tests.Sockets.{here, here-IsLinked}

print_stats-IsLinked_example :
    print_stats true 20 here
    ≡ some (
        socket_stats
          ∷ max_sockets 20
          ∷ next_port here.next_ephemeral_port
          ∷ active_sockets
          ∷ map (λ i. line_of (socket_at here i)) (0 ∷ [])
        ++ empty_line
          ∷ buffer_stats
          ∷ free_buffers (get_free_count (list_osal.mutex_lock buffer_mutex) here.pool)
          ∷ [])
print_stats-IsLinked_example = print_stats-IsLinked here (0 ∷ []) here-IsLinked 20 (omega arith)

-- The loopback with a packet on its way.
abbrev looped : LoContext list_osal
looped = record { mq = some (2, blank_packet ∷ []); iface = some 0 }

abbrev looped_carried : Carries looped (blank_packet ∷ [])
looped_carried = record { queue = (2, blank_packet ∷ []); there = refl; holds = refl }

abbrev long_packet : Packet
long_packet = record blank_packet { length = 5 }

lo_tx-lo_round_example :
    let (ret, ctx') = lo_tx long_packet looped in
    (ret ≡ pos 0)
    × ((ctx'' : LoContext list_osal) × Carries ctx'' (long_packet ∷ [])
        × (lo_round 0 ctx' here
            ≡ map_option (λ m. (ctx'', m)) (input 0 (packet_bytes blank_packet) here)))
lo_tx-lo_round_example =
    lo_tx-lo_round 0 long_packet looped (blank_packet ∷ []) looped_carried list_osal-IsOsal
      (omega arith) blank_packet (long_packet ∷ []) here refl
