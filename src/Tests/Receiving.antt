-- ===== src/Tests/Receiving.antt =====
-- danp_recv at fixed inputs.
use danp.Prelude.{
  ℕ, ◌≡◌, ◌≤◌, refl, true, List, [], ◌∷◌, Option, some, none, ◌⊎◌, take, set, pos, length, arith,
  zero, suc, subst, sym, get_or-replicate,
}
use danp.Types.{blank_packet}
use danp.Node.{Node, socket_at, packet_at, put_packet, filled}
use danp.Socket.Transfer.{recv}
use danp.Socket.Transfer.Received.{Fits, IsReadable, recv_bounds, recv_oldest}
use danp.Tests.Os.{list_osal, list_osal-IsOsal, ListQueue}
use danp.Tests.Sockets.{here}

-- Nothing happens while the reader waits. Packet 1 is first in the queue.
abbrev unchanged : Node list_osal → Node list_osal
unchanged n = n

blank-Fits : Fits blank_packet
blank-Fits = omega arith

here-Fits : (p : ℕ) → Fits (packet_at here p)
here-Fits zero = omega arith
here-Fits (suc p) = subst Fits (sym (get_or-replicate 19 p blank_packet)) blank-Fits

recv_bounds_example :
    let (ret, bytes, m) = recv unchanged 0 10 here in
    (ret ≡ pos (length bytes)) × (length bytes ≤ 10)
recv_bounds_example = recv_bounds unchanged 0 10 here here-Fits

abbrev queued : List (Option ℕ)
queued = some 1 ∷ []

abbrev text : List ℕ
text = 7 ∷ 8 ∷ []

-- Packet 1 is a segment of two bytes with the number 5.
abbrev heard : Node list_osal
heard = put_packet here 1 (filled 0 (5 ∷ 7 ∷ 8 ∷ []) blank_packet)

heard-IsReadable :
    (p : ℕ) (rest : List (Option ℕ)) → queued ≡ some p ∷ rest → IsReadable heard 0 p text
heard-IsReadable p rest e =
    let same : 1 ≡ p = cc (e) in
    subst (λ k. IsReadable heard 0 k text) same
      (record {
        slot = omega arith;
        taken = refl;
        carried = (5, record { length = refl; bytes = refl });
      })

recv_oldest_example :
    let (ret, out, m) = recv unchanged 0 1 heard in
    ((queued ≡ []) × (ret ≡ pos 0) × (out ≡ []) × (m ≡ heard))
    ⊎ ((rest : List (Option ℕ)) × (q' : ListQueue (Option ℕ)) × (queued ≡ none ∷ rest)
        × (ret ≡ pos 0)
        × (out ≡ [])
        × ((socket_at m 0).rx_queue ≡ some q')
        × (q'.1 ≡ rest)
        × (m.pool ≡ heard.pool))
    ⊎ ((p : ℕ) × (rest : List (Option ℕ)) × (q' : ListQueue (Option ℕ)) × (queued ≡ some p ∷ rest)
        × (ret ≡ pos (length (take 1 text)))
        × (out ≡ take 1 text)
        × ((socket_at m 0).rx_queue ≡ some q')
        × (q'.1 ≡ rest)
        × (m.pool.free_map ≡ set heard.pool.free_map p true))
recv_oldest_example =
    recv_oldest unchanged 0 1 text heard (10, queued) list_osal-IsOsal refl (omega arith) refl
      heard-IsReadable
