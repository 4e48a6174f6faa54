-- ===== src/Socket/Stats/Listing.antt =====
-- danp_print_stats on a list of active sockets that is as it should be.
use danp.Prelude.{
  ℕ, zero, suc, ◌≤◌, ◌≡◌, refl, true, List, [], ◌∷◌, ◌++◌, Option, some, arith, map, length, get_or,
}
use danp.Osal.{Osal, buffer_mutex}
use danp.Buffer.{get_free_count}
use danp.Node.{Socket, Node, blank_socket, socket_at, max_socket_count}
use danp.Socket.Links.{Chain, IsLinked}
use danp.Socket.Stats.{
  socket_stats, active_sockets, empty_line, buffer_stats, max_sockets, next_port, free_buffers,
  line_of, print_sockets, print_stats,
}

module _ {o : Osal} where
  print_sockets-Chain :
      (fuel : ℕ) (socks : List (Socket o)) (cur : Option ℕ) (is : List ℕ)
      → length is ≤ fuel
      → Chain socks cur is
      → print_sockets fuel socks cur
        ≡ some (map (λ i. line_of (get_or socks i (blank_socket o))) is)
  unfolding print_sockets
  print_sockets-Chain zero socks cur [] l c = rw c refl
  print_sockets-Chain (suc fuel) socks cur [] l c = rw c refl
  print_sockets-Chain zero socks cur (i ∷ is) l c = absurd (omega arith)
  print_sockets-Chain (suc fuel) socks cur (i ∷ is) l (e, c) =
      let rest =
        print_sockets-Chain fuel socks (get_or socks i (blank_socket o)).next is (omega arith) c in
      rw (e, print_sockets, rest) refl

  -- On a list of active sockets that is as it should be danp_print_stats, given a print function,
  -- returns after at most 20 rounds of its loop, which has no guard. Its output has one line for
  -- each active socket, in the order of the list, between the heading and the count of free packets.
  pub print_stats-IsLinked :
      (n : Node o) (is : List ℕ)
      → IsLinked n is
      → (fuel : ℕ) → max_socket_count ≤ fuel
      → print_stats true fuel n
        ≡ some (
            socket_stats
              ∷ max_sockets 20
              ∷ next_port n.next_ephemeral_port
              ∷ active_sockets
              ∷ map (λ i. line_of (socket_at n i)) is
            ++ empty_line
              ∷ buffer_stats
              ∷ free_buffers (get_free_count (o.mutex_lock buffer_mutex) n.pool)
              ∷ [])
  unfolding print_stats
  print_stats-IsLinked n is v fuel enough =
      let printed =
        print_sockets-Chain fuel n.socket_pool n.socket_list is (omega (arith, v.fits)) v.chain in
      rw (printed, print_stats) refl
