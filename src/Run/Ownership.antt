-- ===== src/Run/Ownership.antt =====
-- The owners of packets over all that the library does after danp_init.
use danp.Prelude.{
  ℕ, zero, suc, ◌+◌, ◌≤◌, ◌≡◌, refl, inl, inr, Bool, true, false, List, arith, length, replicate,
  get_or, ltb, Bool-cases, Option-cases,
}
use danp.Types.{header_size, u16}
use danp.Osal.{Osal, IsOsal}
use danp.Buffer
use danp.Route.{Routing}
use danp.Node.{Node, blank_socket, allocate, put_packet, packet_at}
use danp.Socket.Create.{socket_init}
use danp.Socket.Sound.{if_holds}
use danp.Socket.Sound.Transfer.{IfSome, IfSome-some}
use danp.Socket.Owned.{free_at, queued_in, allocate-Owned, forget-Owned}
use danp.Socket.Owned.Queues.{create-Owned}
use danp.Socket.Owned.Handler.{Holds, Settled, done, input_handler-Owned}
use danp.Socket.Owned.Calls.{
  bind-Settled, listen-Settled, close-Settled, connect-Settled, accept-Settled,
}
use danp.Socket.Owned.Transfer.{send-Settled, send_to-Settled, recv-Settled, recv_from-Settled}
use danp.Receive.{init, fill_packet, route_received, input}
use danp.Run.{
  start, Run, nothing, followed, creates, binds, listens, closes, connects, accepts, sends,
  sends_to, receives, receives_from, gets_frame, registers, loads_routes,
}

module _ {o : Osal} (os : IsOsal o) where
  route_received-Settled :
      (iface q : ℕ) (n : Node o) → Holds os q n → Settled os (route_received iface q n)
  unfolding route_received
  route_received-Settled iface q n v =
      if_holds (Settled os) _ (input_handler-Owned os q n v) (done os q n v)

  input-Settled :
      (iface : ℕ) (raw : List ℕ) (n : Node o)
      → Settled os n
      → IfSome (Settled os) (input iface raw n)
  unfolding input
  input-Settled iface raw n v =
      let w = allocate-Owned (λ p. 0) n v in
      elim (Bool-cases (ltb (u16 (length raw)) header_size)) [
        | inl e ↦ rw e v
        | inr e ↦ elim (Option-cases (allocate n).0) [
          | inl f ↦ rw (e, f, input) (forget-Owned _ _ w)
          | inr (q, f) ↦
              let got : Holds os q (allocate n).1 = rw f at w in
              elim (Option-cases
                (fill_packet iface raw (u16 (length raw)) (packet_at (allocate n).1 q))) [
                  | inl g ↦ rw (e, f, input, g) tt
                  | inr (pkt, g) ↦
                      rw (e, f, input, g)
                        (route_received-Settled iface q (put_packet (allocate n).1 q pkt)
                          (record { once = got.once }))
                ]
        ]
      ]

  Run-Settled : {n m : Node o} → Run n m → Settled os n → Settled os m
  Run-Settled (nothing n) v = v
  Run-Settled (followed n m k a b) v = Run-Settled b (Run-Settled a v)
  Run-Settled (creates type n) v = create-Owned os (λ p. 0) type n v
  Run-Settled (binds i port n) v = bind-Settled os i port n v
  Run-Settled (listens i backlog n) v = listen-Settled os i backlog n v
  Run-Settled (closes i n r) v = close-Settled os i n v
  Run-Settled (connects await i node port n others) v =
      connect-Settled os await i node port n (λ m w. Run-Settled (others m) w) v
  Run-Settled (accepts await i n others) v =
      accept-Settled os await i n (λ m w. Run-Settled (others m) w) v
  Run-Settled (sends await fuel i bytes n m ret others e) v =
      IfSome-some _ _ (ret, m) e
        (send-Settled os await fuel i bytes n (λ k m' w. Run-Settled (others k m') w) v)
  Run-Settled (sends_to i bytes dst_node dst_port n) v =
      send_to-Settled os i bytes dst_node dst_port n v
  Run-Settled (receives await i max_len n others) v =
      recv-Settled os await i max_len n (λ m w. Run-Settled (others m) w) v
  Run-Settled (receives_from await i max_len n m ret got others e) v =
      IfSome-some _ _ (ret, got, m) e
        (recv_from-Settled os await i max_len n (λ m' w. Run-Settled (others m') w) v)
  Run-Settled (gets_frame iface raw n m e) v = IfSome-some _ _ m e (input-Settled iface raw n v)
  Run-Settled (registers lock iface n) v = record { once = v.once }
  Run-Settled (loads_routes lock memory table n) v = record { once = v.once }

  none_queued : (p k : ℕ) → queued_in p (replicate k (blank_socket o)) ≡ 0
  none_queued p zero = refl
  none_queued p (suc k) = omega (arith, none_queued p k)

  free_at_most_once : (p : ℕ) (flags : List Bool) → free_at p flags ≤ 1
  free_at_most_once p flags = elim (Bool-cases (get_or flags p false)) [
    | inl e ↦ rw e (omega arith)
    | inr e ↦ rw e (omega arith)
  ]

  start-Settled :
      (a b : Bool) (local_node : ℕ) (routing : Routing)
      → Settled os (start o a b local_node routing)
  unfolding start init socket_init Buffer.init
  start-Settled false b local_node routing = record {
    once = λ p. ground (arith, free_at_most_once p (replicate 20 true), none_queued p 20);
  }
  start-Settled true b local_node routing = record {
    once = λ p. ground (arith, free_at_most_once p (replicate 20 true), none_queued p 20);
  }

  -- At any time after danp_init at the start of a program, whatever calls it made and frames it
  -- got, and however the calls interleaved at their waits: a packet of the pool is at most once free
  -- or waiting in the queue of one socket, and never both. It can be neither: a caller holds it, or
  -- it is lost.
  pub reachable-Owned :
      (socket_mutex_made buffer_mutex_made : Bool) (local_node : ℕ) (routing : Routing)
      → (m : Node o) → Run (start o socket_mutex_made buffer_mutex_made local_node routing) m
      → (p : ℕ) → queued_in p m.socket_pool + free_at p m.pool.free_map ≤ 1
  reachable-Owned a b local_node routing m r p =
      omega (arith, (Run-Settled r (start-Settled a b local_node routing)).once p)
