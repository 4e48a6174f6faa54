-- ===== src/Run/Invariant.antt =====
-- The invariant of the static data over all that the library does after danp_init.
use danp.Prelude.{
  ℕ, zero, suc, ◌<◌, ◌≡◌, refl, ap, ◌∙◌, Bool, true, false, List, [], ◌∷◌, none, some, arith,
  length, get_or, map, length-replicate, get_or-replicate, inl, inr, Bool-cases, Option-cases, ltb,
  length-set,
}
use danp.Types.{closed, max_ports, header_size, u16, Packet}
use danp.Osal.{Osal}
use danp.Buffer
use danp.Node.{Socket, Node, blank_socket, max_socket_count, allocate, put_packet, packet_at}
use danp.Route.{Routing}
use danp.Socket.Create.{socket_init}
use danp.Socket.Links.Listed.{next_in}
use danp.Socket.Sound.{IsSound, repool-IsSound, allocate-IsSound, free-IsSound, if_holds}
use danp.Socket.Sound.Creation.{create-IsSound}
use danp.Socket.Sound.Lifetime.{bind-IsSound, listen-IsSound, close-IsSound}
use danp.Socket.Sound.Connect.{connect-IsSound, accept-IsSound}
use danp.Socket.Sound.Transfer.{
  IfSome, IfSome-some, send-IsSound, send_to-IsSound, recv-IsSound, recv_from-IsSound,
}
use danp.Socket.Sound.Handler.{input_handler-IsSound}
use danp.Receive.{init, fill_packet, route_received, input}
use danp.Run.{
  start, static_data, Run, nothing, followed, creates, binds, listens, closes, connects, accepts,
  sends, sends_to, receives, receives_from, gets_frame, registers, loads_routes,
}

module _ {o : Osal} where
  route_received-IsSound :
      (iface p : ℕ) (n : Node o) → IsSound n → IsSound (route_received iface p n)
  unfolding route_received
  route_received-IsSound iface p n v =
      if_holds IsSound _ (input_handler-IsSound p n v) (free-IsSound (some p) n v)

  filled-IsSound : (p : ℕ) (pkt : Packet) (n : Node o) → IsSound n → IsSound (put_packet n p pkt)
  filled-IsSound p pkt n v =
      repool-IsSound n _ refl refl refl
        (record { slots = length-set n.pool.packets p _ ∙ v.pool.slots; flags = v.pool.flags }) v

  input-IsSound :
      (iface : ℕ) (raw : List ℕ) (n : Node o) → IsSound n → IfSome IsSound (input iface raw n)
  unfolding input
  input-IsSound iface raw n v = elim (Bool-cases (ltb (u16 (length raw)) header_size)) [
    | inl e ↦ rw e v
    | inr e ↦ elim (Option-cases (allocate n).0) [
      | inl f ↦ rw (e, f, input) (allocate-IsSound n v)
      | inr (p, f) ↦
          elim (Option-cases
            (fill_packet iface raw (u16 (length raw)) (packet_at (allocate n).1 p))) [
              | inl g ↦ rw (e, f, input, g) tt
              | inr (pkt, g) ↦
                  rw (e, f, input, g)
                    (route_received-IsSound iface p _
                      (filled-IsSound p pkt _ (allocate-IsSound n v)))
            ]
    ]
  ]

  -- danp_socket_init leaves an empty list.
  cleared : List (Socket o) → List (Socket o)
  cleared socks = map {A = Socket o} (λ s. record s { state = closed; next = none }) socks

  cleared-next : (socks : List (Socket o)) (j : ℕ) → next_in (cleared socks) j ≡ none
  unfolding cleared
  cleared-next [] j = refl
  cleared-next (s ∷ socks) zero = refl
  cleared-next (s ∷ socks) (suc j) = cleared-next socks j

  cleared-length : (socks : List (Socket o)) → length (cleared socks) ≡ length socks
  unfolding cleared
  cleared-length [] = refl
  cleared-length (s ∷ socks) = ap suc (cleared-length socks)

  cleared-ports :
      (socks : List (Socket o))
      → ((j : ℕ) → (get_or socks j (blank_socket o)).local_port < max_ports)
      → (j : ℕ) → (get_or (cleared socks) j (blank_socket o)).local_port < max_ports
  unfolding cleared
  cleared-ports [] h j = h j
  cleared-ports (s ∷ socks) h zero = h 0
  cleared-ports (s ∷ socks) h (suc j) = cleared-ports socks (λ k. h (suc k)) j

  socket_init-IsSound : (made : Bool) (n : Node o) → IsSound n → IsSound (socket_init made n).1
  unfolding socket_init cleared
  socket_init-IsSound false n v = v
  socket_init-IsSound true n v = record {
    members = [];
    listed = record {
      linked = record { chain = refl; distinct = tt; below = tt; fits = omega arith };
      unlisted = λ j h. cleared-next n.socket_pool j;
      sockets = cleared-length n.socket_pool ∙ v.listed.sockets;
    };
    pool = v.pool;
    ephemeral = v.ephemeral;
    ports = cleared-ports n.socket_pool v.ports;
  }

  init-IsSound :
      (socket_mutex_made buffer_mutex_made : Bool) (local_node : ℕ) (n : Node o)
      → IsSound n
      → IsSound (init socket_mutex_made buffer_mutex_made local_node n)
  unfolding init Buffer.init
  init-IsSound a b local_node n v =
      let w =
        socket_init-IsSound a (record n { config_local_node = local_node })
          (repool-IsSound n _ refl refl refl v.pool v) in
      repool-IsSound _ _ refl refl refl (record { slots = w.pool.slots; flags = refl }) w

  -- Calls and frames in any order, whatever runs while they wait, keep the invariant.
  pub Run-IsSound : {n m : Node o} → Run n m → IsSound n → IsSound m
  Run-IsSound (nothing n) v = v
  Run-IsSound (followed n m k a b) v = Run-IsSound b (Run-IsSound a v)
  Run-IsSound (creates type n) v = create-IsSound type n v
  Run-IsSound (binds i port n) v = bind-IsSound i port n v
  Run-IsSound (listens i backlog n) v = listen-IsSound i backlog n v
  Run-IsSound (closes i n r) v = close-IsSound i n r v
  Run-IsSound (connects await i node port n others) v =
      connect-IsSound await i node port n (λ m w. Run-IsSound (others m) w) v
  Run-IsSound (accepts await i n others) v =
      accept-IsSound await i n (λ m w. Run-IsSound (others m) w) v
  Run-IsSound (sends await fuel i bytes n m ret others e) v =
      IfSome-some _ _ (ret, m) e
        (send-IsSound await fuel i bytes n (λ k m' w. Run-IsSound (others k m') w) v)
  Run-IsSound (sends_to i bytes dst_node dst_port n) v =
      send_to-IsSound i bytes dst_node dst_port n v
  Run-IsSound (receives await i max_len n others) v =
      recv-IsSound await i max_len n (λ m w. Run-IsSound (others m) w) v
  Run-IsSound (receives_from await i max_len n m ret got others e) v =
      IfSome-some _ _ (ret, got, m) e
        (recv_from-IsSound await i max_len n (λ m' w. Run-IsSound (others m') w) v)
  Run-IsSound (gets_frame iface raw n m e) v = IfSome-some _ _ m e (input-IsSound iface raw n v)
  Run-IsSound (registers lock iface n) v = repool-IsSound n _ refl refl refl v.pool v
  Run-IsSound (loads_routes lock memory table n) v = repool-IsSound n _ refl refl refl v.pool v

  static_data-IsSound : (routing : Routing) → IsSound (static_data o routing)
  static_data-IsSound routing = record {
    members = [];
    listed = record {
      linked = record { chain = refl; distinct = tt; below = tt; fits = omega arith };
      unlisted = λ j h.
          ap (λ (s : Socket o). s.next) (get_or-replicate max_socket_count j (blank_socket o));
      sockets = length-replicate max_socket_count (blank_socket o);
    };
    pool = record { slots = refl; flags = refl };
    ephemeral = omega arith;
    ports = λ j. rw (get_or-replicate max_socket_count j (blank_socket o)) (omega arith);
  }

  -- At any time after danp_init at the start of a program, whatever calls it made and frames it
  -- got, and however the calls interleaved at their waits, the data of the library is as it should
  -- be: the list of active sockets ends, has no socket twice and stays inside the pool, a slot off
  -- it points nowhere, every local port is below 64, the next ephemeral port is between 1 and 63,
  -- and the arrays have their sizes.
  pub reachable-IsSound :
      (socket_mutex_made buffer_mutex_made : Bool) (local_node : ℕ) (routing : Routing)
      → (m : Node o) → Run (start o socket_mutex_made buffer_mutex_made local_node routing) m
      → IsSound m
  unfolding start
  reachable-IsSound a b local_node routing m r =
      Run-IsSound r (init-IsSound a b local_node _ (static_data-IsSound routing))
