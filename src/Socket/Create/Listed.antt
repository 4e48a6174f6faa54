-- ===== src/Socket/Create/Listed.antt =====
-- danp_socket on a list of active sockets that is as it should be.
use danp.Prelude.{
  ℕ, zero, suc, ◌<◌, ◌≡◌, refl, ap, ◌∙◌, ◌⊎◌, inl, inr, List, ◌∷◌, Option, none, some, arith,
  length, Bool-cases, Option-cases,
}
use danp.Types.{SocketType, closed}
use danp.Osal.{Osal, socket_mutex}
use danp.Node.{Socket, Node, socket_at, free}
use danp.Socket.Create.{
  free_slot, detach, fresh_socket, drain_packets, drain_sockets, finish, create,
}
use danp.Socket.Create.Slots.{free_slot-closed}
use danp.Socket.Create.Detach.{
  IsDetached, detach-IsDetached, IsDetached-IsListed, IsDetached-pushed,
}
use danp.Socket.Links.{remove}
use danp.Socket.Links.Listed.{IsListed}

module _ {o : Osal} where
  -- Two nodes with the same sockets, the same list, and the same next port.
  pub record SameSockets (n m : Node o) : Type 0 where
    pub socket_pool : m.socket_pool ≡ n.socket_pool
    pub socket_list : m.socket_list ≡ n.socket_list
    pub next_ephemeral_port : m.next_ephemeral_port ≡ n.next_ephemeral_port

  pub drain_packets-SameSockets :
      (k : ℕ) (q : o.Mq (Option ℕ)) (n : Node o) → SameSockets n (drain_packets k q n).1
  unfolding drain_packets free
  drain_packets-SameSockets zero q n = record {
    socket_pool = refl;
    socket_list = refl;
    next_ephemeral_port = refl;
  }
  drain_packets-SameSockets (suc k) q n = elim (Option-cases (o.mq_receive q)) [
    | inl e ↦
        rw (drain_packets, e)
          (record { socket_pool = refl; socket_list = refl; next_ephemeral_port = refl })
    | inr ((p, q'), e) ↦
        let s = drain_packets-SameSockets k q' (free p n) in
        rw (drain_packets, e)
          (record {
            socket_pool = s.socket_pool;
            socket_list = s.socket_list;
            next_ephemeral_port = s.next_ephemeral_port;
          })
  ]

  same-IsDetached :
      (i : ℕ) (n m : Node o) (is : List ℕ) → SameSockets n m → IsDetached i n is → IsDetached i m is
  same-IsDetached i n m is s d = record {
    linked = record {
      chain = rw (s.socket_pool, s.socket_list) d.linked.chain;
      distinct = d.linked.distinct;
      below = rw (s.socket_pool) d.linked.below;
      fits = d.linked.fits;
    };
    off = d.off;
    unlisted = rw (s.socket_pool) d.unlisted;
    sockets = ap length s.socket_pool ∙ d.sockets;
  }

  finish-IsListed :
      (i : ℕ) (s : Socket o) (n : Node o) (is : List ℕ)
      → IsDetached i n is
      → i < length n.socket_pool
      → s.next ≡ none
      → (((finish i s n).0 ≡ some i) × IsListed (finish i s n).1 (i ∷ is))
        ⊎ (((finish i s n).0 ≡ none) × IsListed (finish i s n).1 is)
  unfolding finish
  finish-IsListed i s n is d r e =
      let failed = IsDetached-IsListed i (record s { state = closed }) n is d r e in
      elim (Option-cases s.rx_queue) [
        | inl f ↦ rw (finish, f) (inr (refl, failed))
        | inr (rx, f) ↦ elim (Option-cases s.accept_queue) [
          | inl g ↦ rw (finish, f, finish, g) (inr (refl, failed))
          | inr (acc, g) ↦ elim (Option-cases s.signal) [
            | inl h ↦ rw (finish, f, finish, g, finish, h) (inr (refl, failed))
            | inr (sig, h) ↦
                let k = drain_packets-SameSockets (length (o.contents rx)) rx n in
                let m = (drain_packets (length (o.contents rx)) rx n).1 in
                let r' : i < length m.socket_pool = omega (arith, r, ap length k.socket_pool) in
                let rx' = (drain_packets (length (o.contents rx)) rx n).0 in
                let acc' = drain_sockets o (length (o.contents acc)) acc in
                let ready : Socket o = record s {
                  rx_queue = some rx';
                  accept_queue = some acc';
                  next = m.socket_list;
                } in
                rw (finish, f, finish, g, finish, h)
                  (inl
                    (refl, IsDetached-pushed i ready m is (same-IsDetached i n m is k d) r' refl))
          ]
        ]
      ]

  -- What danp_socket does to a list of active sockets that is as it should be. If it gives out a
  -- socket, that socket stands first and the others stay in their order, also where the slot was
  -- still on the list, closed by its peer. If it fails, the list stays, or loses the slot that the
  -- OS layer had no queue or semaphore for.
  pub create-IsListed :
      (type : SocketType) (n : Node o) (is : List ℕ)
      → IsListed n is
      → let (got, m) = create type n in
        ((c : ℕ) × (got ≡ some c) × IsListed m (c ∷ remove c is))
        ⊎ ((got ≡ none) × (IsListed m is ⊎ ((c : ℕ) × IsListed m (remove c is))))
  unfolding create fresh_socket
  create-IsListed type n is v = elim (Bool-cases (o.mutex_lock socket_mutex)) [
    | inr l ↦ rw l (inr (refl, inl v))
    | inl l ↦ elim (Option-cases (free_slot 0 n.socket_pool)) [
      | inl f ↦ rw (l, f) (inr (refl, inl v))
      | inr (c, f) ↦
          let (m, at, r, _) = free_slot-closed n.socket_pool 0 c f in
          let d = detach-IsDetached c n is v in
          let here : c < length (detach c n).socket_pool =
            omega (arith, at, r, d.sockets, v.sockets) in
          elim (finish-IsListed c (fresh_socket type n.config_local_node (socket_at (detach c n) c))
            (detach c n) (remove c is) d here refl) [
              | inl (g, k) ↦ rw (l, f) (inl (c, g, k))
              | inr (g, k) ↦ rw (l, f) (inr (g, inr (c, k)))
            ]
    ]
  ]
