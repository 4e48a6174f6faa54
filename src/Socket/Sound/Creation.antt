-- ===== src/Socket/Sound/Creation.antt =====
-- danp_socket keeps the invariant.
use danp.Prelude.{
  ℕ, zero, suc, ◌<◌, ◌≡◌, refl, ◌∙◌, inl, inr, List, [], ◌∷◌, Option, arith, length, get_or,
  Bool-cases, Option-cases,
}
use danp.Types.{SocketType, max_ports, closed}
use danp.Osal.{Osal, socket_mutex}
use danp.Node.{Socket, Node, socket_at, put_socket, blank_socket}
use danp.Socket.Find.{points_to}
use danp.Socket.Create.{bypass, detach, fresh_socket, drain_packets, finish, create, free_slot}
use danp.Socket.Create.Slots.{create-cases}
use danp.Buffer.Laws.{IsPool}
use danp.Socket.Links.{remove}
use danp.Socket.Links.Listed.{IsListed}
use danp.Socket.Create.Listed.{drain_packets-SameSockets, create-IsListed}
use danp.Socket.Sound.{IsSound, ports-set}

module _ {o : Osal} where
  abbrev HasPorts : Node o → Type 0
  HasPorts n = (j : ℕ) → (socket_at n j).local_port < max_ports

  bypass-ports :
      (i : ℕ) (after : Option ℕ) (socks : List (Socket o)) (j : ℕ)
      → (get_or (bypass i after socks) j (blank_socket o)).local_port
        ≡ (get_or socks j (blank_socket o)).local_port
  unfolding bypass
  bypass-ports i after [] j = refl
  bypass-ports i after (s ∷ socks) zero = elim (Bool-cases (points_to s.next i)) [
    | inl y ↦ rw y refl
    | inr n ↦ rw n refl
  ]
  bypass-ports i after (s ∷ socks) (suc j) = elim (Bool-cases (points_to s.next i)) [
    | inl y ↦ rw y refl
    | inr n ↦ rw n (bypass-ports i after socks j)
  ]

  -- What danp_socket leaves of the ports.
  record KeepsPorts (n m : Node o) : Type 0 where
    ports : HasPorts n → HasPorts m
    ephemeral : m.next_ephemeral_port ≡ n.next_ephemeral_port

  detach-KeepsPorts : (i : ℕ) (n : Node o) → KeepsPorts n (detach i n)
  unfolding detach
  detach-KeepsPorts i n = elim (Bool-cases (points_to n.socket_list i)) [
    | inl y ↦ rw y (record { ports = λ h. h; ephemeral = refl })
    | inr f ↦ rw f (record {
      ports = λ h j. rw (bypass-ports i (socket_at n i).next n.socket_pool j) (h j);
      ephemeral = refl;
    })
  ]

  put-KeepsPorts :
      (i : ℕ) (s : Socket o) (n m : Node o)
      → s.local_port < max_ports
      → KeepsPorts n m
      → KeepsPorts n (put_socket m i s)
  put-KeepsPorts i s n m h k = record {
    ports = λ p. ports-set m.socket_pool i s h (k.ports p);
    ephemeral = k.ephemeral;
  }

  finish-KeepsPorts :
      (i : ℕ) (s : Socket o) (n m : Node o)
      → s.local_port < max_ports
      → KeepsPorts n m
      → KeepsPorts n (finish i s m).1
  unfolding finish
  finish-KeepsPorts i s n m h k =
      let failed = put-KeepsPorts i (record s { state = closed }) n m h k in
      elim (Option-cases s.rx_queue) [
        | inl f ↦ rw (finish, f) failed
        | inr (rx, f) ↦ elim (Option-cases s.accept_queue) [
          | inl g ↦ rw (finish, f, finish, g) failed
          | inr (acc, g) ↦ elim (Option-cases s.signal) [
            | inl e ↦ rw (finish, f, finish, g, finish, e) failed
            | inr (sig, e) ↦
                let d = drain_packets-SameSockets (length (o.contents rx)) rx m in
                rw (finish, f, finish, g, finish, e)
                  (record {
                    ports = λ p.
                        ports-set (drain_packets (length (o.contents rx)) rx m).1.socket_pool i _ h
                          (rw (d.socket_pool) (k.ports p));
                    ephemeral = d.next_ephemeral_port ∙ k.ephemeral;
                  })
          ]
        ]
      ]

  create-KeepsPorts : (type : SocketType) (n : Node o) → KeepsPorts n (create type n).1
  unfolding create fresh_socket
  create-KeepsPorts type n =
      let same : KeepsPorts n n = record { ports = λ h. h; ephemeral = refl } in
      elim (Bool-cases (o.mutex_lock socket_mutex)) [
        | inr l ↦ rw l same
        | inl l ↦ elim (Option-cases (free_slot 0 n.socket_pool)) [
          | inl f ↦ rw (l, f) same
          | inr (c, f) ↦
              rw (l, f) (finish-KeepsPorts c _ n (detach c n) (omega arith) (detach-KeepsPorts c n))
        ]
      ]

  create-IsPool : (type : SocketType) (n : Node o) → IsSound n → IsPool (create type n).1.pool
  create-IsPool type n v = elim (create-cases type n v.pool) [
    | inl (c, _, k) ↦ k.pool
    | inr (_, k) ↦ k.pool
  ]

  pub create-IsSound : (type : SocketType) (n : Node o) → IsSound n → IsSound (create type n).1
  create-IsSound type n v =
      let k = create-KeepsPorts type n in
      let whole = λ (is : List ℕ) (l : IsListed (create type n).1 is).
        let r : IsSound (create type n).1 = record {
          members = is;
          listed = l;
          pool = create-IsPool type n v;
          ephemeral = rw (k.ephemeral) v.ephemeral;
          ports = k.ports v.ports;
        } in
        r in
      elim (create-IsListed type n v.members v.listed) [
        | inl (c, _, l) ↦ whole (c ∷ remove c v.members) l
        | inr (_, inl l) ↦ whole v.members l
        | inr (_, inr (c, l)) ↦ whole (remove c v.members) l
      ]
