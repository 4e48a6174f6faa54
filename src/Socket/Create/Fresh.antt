-- ===== src/Socket/Create/Fresh.antt =====
-- The socket that danp_socket gives out.
use danp.Prelude.{
  zero, suc, Option, ℕ, ◌<◌, ◌≡◌, refl, ap, sym, ◌∙◌, Option, some, arith, length, Bool-cases,
  Option-cases, inl, inr, get_or-set_self,
}
use danp.Types.{SocketType}
use danp.Osal.{Osal, socket_mutex}
use danp.Buffer.Laws.{IsPool}
use danp.Node.{Socket, Node, socket_at, put_socket, blank_socket, free}
use danp.Socket.Find.{points_to}
use danp.Socket.Create.{
  free_slot, detach, fresh_socket, drain_packets, drain_sockets, finish, create,
}
use danp.Socket.Create.Slots.{free_slot-closed, detach-Kept}
use danp.Socket.Create.Listed.{drain_packets-SameSockets}

module _ {o : Osal} where
  -- From `n` to `m` the socket `c` came to the head of the list, of a type, with its numbers at 0,
  -- and nothing was sent.
  pub record IsFresh (type : SocketType) (c : ℕ) (n m : Node o) : Type 0 where
    pub head : m.socket_list ≡ some c
    pub typed : (socket_at m c).type ≡ type
    pub sends : (socket_at m c).tx_seq ≡ 0
    pub expects : (socket_at m c).rx_expected_seq ≡ 0
    pub sent : m.sent ≡ n.sent
    pub config : m.config_local_node ≡ n.config_local_node

  drain_packets-sent :
      (k : ℕ) (q : o.Mq (Option ℕ)) (n : Node o)
      → let m = (drain_packets k q n).1 in
        (m.sent ≡ n.sent) × (m.config_local_node ≡ n.config_local_node)
  unfolding drain_packets free
  drain_packets-sent zero q n = (refl, refl)
  drain_packets-sent (suc k) q n = elim (Option-cases (o.mq_receive q)) [
    | inl e ↦ rw (drain_packets, e) (refl, refl)
    | inr ((p, q'), e) ↦ rw (drain_packets, e) (drain_packets-sent k q' (free p n))
  ]

  -- The slot is written and put at the head.
  placed-IsFresh :
      (i c : ℕ) (s : Socket o) (n m : Node o)
      → i ≡ c
      → i < length m.socket_pool
      → s.tx_seq ≡ 0
      → s.rx_expected_seq ≡ 0
      → m.sent ≡ n.sent
      → m.config_local_node ≡ n.config_local_node
      → IsFresh s.type c n (record (put_socket m i s) { socket_list = some i })
  placed-IsFresh i c s n m same r zero_sent zero_expected quiet config =
      let here : socket_at (put_socket m i s) c ≡ s =
        ap (λ j. socket_at (put_socket m i s) j) (sym same)
        ∙ get_or-set_self m.socket_pool i s (blank_socket o) r in
      record {
        head = ap some same;
        typed = ap (λ (t : Socket o). t.type) here;
        sends = ap (λ (t : Socket o). t.tx_seq) here ∙ zero_sent;
        expects = ap (λ (t : Socket o). t.rx_expected_seq) here ∙ zero_expected;
        sent = quiet;
        config = config;
      }

  finish-IsFresh :
      (i c : ℕ) (s : Socket o) (n : Node o)
      → i < length n.socket_pool
      → s.tx_seq ≡ 0
      → s.rx_expected_seq ≡ 0
      → (finish i s n).0 ≡ some c
      → IsFresh s.type c n (finish i s n).1
  unfolding finish
  finish-IsFresh i c s n r zero_sent zero_expected e = elim (Option-cases s.rx_queue) [
    | inl f ↦ absurd (cc (rw (finish, f) at e))
    | inr (rx, f) ↦ elim (Option-cases s.accept_queue) [
      | inl g ↦ absurd (cc (rw (finish, f, finish, g) at e))
      | inr (acc, g) ↦ elim (Option-cases s.signal) [
        | inl h ↦ absurd (cc (rw (finish, f, finish, g, finish, h) at e))
        | inr (sig, h) ↦
            let k = drain_packets-SameSockets (length (o.contents rx)) rx n in
            let (quiet, config) = drain_packets-sent (length (o.contents rx)) rx n in
            let (rx', m) = drain_packets (length (o.contents rx)) rx n in
            let ready : Socket o = record s {
              rx_queue = some rx';
              accept_queue = some (drain_sockets o (length (o.contents acc)) acc);
              next = m.socket_list;
            } in
            let same : i ≡ c = cc (rw (finish, f, finish, g, finish, h) at e) in
            rw (finish, f, finish, g, finish, h)
              (placed-IsFresh i c ready n m same (omega (arith, r, ap length k.socket_pool))
                zero_sent zero_expected quiet config)
      ]
    ]
  ]

  detach-sent :
      (i : ℕ) (n : Node o)
      → ((detach i n).sent ≡ n.sent) × ((detach i n).config_local_node ≡ n.config_local_node)
  unfolding detach
  detach-sent i n = elim (Bool-cases (points_to n.socket_list i)) [
    | inl y ↦ rw y (refl, refl)
    | inr f ↦ rw f (refl, refl)
  ]

  -- The socket that danp_socket gives out stands first on the list, has the type that was asked
  -- for, and begins with the numbers 0; nothing is sent.
  pub create-IsFresh :
      (type : SocketType) (n : Node o) (c : ℕ)
      → IsPool n.pool
      → (create type n).0 ≡ some c
      → IsFresh type c n (create type n).1
  unfolding create fresh_socket
  create-IsFresh type n c v e = elim (Bool-cases (o.mutex_lock socket_mutex)) [
    | inr l ↦ absurd (cc (rw l at e))
    | inl l ↦ elim (Option-cases (free_slot 0 n.socket_pool)) [
      | inl f ↦ absurd (cc (rw (l, f) at e))
      | inr (i, f) ↦
          let (m, at, r, _) = free_slot-closed n.socket_pool 0 i f in
          let d = detach-Kept i n v in
          let (sent, config) = detach-sent i n in
          let s =
            finish-IsFresh i c (fresh_socket type n.config_local_node (socket_at (detach i n) i))
              (detach i n) (omega (arith, at, r, d.sockets)) refl refl (rw (l, f) at e) in
          rw (l, f)
            (record {
              head = s.head;
              typed = s.typed;
              sends = s.sends;
              expects = s.expects;
              sent = s.sent ∙ sent;
              config = s.config ∙ config;
            })
    ]
  ]
