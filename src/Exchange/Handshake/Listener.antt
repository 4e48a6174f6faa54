-- ===== src/Exchange/Handshake/Listener.antt =====
-- The listener's side of a handshake: a SYN makes a socket for the one that asks.
use danp.Prelude.{
  ℕ, ◌<◌, ◌≡◌, ◌≢◌, refl, ap, sym, ◌∙◌, subst, List, [], ◌∷◌, some, ℤ, arith, length, bit_or,
  get_or, get_or-set_self, get_or-set_ne, length-set, inl, inr, true, ==_refl, Bool-cases, ltb,
  get_or-beyond,
}
use danp.Types.{Packet, stream, listening, syn_received, flag_syn, flag_ack, has}
use danp.Osal.{Osal}
use danp.Buffer.Laws.{IsPool}
use danp.Header.{Header}
use danp.Node.{Node, Socket, blank_socket, socket_at, put_socket, free}
use danp.Node.Traffic.{SameButTraffic}
use danp.Socket.Find.{find_socket, find_socket_from, accepts, is_exact, is_active}
use danp.Socket.Control.{send_control}
use danp.Socket.Control.Laws.{send_control-SameButTraffic}
use danp.Socket.Create.{create}
use danp.Socket.Create.Slots.{create-cases, KeptBut}
use danp.Socket.Create.Fresh.{IsFresh, create-IsFresh}
use danp.Socket.Input.{on_connect_request, adopt}
use danp.Exchange.Peer.{ReachesPeer, to_peer, send_control-handed}
use danp.Exchange.Handshake.Branches.{on_connect_request-queued}
use danp.Exchange.Handshake.Caller.{control_payload-stream}

module _ {o : Osal} where
  abbrev pub made : Node o → Node o
  made n = (create stream n).1

  -- The node with the new socket `c`, which has the peer of the header, and is waiting in the
  -- accept queue `q'` of the socket `l`.
  abbrev pub adopted : Node o → (c : ℕ) → Header → Node o
  adopted n c h = adopt c h.dst_port h.src h.src_port (made n)

  abbrev pub queued : Node o → (l c : ℕ) → Header → o.Mq ℕ → Node o
  queued n l c h q' =
      put_socket (adopted n c h) l (record (socket_at (adopted n c h) l) { accept_queue = some q' })

  abbrev pub child : Node o → (c : ℕ) → Header → Socket o
  child n c h = record (socket_at (made n) c) {
    local_node = (made n).config_local_node;
    local_port = h.dst_port;
    remote_node = h.src;
    remote_port = h.src_port;
    state = syn_received;
  }

  abbrev pub after_request : Node o → (p l c : ℕ) → Header → o.Mq ℕ → Node o
  after_request n p l c h q' =
      free (some p) (send_control c (bit_or flag_ack flag_syn) 0 (queued n l c h q'))

  -- The head of the list is looked at first.
  find_socket-first :
      (n : Node o) (c local_port remote_node remote_port : ℕ)
      → n.socket_list ≡ some c
      → accepts local_port remote_node remote_port (socket_at n c) ≡ true
      → find_socket n local_port remote_node remote_port ≡ some c
  unfolding find_socket find_socket_from
  find_socket-first n c local_port remote_node remote_port head e =
      rw (find_socket, head, find_socket_from, e) refl

  child-accepted :
      (n : Node o) (c : ℕ) (h : Header) → accepts h.dst_port h.src h.src_port (child n c h) ≡ true
  unfolding accepts is_exact is_active
  child-accepted n c h = rw (==_refl h.dst_port, ==_refl h.src, ==_refl h.src_port) refl

  -- The socket `l` listens and has room for the socket `c`, which danp_socket gives out.
  pub record Admits (n : Node o) (l c : ℕ) (q q' : o.Mq ℕ) : Type 0 where
    pub pool : IsPool n.pool
    pub type : (socket_at n l).type ≡ stream
    pub state : (socket_at n l).state ≡ listening
    pub free_socket : (create stream n).0 ≡ some c
    pub queue : (socket_at (made n) l).accept_queue ≡ some q
    pub room : o.mq_send q c ≡ some q'

  module _ (n : Node o) (p l c : ℕ) (h : Header) (q q' : o.Mq ℕ) (v : Admits n l c q q') where
    made-KeptBut : KeptBut c n (made n)
    made-KeptBut = elim (create-cases stream n v.pool) [
      | inl (d, e, k) ↦
          let same : d ≡ c = cc (e, v.free_socket) in subst (λ (i : ℕ). KeptBut i n (made n)) same k
      | inr (e, _) ↦ absurd (cc (e, v.free_socket))
    ]

    pub made-IsFresh : IsFresh stream c n (made n)
    made-IsFresh = create-IsFresh stream n c v.pool v.free_socket

    pub apart : c ≢ l
    apart e = cc (v.state, made-KeptBut.was_closed, ap (λ i. (socket_at n i).state) e)

    adopted-at : socket_at (adopted n c h) c ≡ child n c h
    unfolding adopt
    adopted-at =
        get_or-set_self (made n).socket_pool c (child n c h) (blank_socket o) made-KeptBut.in_range

    adopted-queue : (socket_at (adopted n c h) l).accept_queue ≡ some q
    unfolding adopt
    adopted-queue =
        ap (λ (s : Socket o). s.accept_queue)
          (get_or-set_ne (made n).socket_pool c l (child n c h) (blank_socket o) apart)
        ∙ v.queue

    listener-inside : l < length (adopted n c h).socket_pool
    unfolding adopt
    listener-inside = elim (Bool-cases (ltb l (length (made n).socket_pool))) [
      | inl y ↦
          let r : l < length (made n).socket_pool = ground arith in
          omega (arith, length-set (made n).socket_pool c (child n c h), r)
      | inr f ↦
          let beyond = get_or-beyond (made n).socket_pool l (blank_socket o) (ground arith) in
          absurd (cc (v.queue, beyond))
    ]

    pub queued-at : socket_at (queued n l c h q') c ≡ child n c h
    queued-at =
        get_or-set_ne (adopted n c h).socket_pool l c
          (record (socket_at (adopted n c h) l) { accept_queue = some q' }) (blank_socket o)
          (λ e. apart (sym e))
        ∙ adopted-at

    pub on_connect_request-after : on_connect_request p l h n ≡ (after_request n p l c h q')
    on_connect_request-after =
        on_connect_request-queued p l c h n q q' v.type v.free_socket adopted-queue v.room

    queued-IsPool : IsPool (queued n l c h q').pool
    unfolding adopt
    queued-IsPool = made-KeptBut.pool

    answered-SameButTraffic :
        SameButTraffic
          (queued n l c h q')
          (send_control c (bit_or flag_ack flag_syn) 0 (queued n l c h q'))
    answered-SameButTraffic =
        send_control-SameButTraffic c (bit_or flag_ack flag_syn) 0 (queued n l c h q') queued-IsPool

    after_request-sockets :
        (after_request n p l c h q').socket_pool ≡ (queued n l c h q').socket_pool
    unfolding free
    after_request-sockets = answered-SameButTraffic.socket_pool

    pub after_request-at : socket_at (after_request n p l c h q') c ≡ child n c h
    after_request-at =
        ap (λ (socks : List (Socket o)). get_or socks c (blank_socket o)) after_request-sockets
        ∙ queued-at

    pub after_request-inside : c < length (after_request n p l c h q').socket_pool
    unfolding adopt
    after_request-inside = omega (
      arith,
      made-KeptBut.in_range,
      ap length after_request-sockets,
      length-set (adopted n c h).socket_pool l
          (record (socket_at (adopted n c h) l) { accept_queue = some q' }),
      length-set (made n).socket_pool c (child n c h),
    )

    -- The socket waits last in the accept queue.
    pub after_request-waits : (socket_at (after_request n p l c h q') l).accept_queue ≡ some q'
    after_request-waits =
        ap (λ (socks : List (Socket o)). (get_or socks l (blank_socket o)).accept_queue)
          after_request-sockets
        ∙ ap (λ (s : Socket o). s.accept_queue)
            (get_or-set_self (adopted n c h).socket_pool l
              (record (socket_at (adopted n c h) l) { accept_queue = some q' }) (blank_socket o)
              listener-inside)

    after_request-head : (after_request n p l c h q').socket_list ≡ some c
    unfolding free adopt
    after_request-head = answered-SameButTraffic.socket_list ∙ made-IsFresh.head

    -- The answer.
    pub after_request-sent :
        (slot out : ℕ) (tx : Packet → ℤ)
        → ReachesPeer (queued n l c h q') c 1 slot out tx
        → (after_request n p l c h q').sent
          ≡ (out, to_peer (queued n l c h q') c (bit_or flag_ack flag_syn) (0 ∷ []) slot) ∷ n.sent
    unfolding free adopt has
    after_request-sent slot out tx w =
        send_control-handed (queued n l c h q') c (bit_or flag_ack flag_syn) 0 (0 ∷ []) slot out tx
          (control_payload-stream (socket_at (queued n l c h q') c) (bit_or flag_ack flag_syn)
            (ap (λ (s : Socket o). s.type) queued-at ∙ made-IsFresh.typed) refl)
          w
        ∙ ap
            (λ sent.
              (out, to_peer (queued n l c h q') c (bit_or flag_ack flag_syn) (0 ∷ []) slot) ∷ sent)
            (made-IsFresh.sent)

    -- The socket is found for what its peer sends next.
    pub after_request-found :
        find_socket (after_request n p l c h q') h.dst_port h.src h.src_port ≡ some c
    after_request-found =
        find_socket-first (after_request n p l c h q') c h.dst_port h.src h.src_port
          after_request-head
          (ap (accepts h.dst_port h.src h.src_port) after_request-at ∙ child-accepted n c h)
