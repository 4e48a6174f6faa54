-- ===== src/Exchange/Handshake/Caller.antt =====
-- The caller's side of a handshake: danp_connect sends a SYN, and hears the answer while it waits.
use danp.Prelude.{
  ℕ, ◌<◌, ◌≡◌, refl, ap, ◌∙◌, List, [], ◌∷◌, some, ℤ, pos, arith, length, true, set, get_or,
  get_or-set_self, length-set,
}
use danp.Types.{Packet, stream, syn_sent, established, flag_syn, flag_ack, has}
use danp.Osal.{Osal, IsOsal}
use danp.Buffer.Laws.{IsPool}
use danp.Node.{Node, Socket, blank_socket, socket_at, put_socket, free}
use danp.Node.Traffic.{SameButTraffic}
use danp.Socket.Find.{is_dgram}
use danp.Socket.Control.{send_control, control_payload}
use danp.Socket.Control.Laws.{send_control-SameButTraffic}
use danp.Socket.Connect.{take_signal, bind_unbound, set_peer, handshake, connect}
use danp.Socket.Input.{on_accepted, give_signal}
use danp.Exchange.Peer.{ReachesPeer, to_peer, send_control-handed}
use danp.Exchange.Branches.{take_signal-given, signalled}

module _ {o : Osal} where
  -- danp_connect on a stream, before it sends: the socket is bound, knows its peer, and is
  -- SYN_SENT.
  abbrev pub ready : Node o → (i node port : ℕ) → Node o
  ready a i node port = set_peer i node port (bind_unbound i a)

  abbrev pub asked : Node o → (i node port : ℕ) → Node o
  asked a i node port =
      put_socket (ready a i node port) i
        (record (socket_at (ready a i node port) i) { state = syn_sent })

  abbrev pub after_syn : Node o → (i node port : ℕ) → Node o
  after_syn a i node port = send_control i flag_syn 0 (asked a i node port)

  -- The socket `i` is a stream that can send a SYN to the node and the port.
  pub record Asks (a : Node o) (i node port slot out : ℕ) (tx : Packet → ℤ) : Type 0 where
    pub type : (socket_at (ready a i node port) i).type ≡ stream
    pub in_range : i < length (ready a i node port).socket_pool
    pub sem : o.Sem
    pub signal : (socket_at (ready a i node port) i).signal ≡ some sem
    pub reaches : ReachesPeer (asked a i node port) i 0 slot out tx

  connect-handshake :
      (await : Node o → Node o) (a : Node o) (i node port : ℕ)
      → (socket_at (ready a i node port) i).type ≡ stream
      → connect await i node port a ≡ handshake await i (ready a i node port)
  unfolding connect
  connect-handshake await a i node port type = rw (connect, type) refl

  handshake-signal :
      (await : Node o → Node o) (i : ℕ) (n m : Node o)
      → let asking = put_socket n i (record (socket_at n i) { state = syn_sent }) in
        take_signal i (await (send_control i flag_syn 0 asking)) ≡ some m
        → handshake await i n ≡ (pos 0, m)
  unfolding handshake
  handshake-signal await i n m e = rw (handshake, e) refl

  abbrev pub connected : ℕ → Node o → Node o
  connected i n = put_socket n i (record (socket_at n i) { state = established })

  -- What the answer leaves: the socket is ESTABLISHED, its signal is given, an ACK is sent.
  module _ (p i : ℕ) (n : Node o) (sem : o.Sem) (v : IsPool n.pool)
      (signal : (socket_at n i).signal ≡ some sem) (r : i < length n.socket_pool) where
    connected-at : socket_at (connected i n) i ≡ record (socket_at n i) { state = established }
    connected-at =
        get_or-set_self n.socket_pool i (record (socket_at n i) { state = established })
          (blank_socket o) r

    abbrev answered : Node o
    answered = send_control i flag_ack 0 (connected i n)

    answered-at : socket_at answered i ≡ record (socket_at n i) { state = established }
    answered-at =
        ap (λ (socks : List (Socket o)). get_or socks i (blank_socket o))
          ((send_control-SameButTraffic i flag_ack 0 (connected i n) v).socket_pool)
        ∙ connected-at

    answered-signal : (socket_at answered i).signal ≡ some sem
    answered-signal = ap (λ (s : Socket o). s.signal) answered-at ∙ signal

    abbrev given : Node o
    given = free (some p) (give_signal i answered)

    given-eq :
        (given.socket_pool ≡ set answered.socket_pool i (signalled answered i sem))
        × (given.sent ≡ answered.sent)
    unfolding give_signal free
    given-eq = rw (answered-signal, give_signal) (refl, refl)

    answered-inside : i < length answered.socket_pool
    answered-inside = omega (
      arith,
      r,
      ap length ((send_control-SameButTraffic i flag_ack 0 (connected i n) v).socket_pool),
      length-set n.socket_pool i (record (socket_at n i) { state = established }),
    )

    given-at :
        socket_at given i
        ≡ record (socket_at n i) { state = established; signal = some (o.sem_give sem) }
    given-at =
        ap (λ (socks : List (Socket o)). get_or socks i (blank_socket o)) (given-eq.0)
        ∙ get_or-set_self answered.socket_pool i (signalled answered i sem) (blank_socket o)
            answered-inside
        ∙ ap (λ (s : Socket o). record s { signal = some (o.sem_give sem) }) answered-at

    given-inside : i < length given.socket_pool
    given-inside = omega (
      arith,
      answered-inside,
      ap length (given-eq.0),
      length-set answered.socket_pool i (signalled answered i sem),
    )

    -- The signal is there to be taken, and the socket is ESTABLISHED.
    pub on_accepted-signal :
        IsOsal o
        → (sem' : o.Sem) × (k : Node o) × (take_signal i (on_accepted p i n) ≡ some k)
          × (socket_at k i ≡ record (socket_at n i) { state = established; signal = some sem' })
          × (k.sent ≡ (send_control i flag_ack 0 (connected i n)).sent)
    unfolding on_accepted
    on_accepted-signal os =
        let (sem', free_again) = os.give_take sem in
        let now : (socket_at given i).signal ≡ some (o.sem_give sem) =
          ap (λ (s : Socket o). s.signal) given-at in
        let taken : Socket o = record (socket_at given i) { signal = some sem' } in
        (
          sem',
          put_socket given i taken,
          take_signal-given i given (o.sem_give sem) sem' now free_again,
          get_or-set_self given.socket_pool i taken (blank_socket o) given-inside
              ∙ ap (λ (s : Socket o). record s { signal = some sem' }) given-at,
          given-eq.1,
        )

  control_payload-syn : (s : Socket o) → control_payload s flag_syn 0 ≡ []
  unfolding control_payload has
  control_payload-syn s = refl

  pub control_payload-stream :
      (s : Socket o) (flags : ℕ)
      → s.type ≡ stream
      → has flags flag_ack ≡ true
      → control_payload s flags 0 ≡ 0 ∷ []
  unfolding control_payload is_dgram
  control_payload-stream s flags type ack = rw (type, ack) refl

  module _ (a : Node o) (i node port slot out : ℕ) (tx : Packet → ℤ)
      (v : Asks a i node port slot out tx) where
    -- The SYN.
    pub after_syn-sent :
        (after_syn a i node port).sent
        ≡ (out, to_peer (asked a i node port) i flag_syn [] slot) ∷ (asked a i node port).sent
    after_syn-sent =
        send_control-handed (asked a i node port) i flag_syn 0 [] slot out tx
          (control_payload-syn (socket_at (asked a i node port) i)) v.reaches

    pub after_syn-SameButTraffic : SameButTraffic (asked a i node port) (after_syn a i node port)
    after_syn-SameButTraffic =
        send_control-SameButTraffic i flag_syn 0 (asked a i node port) v.reaches.pool

    pub asked-at :
        socket_at (asked a i node port) i
        ≡ record (socket_at (ready a i node port) i) { state = syn_sent }
    asked-at =
        get_or-set_self (ready a i node port).socket_pool i
          (record (socket_at (ready a i node port) i) { state = syn_sent }) (blank_socket o)
          v.in_range

    pub after_syn-at :
        socket_at (after_syn a i node port) i
        ≡ record (socket_at (ready a i node port) i) { state = syn_sent }
    after_syn-at =
        ap (λ (socks : List (Socket o)). get_or socks i (blank_socket o))
          (after_syn-SameButTraffic.socket_pool)
        ∙ asked-at

    pub after_syn-inside : i < length (after_syn a i node port).socket_pool
    after_syn-inside = omega (
      arith,
      v.in_range,
      ap length (after_syn-SameButTraffic.socket_pool),
      length-set (ready a i node port).socket_pool i
          (record (socket_at (ready a i node port) i) { state = syn_sent }),
    )

    -- The socket knows its peer.
    pub ready-at :
        ((socket_at (ready a i node port) i).remote_node ≡ node)
        × ((socket_at (ready a i node port) i).remote_port ≡ port)
    unfolding set_peer
    ready-at =
        let bound = bind_unbound i a in
        let s : Socket o = record (socket_at bound i) { remote_node = node; remote_port = port } in
        let at =
          get_or-set_self bound.socket_pool i s (blank_socket o)
            (omega (arith, v.in_range, length-set bound.socket_pool i s)) in
        (ap (λ (t : Socket o). t.remote_node) at, ap (λ (t : Socket o). t.remote_port) at)

    -- danp_connect returns 0 where its signal is there after the wait.
    pub connect-signal :
        (await : Node o → Node o) (k : Node o)
        → take_signal i (await (after_syn a i node port)) ≡ some k
        → connect await i node port a ≡ (pos 0, k)
    connect-signal await k e =
        connect-handshake await a i node port v.type
        ∙ handshake-signal await i (ready a i node port) k e
