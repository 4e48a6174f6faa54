-- ===== src/Exchange/Handshake/Established.antt =====
-- danp_connect and danp_accept: a handshake from end to end.
use danp.Prelude.{
  ℕ, ◌%◌, ◌≡◌, refl, ap, ◌∙◌, List, [], ◌∷◌, ◌++◌, some, ℤ, pos, bit_or, get_or-set_self,
  get_or-set_ne,
}
use danp.Types.{Packet, stream, established, flag_syn, flag_ack, has}
use danp.Osal.{Osal, IsOsal}
use danp.Buffer.Laws.{IsPool}
use danp.Node.{Node, Socket, blank_socket, socket_at, free}
use danp.Socket.Control.{send_control}
use danp.Socket.Connect.{connect, accept, take_signal}
use danp.Socket.Input.{on_final_ack, on_accepted}
use danp.Receive.{input}
use danp.Driver.{packet_bytes}
use danp.Exchange.Reception.{Takes, filled_node}
use danp.Exchange.Peer.{ReachesPeer, to_peer, peer_header, send_control-handed}
use danp.Exchange.Segment.{hears, hears-taken}
use danp.Exchange.Handshake.Branches.{
  dispatch-connect_request, dispatch-accepted, dispatch-final_ack,
}
use danp.Exchange.Handshake.Caller
use danp.Exchange.Handshake.Caller.{
  Asks, ready, asked, after_syn, connected, control_payload-stream,
}
use danp.Exchange.Handshake.Listener
use danp.Exchange.Handshake.Listener.{Admits, queued, child, after_request}
use danp.Exchange.Handshake.Arrival.{
  Awaits, IsOtherEnd, to_peer-input, filled_node-IsPool, send-last, accept-first,
}

module _ {o : Osal} where
  module _ (a : Node o) (i node port slot out : ℕ) (tx : Packet → ℤ) (b : Node o)
      (iface_b slot_b l c : ℕ) (q q' : o.Mq ℕ) (slot_b' out_b : ℕ) (tx_b : Packet → ℤ)
      (iface_a slot_a slot_a' out_a : ℕ) (tx_a : Packet → ℤ) (slot_c : ℕ) where
    abbrev pub caller : Socket o
    caller = socket_at (ready a i node port) i

    abbrev pub syn : Packet
    syn = to_peer (asked a i node port) i flag_syn [] slot

    abbrev pub asks_b : Node o
    asks_b = filled_node b iface_b slot_b syn

    abbrev pub queued_b : Node o
    queued_b = queued asks_b l c (peer_header caller flag_syn) q'

    abbrev pub answer : Packet
    answer = to_peer queued_b c (bit_or flag_ack flag_syn) (0 ∷ []) slot_b'

    abbrev pub answered_b : Node o
    answered_b = after_request asks_b slot_b l c (peer_header caller flag_syn) q'

    abbrev pub heard_a : Node o
    heard_a = filled_node (after_syn a i node port) iface_a slot_a answer

    abbrev pub ack : Packet
    ack = to_peer (connected i heard_a) i flag_ack (0 ∷ []) slot_a'

    -- The SYN arrives.
    syn-taken :
        Asks a i node port slot out tx
        → Takes b iface_b slot_b l (peer_header caller flag_syn)
        → Admits asks_b l c q q'
        → input iface_b (packet_bytes syn) b ≡ some answered_b
    syn-taken v t w =
        to_peer-input (asked a i node port) b i flag_syn [] slot out tx iface_b slot_b l
          (peer_header caller flag_syn) v.reaches
          (ap (λ (s : Socket o). peer_header s flag_syn)
            (Caller.asked-at a i node port slot out tx v))
          t
        ∙ ap some (
            dispatch-connect_request slot_b l (peer_header caller flag_syn) asks_b refl w.state
            ∙ Listener.on_connect_request-after asks_b slot_b l c (peer_header caller flag_syn) q q'
                w)

    -- The answer arrives, while danp_connect waits.
    answer-taken :
        (v : Asks a i node port slot out tx) (w : Admits asks_b l c q q')
        → ReachesPeer queued_b c 1 slot_b' out_b tx_b
        → Takes
            (after_syn a i node port)
            iface_a
            slot_a
            i
            (peer_header (child asks_b c (peer_header caller flag_syn)) (bit_or flag_ack flag_syn))
        → input iface_a (packet_bytes answer) (after_syn a i node port)
          ≡ some (on_accepted slot_a i heard_a)
    answer-taken v w r t =
        let h =
          peer_header (child asks_b c (peer_header caller flag_syn)) (bit_or flag_ack flag_syn) in
        to_peer-input queued_b (after_syn a i node port) c (bit_or flag_ack flag_syn) (0 ∷ [])
          slot_b' out_b tx_b iface_a slot_a i h r
          (ap (λ (s : Socket o). peer_header s (bit_or flag_ack flag_syn))
            (Listener.queued-at asks_b slot_b l c (peer_header caller flag_syn) q q' w))
          t
        ∙ ap some (
            dispatch-accepted slot_a i h heard_a refl
              (ap (λ (s : Socket o). s.state) (Caller.after_syn-at a i node port slot out tx v)))

    -- What the caller's socket is, once danp_connect has its signal.
    answered-a :
        (os : IsOsal o) (v : Asks a i node port slot out tx)
        → IsPool heard_a.pool
        → (sem' : o.Sem) × (k : Node o) × (take_signal i (on_accepted slot_a i heard_a) ≡ some k)
          × (socket_at k i ≡ record caller { state = established; signal = some sem' })
          × (k.sent ≡ (send_control i flag_ack 0 (connected i heard_a)).sent)
    answered-a os v pool =
        let at = Caller.after_syn-at a i node port slot out tx v in
        let (sem', k, taken, here, sent) =
          Caller.on_accepted-signal slot_a i heard_a v.sem pool
            (ap (λ (s : Socket o). s.signal) at ∙ v.signal)
            (Caller.after_syn-inside a i node port slot out tx v) os in
        (
          sem',
          k,
          taken,
          here ∙ ap (λ (s : Socket o). record s { state = established; signal = some sem' }) at,
          sent,
        )

    connected-socket :
        Asks a i node port slot out tx
        → socket_at (connected i heard_a) i ≡ record caller { state = established }
    connected-socket v =
        get_or-set_self heard_a.socket_pool i (record (socket_at heard_a i) { state = established })
          (blank_socket o) (Caller.after_syn-inside a i node port slot out tx v)
        ∙ ap (λ (s : Socket o). record s { state = established })
            (Caller.after_syn-at a i node port slot out tx v)

    connected-stream :
        Asks a i node port slot out tx → (socket_at (connected i heard_a) i).type ≡ stream
    connected-stream v = ap (λ (s : Socket o). s.type) (connected-socket v) ∙ v.type

    connected-at :
        Asks a i node port slot out tx
        → peer_header (socket_at (connected i heard_a) i) flag_ack ≡ peer_header caller flag_ack
    connected-at v = ap (λ (s : Socket o). peer_header s flag_ack) (connected-socket v)

    -- The ACK arrives.
    ack-taken :
        (v : Asks a i node port slot out tx) (w : Admits asks_b l c q q')
        → ReachesPeer (connected i heard_a) i 1 slot_a' out_a tx_a
        → Awaits answered_b iface_b slot_c (caller.remote_node % 256)
        → input iface_b (packet_bytes ack) answered_b
          ≡ some (on_final_ack slot_c c (filled_node answered_b iface_b slot_c ack))
    ack-taken v w r t =
        let h = peer_header caller flag_ack in
        let waiting =
          Listener.after_request-at asks_b slot_b l c (peer_header caller flag_syn) q q' w in
        to_peer-input (connected i heard_a) answered_b i flag_ack (0 ∷ []) slot_a' out_a tx_a
          iface_b slot_c c h r (connected-at v)
          (record {
            lock = t.lock;
            pool = t.pool;
            packet = t.packet;
            array = t.array;
            address = t.address;
            plain = refl;
            found =
                Listener.after_request-found asks_b slot_b l c (peer_header caller flag_syn) q q' w;
          })
        ∙ ap some (
            dispatch-final_ack slot_c c h (filled_node answered_b iface_b slot_c ack) refl
              (ap (λ (s : Socket o). s.state) waiting))

    abbrev met_b : Node o
    met_b = on_final_ack slot_c c (filled_node answered_b iface_b slot_c ack)

    met-at :
        (w : Admits asks_b l c q q')
        → socket_at met_b c
          ≡ record (child asks_b c (peer_header caller flag_syn)) { state = established }
    unfolding on_final_ack free
    met-at w =
        get_or-set_self answered_b.socket_pool c
          (record (socket_at answered_b c) { state = established }) (blank_socket o)
          (Listener.after_request-inside asks_b slot_b l c (peer_header caller flag_syn) q q' w)
        ∙ ap (λ (s : Socket o). record s { state = established })
            (Listener.after_request-at asks_b slot_b l c (peer_header caller flag_syn) q q' w)

    met-waits : Admits asks_b l c q q' → (socket_at met_b l).accept_queue ≡ some q'
    unfolding on_final_ack free
    met-waits w =
        ap (λ (s : Socket o). s.accept_queue)
          (get_or-set_ne answered_b.socket_pool c l
            (record (socket_at answered_b c) { state = established }) (blank_socket o)
            (Listener.apart asks_b slot_b l c (peer_header caller flag_syn) q q' w))
        ∙ Listener.after_request-waits asks_b slot_b l c (peer_header caller flag_syn) q q' w

    met_b-IsOtherEnd : Admits asks_b l c q q' → IsOtherEnd (socket_at met_b c) caller
    met_b-IsOtherEnd w =
        let at = met-at w in
        let fresh = Listener.made-IsFresh asks_b slot_b l c (peer_header caller flag_syn) q q' w in
        record {
          type = ap (λ (s : Socket o). s.type) at ∙ fresh.typed;
          state = ap (λ (s : Socket o). s.state) at;
          remote_node = ap (λ (s : Socket o). s.remote_node) at;
          remote_port = ap (λ (s : Socket o). s.remote_port) at;
          local_port = ap (λ (s : Socket o). s.local_port) at;
          sends = ap (λ (s : Socket o). s.tx_seq) at ∙ fresh.sends;
          expects = ap (λ (s : Socket o). s.rx_expected_seq) at ∙ fresh.expects;
        }

    -- A stream that can send asks a node where a socket listens for it, with an empty accept queue
    -- and a socket to be had; each of the three packets that they send is handed to danp_input of
    -- the other, the answer while danp_connect waits. Then danp_connect returns 0, the caller's
    -- socket is ESTABLISHED, with the node and the port that were asked for, and has sent a SYN and
    -- an ACK; and danp_accept on the listening socket gives out a socket that is ESTABLISHED and the
    -- other end of the caller's.
    pub handshake_establishes :
        IsOsal o
        → Asks a i node port slot out tx
        → Takes b iface_b slot_b l (peer_header caller flag_syn)
        → Admits asks_b l c q q'
        → o.contents q ≡ []
        → ReachesPeer queued_b c 1 slot_b' out_b tx_b
        → Takes
            (after_syn a i node port)
            iface_a
            slot_a
            i
            (peer_header (child asks_b c (peer_header caller flag_syn)) (bit_or flag_ack flag_syn))
        → ReachesPeer (connected i heard_a) i 1 slot_a' out_a tx_a
        → Awaits answered_b iface_b slot_c (caller.remote_node % 256)
        → ((k : Node o) × (connect (hears iface_a (packet_bytes answer) 0) i node port a
              ≡ (pos 0, k))
            × (k.sent ≡ (out_a, ack) ∷ (out, syn) ∷ (asked a i node port).sent)
            × ((socket_at k i).state ≡ established)
            × ((socket_at k i).remote_node ≡ node)
            × ((socket_at k i).remote_port ≡ port))
          × (input iface_b (packet_bytes syn) b ≡ some answered_b)
          × (answered_b.sent ≡ (out_b, answer) ∷ b.sent)
          × ((m : Node o) × (input iface_b (packet_bytes ack) answered_b ≡ some m)
              × ((accept (λ n. n) l m).0 ≡ some c)
              × IsOtherEnd (socket_at m c) caller)
    handshake_establishes os v t w empty reaches_b hears_a reaches_a waits_b =
        let (sem', k, taken, at, sent) =
          answered-a os v
            (filled_node-IsPool iface_a slot_a (after_syn a i node port) answer hears_a.pool) in
        let heard =
          hears-taken iface_a (packet_bytes answer) 0 (after_syn a i node port)
            (on_accepted slot_a i heard_a) (answer-taken v w reaches_b hears_a) in
        let peer = Caller.ready-at a i node port slot out tx v in
        (
          (
            k,
            Caller.connect-signal a i node port slot out tx v
                (hears iface_a (packet_bytes answer) 0) k (ap (take_signal i) heard ∙ taken),
            sent
                ∙ send_control-handed (connected i heard_a) i flag_ack 0 (0 ∷ []) slot_a' out_a tx_a
                    (control_payload-stream (socket_at (connected i heard_a) i) flag_ack
                      (connected-stream v) (unfold has in refl))
                    reaches_a
                ∙ ap (λ calls. (out_a, ack) ∷ calls)
                    (Caller.after_syn-sent a i node port slot out tx v),
            ap (λ (s : Socket o). s.state) at,
            ap (λ (s : Socket o). s.remote_node) at ∙ peer.0,
            ap (λ (s : Socket o). s.remote_port) at ∙ peer.1,
          ),
          syn-taken v t w,
          Listener.after_request-sent asks_b slot_b l c (peer_header caller flag_syn) q q' w slot_b'
              out_b tx_b reaches_b,
          (
            met_b,
            ack-taken v w reaches_a waits_b,
            accept-first met_b l c [] q' os (met-waits w)
                (send-last q q' c os w.room ∙ ap (λ (xs : List ℕ). xs ++ c ∷ []) empty),
            met_b-IsOtherEnd w,
          ),
        )
