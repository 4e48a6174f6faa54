-- ===== src/Socket/Owned/Handler.antt =====
-- danp_socket_input_handler and the packet that it is handed.
use danp.Prelude.{ℕ, ◌+◌, refl, inl, inr, Option, none, some, arith, bit_or, Option-cases}
use danp.Types.{type_cases, SocketState, closed, established, syn_received, flag_ack, flag_syn}
use danp.Osal.{Osal, IsOsal}
use danp.Header.{Header, unpack_header}
use danp.Node.{Socket, Node, socket_at, put_socket, packet_at, blank_socket}
use danp.Socket.Create.{create}
use danp.Socket.Find.{find_socket}
use danp.Socket.Input
use danp.Socket.Sound.{if_holds}
use danp.Socket.Sound.Transfer.{IfSome}
use danp.Socket.Owned.{
  one, pointed, queue-set, Owned, put-Owned, put_same-Owned, forget-Owned, free-Owned,
  send_control-Owned,
}
use danp.Socket.Owned.Queues.{sent-count, clear_queue-Owned, create-Owned}

module _ {o : Osal} (os : IsOsal o) where
  -- The packet, held by the handler; and no packet held.
  abbrev pub Holds : ℕ → Node o → Type 0
  Holds q = Owned (λ p. one q p + 0)

  abbrev pub Settled : Node o → Type 0
  Settled = Owned (λ p. 0)

  pub done : (q : ℕ) (n : Node o) → Holds q n → Settled (danp.Node.free (some q) n)
  done q n v = free-Owned (λ p. 0) (some q) n v

  -- A packet, or NULL, goes to the queue of a socket, or is dropped where there is no room.
  enqueue_received-Owned :
      (held : ℕ → ℕ) (i : ℕ) (x : Option ℕ) (n : Node o)
      → Owned (λ p. pointed x p + held p) n
      → Owned held (Input.enqueue_received i x n)
  unfolding Input.enqueue_received
  enqueue_received-Owned held i x n v =
      let dropped : Owned held n = record { once = λ p. omega (arith, v.once p) } in
      elim (Option-cases (socket_at n i).rx_queue) [
        | inl e ↦ rw (Input.enqueue_received, e) dropped
        | inr (q, e) ↦ elim (Option-cases (o.mq_send q x)) [
          | inl f ↦ rw (Input.enqueue_received, e, Input.enqueue_received, f) dropped
          | inr (q', f) ↦
              rw (Input.enqueue_received, e, Input.enqueue_received, f)
                (put-Owned (λ p. pointed x p + held p) held i
                  (record (socket_at n i) { rx_queue = some q' }) n
                  (λ p. rw e (omega (arith, sent-count os q q' x p f))) v)
        ]
      ]

  give_signal-Owned :
      (held : ℕ → ℕ) (i : ℕ) (n : Node o) → Owned held n → Owned held (Input.give_signal i n)
  unfolding Input.give_signal
  give_signal-Owned held i n v = elim (Option-cases (socket_at n i).signal) [
    | inl e ↦ rw (Input.give_signal, e) v
    | inr (s, e) ↦ rw (Input.give_signal, e) (put_same-Owned held i _ n refl v)
  ]

  set_state-Owned :
      (held : ℕ → ℕ) (i : ℕ) (st : SocketState) (n : Node o)
      → Owned held n
      → Owned held (Input.set_state i st n)
  set_state-Owned held i st n v = put_same-Owned held i _ n refl v

  on_reset-Owned :
      (q : ℕ) (found : Option ℕ) (n : Node o) → Holds q n → Settled (Input.on_reset q found n)
  unfolding Input.on_reset
  on_reset-Owned q none n v = done q n v
  on_reset-Owned q (some i) n v =
      let held = λ (p : ℕ). one q p + 0 in
      let shut = record (socket_at n i) { state = closed; local_port = 0 } in
      let w = put_same-Owned held i shut n refl v in
      done q _ (
        if_holds (Owned held) _ v (
          enqueue_received-Owned held i none (put_socket n i shut)
            (record { once = λ p. omega (arith, w.once p) })))

  restart-Owned :
      (held : ℕ → ℕ) (i : ℕ) (n : Node o) → Owned held n → Owned held (Input.restart i n)
  unfolding Input.restart
  restart-Owned held i n v =
      let zeroed = record (socket_at n i) { tx_seq = 0; rx_expected_seq = 0 } in
      if_holds (Owned held) _ v (
        clear_queue-Owned os held i (socket_at n i).rx_queue (put_socket n i zeroed)
          (queue-set n.socket_pool i zeroed refl) (put_same-Owned held i zeroed n refl v))

  on_resync-Owned : (q i : ℕ) (n : Node o) → Holds q n → Settled (Input.on_resync q i n)
  unfolding Input.on_resync
  on_resync-Owned q i n v =
      let held = λ (p : ℕ). one q p + 0 in
      done q _ (
        set_state-Owned held i syn_received _
          (send_control-Owned held i (bit_or flag_ack flag_syn) 0 _ (restart-Owned held i n v)))

  enqueue_accepted-Owned :
      (held : ℕ → ℕ) (i child : ℕ) (n : Node o)
      → Owned held n
      → IfSome (Owned held) (Input.enqueue_accepted i child n)
  unfolding Input.enqueue_accepted
  enqueue_accepted-Owned held i child n v = elim (Option-cases (socket_at n i).accept_queue) [
    | inl e ↦ rw (Input.enqueue_accepted, e) tt
    | inr (q, e) ↦ elim (Option-cases (o.mq_send q child)) [
      | inl f ↦ rw (Input.enqueue_accepted, e, Input.enqueue_accepted, f) tt
      | inr (q', f) ↦
          rw (Input.enqueue_accepted, e, Input.enqueue_accepted, f)
            (put_same-Owned held i _ n refl v)
    ]
  ]

  on_connect_request-Owned :
      (q i : ℕ) (h : Header) (n : Node o) → Holds q n → Settled (Input.on_connect_request q i h n)
  unfolding Input.on_connect_request Input.adopt
  on_connect_request-Owned q i h n v =
      let held = λ (p : ℕ). one q p + 0 in
      let type = (socket_at n i).type in
      let made = create-Owned os held type n v in
      elim (Option-cases (create type n).0) [
        | inl e ↦ rw (e, Input.on_connect_request) (done q _ made)
        | inr (c, e) ↦
            let m = (create type n).1 in
            let s : Socket o = record (socket_at m c) {
              local_node = m.config_local_node;
              local_port = h.dst_port;
              remote_node = h.src;
              remote_port = h.src_port;
              state = syn_received;
            } in
            let adopted = put_same-Owned held c s m refl made in
            let queued = enqueue_accepted-Owned held i c (put_socket m c s) adopted in
            elim (Option-cases (Input.enqueue_accepted i c (put_socket m c s))) [
              | inl f ↦
                  rw (e, Input.on_connect_request, f)
                    (done q _ (put_same-Owned held c _ _ refl adopted))
              | inr (k, f) ↦
                  rw (e, Input.on_connect_request, f)
                    (done q _
                      (send_control-Owned held c (bit_or flag_ack flag_syn) 0 k (rw f at queued)))
            ]
      ]

  on_accepted-Owned : (q i : ℕ) (n : Node o) → Holds q n → Settled (Input.on_accepted q i n)
  unfolding Input.on_accepted
  on_accepted-Owned q i n v =
      let held = λ (p : ℕ). one q p + 0 in
      done q _ (
        give_signal-Owned held i _
          (send_control-Owned held i flag_ack 0 _ (set_state-Owned held i established n v)))

  on_final_ack-Owned : (q i : ℕ) (n : Node o) → Holds q n → Settled (Input.on_final_ack q i n)
  unfolding Input.on_final_ack
  on_final_ack-Owned q i n v = done q _ (set_state-Owned _ i established n v)

  on_data_ack-Owned : (q i : ℕ) (n : Node o) → Holds q n → Settled (Input.on_data_ack q i n)
  unfolding Input.on_data_ack
  on_data_ack-Owned q i n v = done q _ (if_holds (Holds q) _ (give_signal-Owned _ i n v) v)

  on_segment-Owned : (q i : ℕ) (n : Node o) → Holds q n → Settled (Input.on_segment q i n)
  unfolding Input.on_segment
  on_segment-Owned q i n v =
      let held = λ (p : ℕ). one q p + 0 in
      let w =
        if_holds (Holds q) (Input.is_syn_received (socket_at n i).state)
          (set_state-Owned held i established n v) v in
      if_holds Settled _
        (enqueue_received-Owned (λ p. 0) i (some q) _
          (send_control-Owned held i flag_ack _ _ (put_same-Owned held i _ _ refl w)))
        (done q _ (send_control-Owned held i flag_ack _ _ w))

  on_data-Owned : (q i : ℕ) (n : Node o) → Holds q n → Settled (Input.on_data q i n)
  unfolding Input.on_data
  on_data-Owned q i n v = elim (type_cases (socket_at n i).type) [
    | inl t ↦ rw (Input.on_data, t) (enqueue_received-Owned (λ p. 0) i (some q) n v)
    | inr t ↦ rw (Input.on_data, t) (on_segment-Owned q i n v)
  ]

  dispatch-Owned :
      (q i : ℕ) (h : Header) (n : Node o) → Holds q n → Settled (Input.dispatch q i h n)
  unfolding Input.dispatch
  dispatch-Owned q i h n v = if_holds Settled _ (on_resync-Owned q i n v) (
      if_holds Settled _ (on_connect_request-Owned q i h n v) (
        if_holds Settled _ (on_accepted-Owned q i n v) (
          if_holds Settled _ (on_final_ack-Owned q i n v) (
            if_holds Settled _ (on_data_ack-Owned q i n v)
              (if_holds Settled _ (on_data-Owned q i n v) (done q n v))))))

  handle-Owned : (q : ℕ) (n : Node o) → Holds q n → Settled (Input.handle q n)
  unfolding Input.handle
  handle-Owned q n v =
      let h = unpack_header (packet_at n q).header_raw in
      elim (Option-cases (find_socket n h.dst_port h.src h.src_port)) [
        | inl e ↦ rw (e, Input.handle) (if_holds Settled _ (on_reset-Owned q none n v) (done q n v))
        | inr (i, e) ↦
            rw (e, Input.handle)
              (if_holds Settled _ (on_reset-Owned q (some i) n v) (dispatch-Owned q i h n v))
      ]

  pub input_handler-Owned : (q : ℕ) (n : Node o) → Holds q n → Settled (Input.input_handler q n)
  unfolding Input.input_handler
  input_handler-Owned q n v = if_holds Settled _ (handle-Owned q n v) (forget-Owned _ n v)
