-- ===== src/Socket/Sound/Handler.antt =====
-- danp_socket_input_handler keeps the invariant.
use danp.Prelude.{
  ℕ, refl, inl, inr, ◌<◌, Option, none, some, arith, bit_or, length, Option-cases, if◌then◌else◌,
}
use danp.Types.{type_cases, SocketState, established, syn_received, flag_ack, flag_syn, max_ports}
use danp.Osal.{Osal}
use danp.Header.{Header, unpack_header}
use danp.Header.RoundTrip.{dst_port-lt}
use danp.Node.{Socket, Node, socket_at, put_socket, packet_at}
use danp.Socket.Create.{create}
use danp.Socket.Find.{find_socket}
use danp.Socket.Input
use danp.Socket.Sound.{
  IsSound, put-IsSound, free-IsSound, send_control-IsSound, drain_packets-IsSound, if_holds,
}
use danp.Socket.Sound.Creation.{create-IsSound}
use danp.Socket.Sound.Transfer.{IfSome}

module _ {o : Osal} where
  set_state-IsSound :
      (i : ℕ) (st : SocketState) (n : Node o) → IsSound n → IsSound (Input.set_state i st n)
  set_state-IsSound i st n v = put-IsSound n i _ refl (v.ports i) v

  enqueue_received-IsSound :
      (i : ℕ) (p : Option ℕ) (n : Node o) → IsSound n → IsSound (Input.enqueue_received i p n)
  unfolding Input.enqueue_received
  enqueue_received-IsSound i p n v = elim (Option-cases (socket_at n i).rx_queue) [
    | inl e ↦ rw (Input.enqueue_received, e) v
    | inr (q, e) ↦ elim (Option-cases (o.mq_send q p)) [
      | inl f ↦ rw (Input.enqueue_received, e, Input.enqueue_received, f) v
      | inr (q', f) ↦
          rw (Input.enqueue_received, e, Input.enqueue_received, f)
            (put-IsSound n i _ refl (v.ports i) v)
    ]
  ]

  give_signal-IsSound : (i : ℕ) (n : Node o) → IsSound n → IsSound (Input.give_signal i n)
  unfolding Input.give_signal
  give_signal-IsSound i n v = elim (Option-cases (socket_at n i).signal) [
    | inl e ↦ rw (Input.give_signal, e) v
    | inr (s, e) ↦ rw (Input.give_signal, e) (put-IsSound n i _ refl (v.ports i) v)
  ]

  on_reset-IsSound :
      (p : ℕ) (found : Option ℕ) (n : Node o) → IsSound n → IsSound (Input.on_reset p found n)
  unfolding Input.on_reset
  on_reset-IsSound p none n v = free-IsSound (some p) n v
  on_reset-IsSound p (some i) n v = free-IsSound (some p) _ (
      if_holds IsSound _ v
        (enqueue_received-IsSound i none _ (put-IsSound n i _ refl (omega arith) v)))

  clear_queue-IsSound :
      (i : ℕ) (q : Option (o.Mq (Option ℕ))) (n : Node o)
      → IsSound n
      → IsSound (Input.clear_queue i q n)
  unfolding Input.clear_queue
  clear_queue-IsSound i none n v = v
  clear_queue-IsSound i (some q) n v =
      let d = drain_packets-IsSound (length (o.contents q)) q n v in
      put-IsSound _ i _ refl (d.ports i) d

  restart-IsSound : (i : ℕ) (n : Node o) → IsSound n → IsSound (Input.restart i n)
  unfolding Input.restart
  restart-IsSound i n v =
      if_holds IsSound _ v
        (clear_queue-IsSound i (socket_at n i).rx_queue _ (put-IsSound n i _ refl (v.ports i) v))

  on_resync-IsSound : (p i : ℕ) (n : Node o) → IsSound n → IsSound (Input.on_resync p i n)
  unfolding Input.on_resync
  on_resync-IsSound p i n v = free-IsSound (some p) _ (
      set_state-IsSound i syn_received _
        (send_control-IsSound i (bit_or flag_ack flag_syn) 0 _ (restart-IsSound i n v)))

  enqueue_accepted-IsSound :
      (i child : ℕ) (n : Node o) → IsSound n → IfSome IsSound (Input.enqueue_accepted i child n)
  unfolding Input.enqueue_accepted
  enqueue_accepted-IsSound i child n v = elim (Option-cases (socket_at n i).accept_queue) [
    | inl e ↦ rw (Input.enqueue_accepted, e) tt
    | inr (q, e) ↦ elim (Option-cases (o.mq_send q child)) [
      | inl f ↦ rw (Input.enqueue_accepted, e, Input.enqueue_accepted, f) tt
      | inr (q', f) ↦
          rw (Input.enqueue_accepted, e, Input.enqueue_accepted, f)
            (put-IsSound n i _ refl (v.ports i) v)
    ]
  ]

  on_connect_request-IsSound :
      (p i : ℕ) (h : Header) (n : Node o)
      → h.dst_port < max_ports
      → IsSound n
      → IsSound (Input.on_connect_request p i h n)
  unfolding Input.on_connect_request Input.adopt
  on_connect_request-IsSound p i h n r v =
      let type = (socket_at n i).type in
      let made = create-IsSound type n v in
      elim (Option-cases (create type n).0) [
        | inl e ↦ rw (e, Input.on_connect_request) (free-IsSound (some p) _ made)
        | inr (c, e) ↦
            let m = (create type n).1 in
            let s : Socket o = record (socket_at m c) {
              local_node = m.config_local_node;
              local_port = h.dst_port;
              remote_node = h.src;
              remote_port = h.src_port;
              state = syn_received;
            } in
            let adopted = put-IsSound m c s refl r made in
            let queued = enqueue_accepted-IsSound i c (put_socket m c s) adopted in
            elim (Option-cases (Input.enqueue_accepted i c (put_socket m c s))) [
              | inl f ↦
                  rw (e, Input.on_connect_request, f)
                    (free-IsSound (some p) _ (put-IsSound _ c _ refl (omega arith) adopted))
              | inr (k, f) ↦
                  rw (e, Input.on_connect_request, f)
                    (free-IsSound (some p) _
                      (send_control-IsSound c (bit_or flag_ack flag_syn) 0 k (rw f at queued)))
            ]
      ]

  on_accepted-IsSound : (p i : ℕ) (n : Node o) → IsSound n → IsSound (Input.on_accepted p i n)
  unfolding Input.on_accepted
  on_accepted-IsSound p i n v = free-IsSound (some p) _ (
      give_signal-IsSound i _
        (send_control-IsSound i flag_ack 0 _ (set_state-IsSound i established n v)))

  on_final_ack-IsSound : (p i : ℕ) (n : Node o) → IsSound n → IsSound (Input.on_final_ack p i n)
  unfolding Input.on_final_ack
  on_final_ack-IsSound p i n v = free-IsSound (some p) _ (set_state-IsSound i established n v)

  on_data_ack-IsSound : (p i : ℕ) (n : Node o) → IsSound n → IsSound (Input.on_data_ack p i n)
  unfolding Input.on_data_ack
  on_data_ack-IsSound p i n v =
      free-IsSound (some p) _ (if_holds IsSound _ (give_signal-IsSound i n v) v)

  on_segment-IsSound : (p i : ℕ) (n : Node o) → IsSound n → IsSound (Input.on_segment p i n)
  unfolding Input.on_segment
  on_segment-IsSound p i n v =
      let w : IsSound (
          if◌then◌else◌ (Input.is_syn_received (socket_at n i).state)
            (Input.set_state i established n) n) =
        if_holds IsSound (Input.is_syn_received (socket_at n i).state)
          (set_state-IsSound i established n v) v in
      if_holds IsSound _
        (enqueue_received-IsSound i (some p) _
          (send_control-IsSound i flag_ack _ _ (put-IsSound _ i _ refl (w.ports i) w)))
        (free-IsSound (some p) _ (send_control-IsSound i flag_ack _ _ w))

  on_data-IsSound : (p i : ℕ) (n : Node o) → IsSound n → IsSound (Input.on_data p i n)
  unfolding Input.on_data
  on_data-IsSound p i n v = elim (type_cases (socket_at n i).type) [
    | inl t ↦ rw (Input.on_data, t) (enqueue_received-IsSound i (some p) n v)
    | inr t ↦ rw (Input.on_data, t) (on_segment-IsSound p i n v)
  ]

  dispatch-IsSound :
      (p i : ℕ) (h : Header) (n : Node o)
      → h.dst_port < max_ports
      → IsSound n
      → IsSound (Input.dispatch p i h n)
  unfolding Input.dispatch
  dispatch-IsSound p i h n r v = if_holds IsSound _ (on_resync-IsSound p i n v) (
      if_holds IsSound _ (on_connect_request-IsSound p i h n r v) (
        if_holds IsSound _ (on_accepted-IsSound p i n v) (
          if_holds IsSound _ (on_final_ack-IsSound p i n v) (
            if_holds IsSound _ (on_data_ack-IsSound p i n v)
              (if_holds IsSound _ (on_data-IsSound p i n v) (free-IsSound (some p) n v))))))

  handle-IsSound : (p : ℕ) (n : Node o) → IsSound n → IsSound (Input.handle p n)
  unfolding Input.handle
  handle-IsSound p n v =
      let raw = (packet_at n p).header_raw in
      let h = unpack_header raw in
      elim (Option-cases (find_socket n h.dst_port h.src h.src_port)) [
        | inl e ↦
            rw (e, Input.handle)
              (if_holds IsSound _ (on_reset-IsSound p none n v) (free-IsSound (some p) n v))
        | inr (i, e) ↦
            rw (e, Input.handle)
              (if_holds IsSound _ (on_reset-IsSound p (some i) n v)
                (dispatch-IsSound p i h n (dst_port-lt raw) v))
      ]

  pub input_handler-IsSound : (p : ℕ) (n : Node o) → IsSound n → IsSound (Input.input_handler p n)
  unfolding Input.input_handler
  input_handler-IsSound p n v = if_holds IsSound _ (handle-IsSound p n v) v
