-- ===== src/Socket/Input/Steps.antt =====
-- danp_socket_input_handler, branch by branch, as steps between states.
use danp.Prelude.{
  ℕ, ◌≡◌, ap, subst, inl, inr, true, false, ◌&&◌, Option, none, some, arith, get_or, ◌==◌,
  Bool-cases, bit_or, ◌≢◌, get_or-set_self, get_or-set_ne,
}
use danp.Types.{
  type_cases, SocketState, closed, has, flag_syn, flag_ack, flag_rst, established, syn_received,
}
use danp.Osal.{Osal}
use danp.Buffer.Laws.{IsPool}
use danp.Header.{Header}
use danp.Node.{Socket, Node, socket_at, put_socket, packet_at, blank_socket}
use danp.Socket.Find.{is_dgram}
use danp.Socket.Create.{create}
use danp.Socket.Input
use danp.Socket.Kept.{state_of, Kept, Kept-refl, Kept-trans, free-Kept, send_control-Kept}
use danp.Socket.Create.Slots.{KeptBut, again-KeptBut, create-cases}
use danp.Socket.Input.States.{
  Transition, stays, reset, requested, enqueue_accepted-cases, restarted_of, connected_of,
  confirmed_of, Moves, Kept-Moves, Moves-Kept, put-Moves, enqueue_received-Kept, give_signal-Kept,
  restart-Kept, settled, settled-Kept,
}

module _ {o : Osal} {flags : ℕ} {found : Option ℕ} where
  -- A socket gets another state; then come steps that change none.
  set_state-Moves :
      (i : ℕ) (st : SocketState) (n m k : Node o)
      → Kept n m
      → Transition flags found i (state_of n i) st
      → (IsPool m.pool → Kept (Input.set_state i st m) k)
      → Moves flags found n k
  set_state-Moves i st n m k a t b =
      Moves-Kept n _ k (put-Moves i (record (socket_at m i) { state = st }) n m a t) (b a.pool)

  pub on_reset-Moves :
      (p i : ℕ) (n : Node o)
      → IsPool n.pool
      → flags ≡ flag_rst
      → found ≡ some i
      → Moves flags found n (Input.on_reset p (some i) n)
  unfolding Input.on_reset
  on_reset-Moves p i n v e f = elim (Bool-cases (is_dgram (socket_at n i).type)) [
    | inl y ↦ rw (Input.on_reset, y) (Kept-Moves (free-Kept (some p) n v))
    | inr d ↦
        let s : Socket o = record (socket_at n i) { state = closed; local_port = 0 } in
        let q = enqueue_received-Kept i none (put_socket n i s) v in
        rw (Input.on_reset, d)
          (Moves-Kept n (put_socket n i s) _ (put-Moves i s n n (Kept-refl n v) (reset e f))
            (Kept-trans q (free-Kept (some p) _ q.pool)))
  ]

  pub on_resync-Moves :
      (p i : ℕ) (n : Node o)
      → IsPool n.pool
      → Input.is_connected (state_of n i) ≡ true
      → has flags flag_syn ≡ true
      → found ≡ some i
      → Moves flags found n (Input.on_resync p i n)
  unfolding Input.on_resync
  on_resync-Moves p i n v c h f =
      let r = restart-Kept i n v in
      let s = send_control-Kept i (bit_or flag_ack flag_syn) 0 _ r.pool in
      set_state-Moves i syn_received n _ _ (Kept-trans r s) (restarted_of flags found i _ c h f)
        (λ w. free-Kept (some p) _ w)

  pub on_accepted-Moves :
      (p i : ℕ) (n : Node o)
      → IsPool n.pool
      → Input.is_syn_sent (state_of n i) ≡ true
      → has flags flag_ack ≡ true
      → found ≡ some i
      → Moves flags found n (Input.on_accepted p i n)
  unfolding Input.on_accepted
  on_accepted-Moves p i n v c h f =
      set_state-Moves i established n n _ (Kept-refl n v) (connected_of flags found i _ c h f) (λ w.
        let s = send_control-Kept i flag_ack 0 _ w in
        let g = give_signal-Kept i _ s.pool in
        Kept-trans s (Kept-trans g (free-Kept (some p) _ g.pool)))

  pub on_final_ack-Moves :
      (p i : ℕ) (n : Node o)
      → IsPool n.pool
      → Transition flags found i (state_of n i) established
      → Moves flags found n (Input.on_final_ack p i n)
  unfolding Input.on_final_ack
  on_final_ack-Moves p i n v t =
      set_state-Moves i established n n _ (Kept-refl n v) t (λ w. free-Kept (some p) _ w)

  on_segment-Moves :
      (p i : ℕ) (n : Node o)
      → IsPool n.pool
      → (Input.is_connected (state_of n i) && has flags flag_syn) ≡ false
      → found ≡ some i
      → Moves flags found n (Input.on_segment p i n)
  unfolding Input.on_segment
  on_segment-Moves p i n v c f = elim (Bool-cases (Input.is_syn_received (state_of n i))) [
    | inl y ↦
        rw (Input.on_segment, y)
          (set_state-Moves i established n n
            (settled p i (get_or (packet_at n p).payload 0 0) (Input.set_state i established n))
            (Kept-refl n v) (confirmed_of flags found i _ y c f) (λ w. settled-Kept p i _ _ w))
    | inr e ↦
        rw (Input.on_segment, e)
          (Kept-Moves (settled-Kept p i (get_or (packet_at n p).payload 0 0) n v))
  ]

  pub on_data-Moves :
      (p i : ℕ) (n : Node o)
      → IsPool n.pool
      → (Input.is_connected (state_of n i) && has flags flag_syn) ≡ false
      → found ≡ some i
      → Moves flags found n (Input.on_data p i n)
  unfolding Input.on_data
  on_data-Moves p i n v c f = elim (type_cases (socket_at n i).type) [
    | inl e ↦ rw (Input.on_data, e) (Kept-Moves (enqueue_received-Kept i (some p) n v))
    | inr e ↦ rw (Input.on_data, e) (on_segment-Moves p i n v c f)
  ]

  -- The slot that was taken gets another state.
  taken-Moves :
      (c : ℕ) (s : Socket o) (n m : Node o)
      → KeptBut c n m
      → Transition flags found c closed s.state
      → Moves flags found n (put_socket m c s)
  taken-Moves c s n m k t j = elim (Bool-cases (c == j)) [
    | inl y ↦
        let e : c ≡ j = ground arith in
        let now : state_of (put_socket m c s) c ≡ s.state =
          ap (λ (t : Socket o). t.state)
            (get_or-set_self m.socket_pool c s (blank_socket o) k.in_range) in
        subst (λ j. Transition flags found j (state_of n j) (state_of (put_socket m c s) j)) e
          (rw (k.was_closed, now) t)
    | inr d ↦
        let e : c ≢ j = ground arith in
        let same : state_of (put_socket m c s) j ≡ state_of m j =
          ap (λ (t : Socket o). t.state) (get_or-set_ne m.socket_pool c j s (blank_socket o) e) in
        rw (same, k.still j e) stays
  ]

  pub on_connect_request-Moves :
      (p i : ℕ) (h : Header) (n : Node o)
      → IsPool n.pool
      → has flags flag_syn ≡ true
      → Moves flags found n (Input.on_connect_request p i h n)
  unfolding Input.on_connect_request Input.adopt
  on_connect_request-Moves p i h n v y = elim (create-cases (socket_at n i).type n v) [
    | inr (e, k) ↦
        rw (Input.on_connect_request, e) (Kept-Moves (Kept-trans k (free-Kept (some p) _ k.pool)))
    | inl (c, e, k) ↦
        let made = (create (socket_at n i).type n).1 in
        let adopted = Input.adopt c h.dst_port h.src h.src_port made in
        let again : KeptBut c n adopted = again-KeptBut c _ n made k in
        elim (enqueue_accepted-cases i c adopted k.pool) [
          | inl f ↦
              rw (Input.on_connect_request, e, f)
                (Moves-Kept n _ _
                  (taken-Moves c (record (socket_at adopted c) { state = closed; local_port = 0 }) n
                    adopted again stays)
                  (free-Kept (some p) _ k.pool))
          | inr (queued, f, q) ↦
              let a = send_control-Kept c (bit_or flag_ack flag_syn) 0 queued q.pool in
              rw (Input.on_connect_request, e, f)
                (Moves-Kept n adopted _ (taken-Moves c _ n made k (requested y))
                  (Kept-trans q (Kept-trans a (free-Kept (some p) _ a.pool))))
        ]
  ]
