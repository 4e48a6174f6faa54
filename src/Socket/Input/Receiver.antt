-- ===== src/Socket/Input/Receiver.antt =====
-- The receiving half of the stop-and-wait protocol: what a data packet does to its stream.
use danp.Prelude.{
  ℕ, ◌+◌, ◌%◌, ◌≤◌, ◌<◌, ◌≡◌, ◌≢◌, ap, ◌∙◌, Bool, true, false, List, [], ◌∷◌, ◌++◌, Option, none,
  some, arith, get_or, set, length, get_or-set_self, length-set, ◌==◌, ==_iff,
}
use danp.Types.{established, flag_ack, u8, pool_size}
use danp.Osal.{Osal, IsOsal, buffer_mutex}
use danp.Buffer.{Pool}
use danp.Buffer.Laws.{IsPool, free_used}
use danp.Node.{Socket, Node, socket_at, put_socket, packet_at, blank_socket, free}
use danp.Node.Traffic.{SameButTraffic}
use danp.Socket.Control.{send_control}
use danp.Socket.Control.Laws.{send_control-SameButTraffic}
use danp.Socket.Input.{on_segment, enqueue_received, is_syn_received}

-- The sequence number in front of a data packet.
abbrev pub seq_of : {o : Osal} → Node o → ℕ → ℕ
seq_of n p = get_or (packet_at n p).payload 0 0

module _ {o : Osal} where
  -- The stream that the packet is for: an ESTABLISHED socket in the pool with its queue.
  pub record IsStream (n : Node o) (i : ℕ) (q : o.Mq (Option ℕ)) : Type 0 where
    pub in_range : i < length n.socket_pool
    pub connected : (socket_at n i).state ≡ established
    pub queue : (socket_at n i).rx_queue ≡ some q
    pub pool : IsPool n.pool

  -- The socket after it has taken a packet in order.
  abbrev pub advanced : Node o → ℕ → Socket o
  advanced n i = record (socket_at n i) {
    rx_expected_seq = u8 ((socket_at n i).rx_expected_seq + 1);
  }

  pub on_segment-in_order :
      (p i : ℕ) (n : Node o)
      → (socket_at n i).state ≡ established
      → seq_of n p ≡ (socket_at n i).rx_expected_seq
      → on_segment p i n
        ≡ enqueue_received i
            (some p)
            (send_control i flag_ack (seq_of n p) (put_socket n i (advanced n i)))
  unfolding on_segment
  on_segment-in_order p i n st e =
      let quick : is_syn_received (socket_at n i).state ≡ false = unfold is_syn_received in rw st in
      let fits : (seq_of n p == (socket_at n i).rx_expected_seq) ≡ true = (==_iff _ _).1 e in
      rw (quick, fits)

  on_segment-out_of_order :
      (p i : ℕ) (n : Node o)
      → (socket_at n i).state ≡ established
      → seq_of n p ≢ (socket_at n i).rx_expected_seq
      → on_segment p i n ≡ free (some p) (send_control i flag_ack (seq_of n p) n)
  unfolding on_segment
  on_segment-out_of_order p i n st e =
      let quick : is_syn_received (socket_at n i).state ≡ false = unfold is_syn_received in rw st in
      let other : (seq_of n p == (socket_at n i).rx_expected_seq) ≡ false = ground arith in
      rw (quick, other)

  -- The node once the packet was counted and acknowledged.
  abbrev pub acknowledged : ℕ → ℕ → Node o → Node o
  acknowledged p i n = send_control i flag_ack (seq_of n p) (put_socket n i (advanced n i))

  module _ (p i : ℕ) (n : Node o) {q : o.Mq (Option ℕ)} (v : IsStream n i q) where
    pub acknowledged-SameButTraffic :
        SameButTraffic (put_socket n i (advanced n i)) (acknowledged p i n)
    acknowledged-SameButTraffic =
        send_control-SameButTraffic i flag_ack (seq_of n p) (put_socket n i (advanced n i)) v.pool

    pub acknowledged-socket : socket_at (acknowledged p i n) i ≡ advanced n i
    acknowledged-socket =
        ap (λ (s : List (Socket o)). get_or s i (blank_socket o))
          (acknowledged-SameButTraffic.socket_pool)
        ∙ get_or-set_self n.socket_pool i (advanced n i) (blank_socket o) v.in_range

    pub acknowledged-queue : (socket_at (acknowledged p i n) i).rx_queue ≡ some q
    acknowledged-queue = ap (λ (s : Socket o). s.rx_queue) acknowledged-socket ∙ v.queue

    pub acknowledged-in_range : i < length (acknowledged p i n).socket_pool
    acknowledged-in_range = omega (
      arith,
      ap length (acknowledged-SameButTraffic.socket_pool),
      length-set n.socket_pool i (advanced n i),
      v.in_range,
    )

  pub enqueue_received-room :
      (i p : ℕ) (m : Node o) (q q' : o.Mq (Option ℕ))
      → (socket_at m i).rx_queue ≡ some q
      → o.mq_send q (some p) ≡ some q'
      → enqueue_received i (some p) m
        ≡ put_socket m i (record (socket_at m i) { rx_queue = some q' })
  unfolding enqueue_received
  enqueue_received-room i p m q q' e s = rw (e, enqueue_received, s)

  enqueue_received-full :
      (i p : ℕ) (m : Node o) (q : o.Mq (Option ℕ))
      → (socket_at m i).rx_queue ≡ some q
      → o.mq_send q (some p) ≡ none
      → enqueue_received i (some p) m ≡ m
  unfolding enqueue_received
  enqueue_received-full i p m q e s = rw (e, enqueue_received, s)

  -- A data packet with the expected sequence number, for an ESTABLISHED stream whose queue has room:
  -- it becomes the last packet of the queue, the expected number goes up by one modulo 256, and the
  -- pool has the same free slots, so the packet stays taken until it is received.
  pub on_segment_delivers :
      (p i : ℕ) (n : Node o) (q : o.Mq (Option ℕ))
      → IsOsal o
      → IsStream n i q
      → seq_of n p ≡ (socket_at n i).rx_expected_seq
      → length (o.contents q) < o.places q
      → let m = on_segment p i n in
        (q' : o.Mq (Option ℕ)) × ((socket_at m i).rx_queue ≡ some q')
        × (o.contents q' ≡ o.contents q ++ some p ∷ [])
        × ((socket_at m i).rx_expected_seq ≡ ((socket_at n i).rx_expected_seq + 1) % 256)
        × (m.pool.free_map ≡ n.pool.free_map)
  on_segment_delivers p i n q os v e room =
      let (q', sent, held, _) = os.send_room q (some p) room in
      let m = acknowledged p i n in
      let s' : Socket o = record (socket_at m i) { rx_queue = some q' } in
      let whole : on_segment p i n ≡ put_socket m i s' =
        on_segment-in_order p i n v.connected e
        ∙ enqueue_received-room i p m q q' (acknowledged-queue p i n v) sent in
      let here : socket_at (put_socket m i s') i ≡ s' =
        get_or-set_self m.socket_pool i s' (blank_socket o) (acknowledged-in_range p i n v) in
      (
        q',
        rw (whole, here),
        held,
        rw (whole, here) (ap (λ (s : Socket o). s.rx_expected_seq) (acknowledged-socket p i n v)),
        rw whole (acknowledged-SameButTraffic p i n v).free_map,
      )

  -- A data packet with the expected sequence number, for an ESTABLISHED stream whose queue is full:
  -- it is acknowledged and its number counted as if it had been taken, but the queue stays as it was, and the packet does not go back to the pool.
  pub on_segment_full :
      (p i : ℕ) (n : Node o) (q : o.Mq (Option ℕ))
      → IsOsal o
      → IsStream n i q
      → seq_of n p ≡ (socket_at n i).rx_expected_seq
      → o.places q ≤ length (o.contents q)
      → let m = on_segment p i n in
        (m ≡ acknowledged p i n)
        × ((socket_at m i).rx_queue ≡ some q)
        × ((socket_at m i).rx_expected_seq ≡ ((socket_at n i).rx_expected_seq + 1) % 256)
        × (m.pool.free_map ≡ n.pool.free_map)
  on_segment_full p i n q os v e full =
      let whole : on_segment p i n ≡ acknowledged p i n =
        on_segment-in_order p i n v.connected e
        ∙ enqueue_received-full i p (acknowledged p i n) q (acknowledged-queue p i n v)
            (os.send_full q (some p) full) in
      (
        whole,
        rw whole (acknowledged-queue p i n v),
        rw whole (ap (λ (s : Socket o). s.rx_expected_seq) (acknowledged-socket p i n v)),
        rw whole (acknowledged-SameButTraffic p i n v).free_map,
      )

  -- A data packet with any other sequence number, for an ESTABLISHED stream, such as one that was
  -- sent again after its acknowledgement was lost: it is acknowledged with its own number and given
  -- back to the pool, and no socket changes, so it is not delivered twice.
  pub on_segment_duplicate :
      (p i : ℕ) (n : Node o)
      → o.mutex_lock buffer_mutex ≡ true
      → IsPool n.pool
      → (socket_at n i).state ≡ established
      → seq_of n p ≢ (socket_at n i).rx_expected_seq
      → p < pool_size
      → get_or n.pool.free_map p false ≡ false
      → let m = on_segment p i n in
        (m ≡ free (some p) (send_control i flag_ack (seq_of n p) n))
        × (m.socket_pool ≡ n.socket_pool)
        × (m.pool.free_map ≡ set n.pool.free_map p true)
  unfolding free
  on_segment_duplicate p i n l v st e r taken =
      let c = send_control i flag_ack (seq_of n p) n in
      let s = send_control-SameButTraffic i flag_ack (seq_of n p) n v in
      let whole : on_segment p i n ≡ free (some p) c = on_segment-out_of_order p i n st e in
      (
        whole,
        rw whole (s.socket_pool),
        rw (whole, l)
            (ap (λ (q : Pool). q.free_map) (free_used c.pool p r (rw s.free_map taken))
              ∙ ap (λ (m : List Bool). set m p true) (s.free_map)),
      )
