-- ===== src/Exchange/Branches.antt =====
-- The branches of the input handler for a segment of a stream and for its acknowledgement.
use danp.Prelude.{
  set, Option-cases, inl, inr, ℕ, ◌<◌, ◌≡◌, refl, ap, ◌∙◌, ◌==◌, ==_iff, true, Option, some, arith,
  ltb,
}
use danp.Types.{stream, established, has, flag_ack}
use danp.Osal.{Osal}
use danp.Header.{Header}
use danp.Node.{Node, Socket, socket_at, put_socket, packet_at, free}
use danp.Socket.Connect.{take_signal}
use danp.Socket.Input.{dispatch, on_data, on_data_ack, on_segment, give_signal, enqueue_received}
use danp.Socket.Input.Receiver.{seq_of, acknowledged, on_segment-in_order}

module _ {o : Osal} where
  on_data-segment :
      (p i : ℕ) (n : Node o) → (socket_at n i).type ≡ stream → on_data p i n ≡ on_segment p i n
  unfolding on_data on_segment
  on_data-segment p i n type = rw (on_data, type, on_segment, type) refl

  pub dispatch-segment :
      (p i : ℕ) (h : Header) (n : Node o)
      → h.flags ≡ 0
      → (socket_at n i).type ≡ stream
      → (socket_at n i).state ≡ established
      → 0 < (packet_at n p).length
      → dispatch p i h n ≡ on_segment p i n
  unfolding dispatch has
  dispatch-segment p i h n flags type state any =
      let some_bytes : ltb 0 (packet_at n p).length ≡ true = ground arith in
      rw (state, flags, some_bytes) (on_data-segment p i n type)

  pub dispatch-data_ack :
      (p i : ℕ) (h : Header) (n : Node o)
      → h.flags ≡ flag_ack
      → (socket_at n i).state ≡ established
      → (packet_at n p).length ≡ 1
      → dispatch p i h n ≡ on_data_ack p i n
  unfolding dispatch has
  dispatch-data_ack p i h n flags state one = rw (state, flags, one) refl

  pub on_data_ack-expected :
      (p i : ℕ) (n : Node o)
      → (socket_at n i).type ≡ stream
      → seq_of n p ≡ (socket_at n i).tx_seq
      → on_data_ack p i n ≡ free (some p) (give_signal i n)
  unfolding on_data_ack
  on_data_ack-expected p i n type e =
      let same : (seq_of n p == (socket_at n i).tx_seq) ≡ true = (==_iff _ _).1 e in
      rw (type, same) refl

  pub take_signal-given :
      (i : ℕ) (n : Node o) (sem sem' : o.Sem)
      → (socket_at n i).signal ≡ some sem
      → o.sem_take sem ≡ some sem'
      → take_signal i n ≡ some (put_socket n i (record (socket_at n i) { signal = some sem' }))
  unfolding take_signal
  take_signal-given i n sem sem' e t = rw (e, take_signal, t) refl

  -- The socket after its signal was given.
  abbrev pub signalled : Node o → ℕ → o.Sem → Socket o
  signalled n i sem = record (socket_at n i) { signal = some (o.sem_give sem) }

  pub give_signal-free :
      (p : Option ℕ) (i : ℕ) (n : Node o) (sem : o.Sem)
      → (socket_at n i).signal ≡ some sem
      → (free p (give_signal i n)).socket_pool ≡ set n.socket_pool i (signalled n i sem)
  unfolding give_signal free
  give_signal-free p i n sem e = rw (e, give_signal) refl

  -- The queue is part of the socket alone.
  enqueue_received-traffic :
      (i : ℕ) (p : Option ℕ) (n : Node o)
      → ((enqueue_received i p n).sent ≡ n.sent) × ((enqueue_received i p n).pool ≡ n.pool)
  unfolding enqueue_received
  enqueue_received-traffic i p n = elim (Option-cases (socket_at n i).rx_queue) [
    | inl e ↦ rw (enqueue_received, e) (refl, refl)
    | inr (q, e) ↦ elim (Option-cases (o.mq_send q p)) [
      | inl f ↦ rw (enqueue_received, e, enqueue_received, f) (refl, refl)
      | inr (q', f) ↦ rw (enqueue_received, e, enqueue_received, f) (refl, refl)
    ]
  ]

  -- What the node sends for a segment in order, and its pool, are those after the acknowledgement.
  pub on_segment-traffic :
      (p i : ℕ) (n : Node o)
      → (socket_at n i).state ≡ established
      → seq_of n p ≡ (socket_at n i).rx_expected_seq
      → let answered = acknowledged p i n in
        ((on_segment p i n).sent ≡ answered.sent) × ((on_segment p i n).pool ≡ answered.pool)
  on_segment-traffic p i n state e =
      let whole = on_segment-in_order p i n state e in
      let (sent, pool) = enqueue_received-traffic i (some p) (acknowledged p i n) in
      (ap (λ (m : Node o). m.sent) whole ∙ sent, ap (λ (m : Node o). m.pool) whole ∙ pool)
