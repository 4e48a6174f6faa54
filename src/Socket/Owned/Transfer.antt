-- ===== src/Socket/Owned/Transfer.antt =====
-- The functions that send and receive, and the owners of packets.
use danp.Prelude.{
  ℕ, zero, suc, ◌+◌, ◌-◌, refl, inl, inr, Bool, true, false, List, Option, none, some, arith, ℤ,
  ltb, length, Bool-cases, Option-cases,
}
use danp.Types.{type_cases, retry_limit, max_packet_size}
use danp.Osal.{Osal, IsOsal}
use danp.Node.{Node, socket_at, allocate}
use danp.Socket.Connect.{take_signal}
use danp.Socket.Transfer.{
  Delivery, send_datagram, send_segment, send_loop, end_send, send, send_to, take_received, recv,
  recv_from,
}
use danp.Socket.Sound.Transfer.{IfSome, IfSome-some}
use danp.Socket.Owned.{
  pointed, Owned, put-Owned, allocate-Owned, forget-Owned, free-Owned, send_packet-Owned,
}
use danp.Socket.Owned.Queues.{received-count}
use danp.Socket.Owned.Handler.{Settled}
use danp.Socket.Owned.Calls.{KeepsSettled, put-Settled, take_signal-Settled}

module _ {o : Osal} (os : IsOsal o) where
  send_datagram-Settled :
      (header_raw : ℕ) (bytes : List ℕ) (n : Node o)
      → Settled os n
      → Settled os (send_datagram header_raw bytes n).1
  unfolding send_datagram
  send_datagram-Settled header_raw bytes n v =
      let w = allocate-Owned (λ p. 0) n v in
      elim (Option-cases (allocate n).0) [
        | inl e ↦ rw (e, send_datagram) (forget-Owned _ _ w)
        | inr (q, e) ↦ rw (e, send_datagram) (send_packet-Owned (λ p. 0) q _ _ _ (rw e at w))
      ]

  send_segment-Settled :
      (i : ℕ) (bytes : List ℕ) (q : ℕ) (n : Node o)
      → Owned (λ p. pointed (some q) p + 0) n
      → Settled os (send_segment i bytes q n)
  unfolding send_segment
  send_segment-Settled i bytes q n v = send_packet-Owned (λ p. 0) q _ _ n v

  send_loop-Settled :
      (await : ℕ → Node o → Node o) (i : ℕ) (bytes : List ℕ)
      → ((k : ℕ) → KeepsSettled os (await k))
      → (fuel k retries : ℕ) (n : Node o) → Settled os n
      → IfSome (λ (r : Bool × Node o). Settled os (r.1)) (send_loop await i bytes fuel k retries n)
  unfolding send_loop
  send_loop-Settled await i bytes keep zero k retries n v =
      elim (Bool-cases (ltb retries retry_limit)) [ inl e ↦ rw e tt | inr e ↦ rw e v ]
  send_loop-Settled await i bytes keep (suc fuel) k retries n v =
      let w = allocate-Owned (λ p. 0) n v in
      elim (Bool-cases (ltb retries retry_limit)) [
        | inr e ↦ rw (e, send_loop) v
        | inl e ↦ elim (Option-cases (allocate n).0) [
          | inl f ↦
              rw (e, f, send_loop)
                (send_loop-Settled await i bytes keep fuel (k + 1) retries _
                  (keep k _ (forget-Owned _ _ w)))
          | inr (q, f) ↦
              let sent = keep k _ (send_segment-Settled i bytes q (allocate n).1 (rw f at w)) in
              elim (Option-cases
                (take_signal i (await k (send_segment i bytes q (allocate n).1)))) [
                  | inl g ↦
                      rw (e, f, send_loop, g)
                        (send_loop-Settled await i bytes keep fuel (k + 1) (retries + 1) _ sent)
                  | inr (m, g) ↦ rw (e, f, send_loop, g) (take_signal-Settled os i _ m g sent)
                ]
        ]
      ]

  end_send-Settled :
      (i : ℕ) (bytes : List ℕ) (r : Option (Bool × Node o))
      → IfSome (λ (t : Bool × Node o). Settled os (t.1)) r
      → IfSome (λ (t : ℤ × Node o). Settled os (t.1)) (end_send i bytes r)
  unfolding end_send
  end_send-Settled i bytes none v = v
  end_send-Settled i bytes (some (true, n)) v = put-Settled os i _ n refl v
  end_send-Settled i bytes (some (false, n)) v = v

  pub send-Settled :
      (await : ℕ → Node o → Node o) (fuel i : ℕ) (bytes : List ℕ) (n : Node o)
      → ((k : ℕ) → KeepsSettled os (await k))
      → Settled os n
      → IfSome (λ (t : ℤ × Node o). Settled os (t.1)) (send await fuel i bytes n)
  unfolding send
  send-Settled await fuel i bytes n keep v =
      elim (Bool-cases (ltb (max_packet_size - 1) (length bytes))) [
        | inl e ↦ rw e v
        | inr e ↦ elim (type_cases (socket_at n i).type) [
          | inl t ↦ rw (e, t, send) (send_datagram-Settled _ bytes n v)
          | inr t ↦
              rw (e, t, send)
                (end_send-Settled i bytes _ (send_loop-Settled await i bytes keep fuel 0 0 n v))
        ]
      ]

  pub send_to-Settled :
      (i : ℕ) (bytes : List ℕ) (dst_node dst_port : ℕ) (n : Node o)
      → Settled os n
      → Settled os (send_to i bytes dst_node dst_port n).1
  unfolding send_to
  send_to-Settled i bytes dst_node dst_port n v = elim (type_cases (socket_at n i).type) [
    | inr t ↦ rw (send_to, t) v
    | inl t ↦ elim (Bool-cases (ltb (max_packet_size - 1) (length bytes))) [
      | inl e ↦ rw (send_to, t, e) v
      | inr e ↦ rw (send_to, t, e) (send_datagram-Settled _ bytes n v)
    ]
  ]

  -- The packet that comes off a queue is held by the caller.
  take_received-Owned :
      (i : ℕ) (n : Node o)
      → Settled os n
      → IfSome
          (λ (t : Option ℕ × Node o). Owned (λ p. pointed (t.0) p + 0) (t.1))
          (take_received i n)
  unfolding take_received
  take_received-Owned i n v = elim (Option-cases (socket_at n i).rx_queue) [
    | inl e ↦ rw (take_received, e) tt
    | inr (q, e) ↦ elim (Option-cases (o.mq_receive q)) [
      | inl f ↦ rw (take_received, e, take_received, f) tt
      | inr ((x, q'), f) ↦
          rw (take_received, e, take_received, f)
            (put-Owned (λ p. 0) (λ p. pointed x p + 0) i
              (record (socket_at n i) { rx_queue = some q' }) n
              (λ p. rw e (omega (arith, received-count os q q' x p f))) v)
    ]
  ]

  pub recv-Settled :
      (await : Node o → Node o) (i max_len : ℕ) (n : Node o)
      → KeepsSettled os await
      → Settled os n
      → Settled os (recv await i max_len n).2
  unfolding recv
  recv-Settled await i max_len n keep v =
      let got = take_received-Owned i (await n) (keep n v) in
      elim (Option-cases (take_received i (await n))) [
        | inl e ↦ rw (e, recv) (keep n v)
        | inr ((none, m), e) ↦
            rw (e, recv) (forget-Owned (λ p. 0 + 0) m (IfSome-some _ _ (none, m) e got))
        | inr ((some q, m), e) ↦
            rw (e, recv) (free-Owned (λ p. 0) (some q) m (IfSome-some _ _ (some q, m) e got))
      ]

  pub recv_from-Settled :
      (await : Node o → Node o) (i max_len : ℕ) (n : Node o)
      → KeepsSettled os await
      → Settled os n
      → IfSome
          (λ (t : ℤ × Option Delivery × Node o). Settled os (t.2))
          (recv_from await i max_len n)
  unfolding recv_from
  recv_from-Settled await i max_len n keep v =
      let got = take_received-Owned i (await n) (keep n v) in
      elim (type_cases (socket_at n i).type) [
        | inr t ↦ rw (recv_from, t) v
        | inl t ↦ elim (Option-cases (take_received i (await n))) [
          | inl e ↦ rw (recv_from, t, e, recv_from) (keep n v)
          | inr ((none, m), e) ↦ rw (recv_from, t, e, recv_from) tt
          | inr ((some q, m), e) ↦
              rw (recv_from, t, e, recv_from)
                (free-Owned (λ p. 0) (some q) m (IfSome-some _ _ (some q, m) e got))
        ]
      ]
