-- ===== src/Socket/Sound/Transfer.antt =====
-- The functions that send and receive keep the invariant.
use danp.Prelude.{
  ℕ, zero, suc, ◌+◌, ◌-◌, ◌≡◌, refl, subst, inl, inr, Bool, true, false, List, Option, none, some,
  ℤ, ltb, length, Bool-cases, Option-cases,
}
use danp.Types.{type_cases, retry_limit, max_packet_size}
use danp.Osal.{Osal}
use danp.Node.{Node, socket_at, allocate}
use danp.Socket.Connect.{take_signal}
use danp.Socket.Transfer.{
  Delivery, send_datagram, send_segment, send_loop, end_send, send, send_to, take_received, recv,
  recv_from,
}
use danp.Socket.Sound.{
  IsSound, KeepsSound, put-IsSound, allocate-IsSound, free-IsSound, send_packet-IsSound,
}
use danp.Socket.Sound.Connect.{take_signal-IsSound}

-- What a call that may not return, or run into a fault, holds of its result.
abbrev pub IfSome {ℓ κ} : {A : Type ℓ} → (A → Type κ) → Option A → Type κ
IfSome P none = Unit
IfSome P (some a) = P a

pub IfSome-some {ℓ κ} :
    {A : Type ℓ} (P : A → Type κ) (r : Option A) (a : A) → r ≡ some a → IfSome P r → P a
IfSome-some P r a e h = subst (IfSome P) e h

module _ {o : Osal} where
  send_datagram-IsSound :
      (header_raw : ℕ) (bytes : List ℕ) (n : Node o)
      → IsSound n
      → IsSound (send_datagram header_raw bytes n).1
  unfolding send_datagram
  send_datagram-IsSound header_raw bytes n v = elim (Option-cases (allocate n).0) [
    | inl e ↦ rw (e, send_datagram) (allocate-IsSound n v)
    | inr (p, e) ↦ rw (e, send_datagram) (send_packet-IsSound p _ _ _ (allocate-IsSound n v))
  ]

  send_segment-IsSound :
      (i : ℕ) (bytes : List ℕ) (p : ℕ) (n : Node o) → IsSound n → IsSound (send_segment i bytes p n)
  unfolding send_segment
  send_segment-IsSound i bytes p n v = send_packet-IsSound p _ _ n v

  send_loop-IsSound :
      (await : ℕ → Node o → Node o) (i : ℕ) (bytes : List ℕ)
      → ((k : ℕ) → KeepsSound (await k))
      → (fuel k retries : ℕ) (n : Node o) → IsSound n
      → IfSome (λ (r : Bool × Node o). IsSound (r.1)) (send_loop await i bytes fuel k retries n)
  unfolding send_loop
  send_loop-IsSound await i bytes keep zero k retries n v =
      elim (Bool-cases (ltb retries retry_limit)) [ inl e ↦ rw e tt | inr e ↦ rw e v ]
  send_loop-IsSound await i bytes keep (suc fuel) k retries n v =
      let w = allocate-IsSound n v in
      elim (Bool-cases (ltb retries retry_limit)) [
        | inr e ↦ rw (e, send_loop) v
        | inl e ↦ elim (Option-cases (allocate n).0) [
          | inl f ↦
              rw (e, f, send_loop)
                (send_loop-IsSound await i bytes keep fuel (k + 1) retries _ (keep k _ w))
          | inr (p, f) ↦
              let sent = keep k _ (send_segment-IsSound i bytes p (allocate n).1 w) in
              elim (Option-cases
                (take_signal i (await k (send_segment i bytes p (allocate n).1)))) [
                  | inl g ↦
                      rw (e, f, send_loop, g)
                        (send_loop-IsSound await i bytes keep fuel (k + 1) (retries + 1) _ sent)
                  | inr (m, g) ↦ rw (e, f, send_loop, g) (take_signal-IsSound i _ m g sent)
                ]
        ]
      ]

  end_send-IsSound :
      (i : ℕ) (bytes : List ℕ) (r : Option (Bool × Node o))
      → IfSome (λ (t : Bool × Node o). IsSound (t.1)) r
      → IfSome (λ (t : ℤ × Node o). IsSound (t.1)) (end_send i bytes r)
  unfolding end_send
  end_send-IsSound i bytes none v = v
  end_send-IsSound i bytes (some (true, n)) v = put-IsSound n i _ refl (v.ports i) v
  end_send-IsSound i bytes (some (false, n)) v = v

  pub send-IsSound :
      (await : ℕ → Node o → Node o) (fuel i : ℕ) (bytes : List ℕ) (n : Node o)
      → ((k : ℕ) → KeepsSound (await k))
      → IsSound n
      → IfSome (λ (t : ℤ × Node o). IsSound (t.1)) (send await fuel i bytes n)
  unfolding send
  send-IsSound await fuel i bytes n keep v =
      elim (Bool-cases (ltb (max_packet_size - 1) (length bytes))) [
        | inl e ↦ rw e v
        | inr e ↦ elim (type_cases (socket_at n i).type) [
          | inl t ↦ rw (e, t, send) (send_datagram-IsSound _ bytes n v)
          | inr t ↦
              rw (e, t, send)
                (end_send-IsSound i bytes _ (send_loop-IsSound await i bytes keep fuel 0 0 n v))
        ]
      ]

  pub send_to-IsSound :
      (i : ℕ) (bytes : List ℕ) (dst_node dst_port : ℕ) (n : Node o)
      → IsSound n
      → IsSound (send_to i bytes dst_node dst_port n).1
  unfolding send_to
  send_to-IsSound i bytes dst_node dst_port n v = elim (type_cases (socket_at n i).type) [
    | inr t ↦ rw (send_to, t) v
    | inl t ↦ elim (Bool-cases (ltb (max_packet_size - 1) (length bytes))) [
      | inl e ↦ rw (send_to, t, e) v
      | inr e ↦ rw (send_to, t, e) (send_datagram-IsSound _ bytes n v)
    ]
  ]

  take_received-IsSound :
      (i : ℕ) (n : Node o)
      → IsSound n
      → IfSome (λ (t : Option ℕ × Node o). IsSound (t.1)) (take_received i n)
  unfolding take_received
  take_received-IsSound i n v = elim (Option-cases (socket_at n i).rx_queue) [
    | inl e ↦ rw (take_received, e) tt
    | inr (q, e) ↦ elim (Option-cases (o.mq_receive q)) [
      | inl f ↦ rw (take_received, e, take_received, f) tt
      | inr ((p, q'), f) ↦
          rw (take_received, e, take_received, f) (put-IsSound n i _ refl (v.ports i) v)
    ]
  ]

  pub recv-IsSound :
      (await : Node o → Node o) (i max_len : ℕ) (n : Node o)
      → KeepsSound await
      → IsSound n
      → IsSound (recv await i max_len n).2
  unfolding recv
  recv-IsSound await i max_len n keep v =
      let got = take_received-IsSound i (await n) (keep n v) in
      elim (Option-cases (take_received i (await n))) [
        | inl e ↦ rw (e, recv) (keep n v)
        | inr ((none, m), e) ↦ rw (e, recv) (IfSome-some _ _ _ e got)
        | inr ((some p, m), e) ↦
            rw (e, recv) (free-IsSound (some p) m (IfSome-some _ _ (some p, m) e got))
      ]

  pub recv_from-IsSound :
      (await : Node o → Node o) (i max_len : ℕ) (n : Node o)
      → KeepsSound await
      → IsSound n
      → IfSome (λ (t : ℤ × Option Delivery × Node o). IsSound (t.2)) (recv_from await i max_len n)
  unfolding recv_from
  recv_from-IsSound await i max_len n keep v =
      let got = take_received-IsSound i (await n) (keep n v) in
      elim (type_cases (socket_at n i).type) [
        | inr t ↦ rw (recv_from, t) v
        | inl t ↦ elim (Option-cases (take_received i (await n))) [
          | inl e ↦ rw (recv_from, t, e, recv_from) (keep n v)
          | inr ((none, m), e) ↦ rw (recv_from, t, e, recv_from) tt
          | inr ((some p, m), e) ↦
              rw (recv_from, t, e, recv_from)
                (free-IsSound (some p) m (IfSome-some _ _ (some p, m) e got))
        ]
      ]
