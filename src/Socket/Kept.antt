-- ===== src/Socket/Kept.antt =====
-- Steps that change the state of no socket.
use danp.Prelude.{
  ℕ, zero, suc, ◌≤◌, ◌<◌, ◌≡◌, refl, ap, sym, ◌∙◌, ◌⊎◌, inl, inr, List, Option, arith, length,
  get_or, set, leb, ◌==◌, Bool-cases, Option-cases, length-set, get_or-set_self, get_or-set_ne,
  get_or-beyond,
}
use danp.Types.{SocketState}
use danp.Osal.{Osal, buffer_mutex}
use danp.Buffer.Laws.{IsPool, free-IsPool}
use danp.Node.{Socket, Node, socket_at, put_socket, blank_socket, free}
use danp.Node.Traffic.{SameButTraffic-IsPool}
use danp.Socket.Control.{send_control}
use danp.Socket.Control.Laws.{send_control-SameButTraffic}
use danp.Socket.Create.{drain_packets}

module _ {o : Osal} where
  abbrev pub state_of : Node o → ℕ → SocketState
  state_of n j = (socket_at n j).state

  -- From `n` to `m` no socket changes its state, and the arrays keep their sizes.
  pub record Kept (n m : Node o) : Type 0 where
    pub still : (j : ℕ) → state_of m j ≡ state_of n j
    pub sockets : length m.socket_pool ≡ length n.socket_pool
    pub pool : IsPool m.pool

  pub Kept-refl : (n : Node o) → IsPool n.pool → Kept n n
  Kept-refl n v = record { still = λ j. refl; sockets = refl; pool = v }

  pub Kept-trans : {n m k : Node o} → Kept n m → Kept m k → Kept n k
  Kept-trans a b = record {
    still = λ j. b.still j ∙ a.still j;
    sockets = b.sockets ∙ a.sockets;
    pool = b.pool;
  }

  pub free-Kept : (p : Option ℕ) (n : Node o) → IsPool n.pool → Kept n (free p n)
  unfolding free
  free-Kept p n v = record {
    still = λ j. refl;
    sockets = refl;
    pool = free-IsPool (o.mutex_lock buffer_mutex) p n.pool v;
  }

  pub send_control-Kept :
      (i flags seq_num : ℕ) (n : Node o) → IsPool n.pool → Kept n (send_control i flags seq_num n)
  send_control-Kept i flags seq_num n v =
      let s = send_control-SameButTraffic i flags seq_num n v in
      record {
        still = λ j.
            ap (λ (socks : List (Socket o)). (get_or socks j (blank_socket o)).state) s.socket_pool;
        sockets = ap length s.socket_pool;
        pool = SameButTraffic-IsPool s v;
      }

  -- A write to a slot is seen in that slot alone, if it is there.
  pub state_of-put :
      (n : Node o) (i j : ℕ) (s : Socket o)
      → ((i ≡ j) × (i < length n.socket_pool) × (state_of (put_socket n i s) j ≡ s.state))
        ⊎ (state_of (put_socket n i s) j ≡ state_of n j)
  state_of-put n i j s = elim (Bool-cases (i == j)) [
    | inr other ↦ inr (
        ap (λ (t : Socket o). t.state)
          (get_or-set_ne n.socket_pool i j s (blank_socket o) (ground arith)))
    | inl same ↦
        let e : i ≡ j = ground arith in
        elim (Bool-cases (leb (length n.socket_pool) i)) [
          | inl out ↦
              let past : length n.socket_pool ≤ i = ground arith in
              let put_past : length (set n.socket_pool i s) ≤ i =
                omega (arith, length-set n.socket_pool i s) in
              rw (← e) (
                inr (
                  ap (λ (t : Socket o). t.state)
                    (get_or-beyond (set n.socket_pool i s) i (blank_socket o) put_past
                      ∙ sym (get_or-beyond n.socket_pool i (blank_socket o) past))))
          | inr within ↦
              let r : i < length n.socket_pool = ground arith in
              rw (← e) (
                inl (
                  refl,
                  r,
                  ap (λ (t : Socket o). t.state)
                      (get_or-set_self n.socket_pool i s (blank_socket o) r),
                ))
        ]
  ]

  pub put-Kept :
      (i : ℕ) (s : Socket o) (n : Node o)
      → IsPool n.pool
      → s.state ≡ state_of n i
      → Kept n (put_socket n i s)
  put-Kept i s n v e = record {
    still =
        λ j. elim (state_of-put n i j s) [ inl (h, _, f) ↦ f ∙ e ∙ ap (state_of n) h | inr f ↦ f ];
    sockets = length-set n.socket_pool i s;
    pool = v;
  }

  pub drain_packets-Kept :
      (k : ℕ) (q : o.Mq (Option ℕ)) (n : Node o) → IsPool n.pool → Kept n (drain_packets k q n).1
  unfolding drain_packets
  drain_packets-Kept zero q n v = Kept-refl n v
  drain_packets-Kept (suc k) q n v = elim (Option-cases (o.mq_receive q)) [
    | inl e ↦ rw (drain_packets, e) (Kept-refl n v)
    | inr ((p, q'), e) ↦
        let f = free-Kept p n v in
        rw (drain_packets, e) (Kept-trans f (drain_packets-Kept k q' (free p n) f.pool))
  ]
