-- ===== src/Node/Traffic.antt =====
-- Sending, and the parts of the node that it does not touch.
use danp.Prelude.{
  true, get_or, get_or-set_ne, ℕ, ◌≢◌, ◌<◌, ◌≡◌, refl, ◌⊎◌, inl, inr, false, List, none, some,
  arith, length, set, length-set, Bool-cases, ap, ◌∙◌, sym,
}
use danp.Osal.{Osal, buffer_mutex}
use danp.Buffer
use danp.Buffer.{Pool, first_free}
use danp.Buffer.Laws.{IsPool, allocate_cases, allocate-slot, give_back, free-packets}
use danp.Types.{blank_packet}
use danp.Node.{Node, packet_at, filled, allocate, free, transmit, send_packet}

-- Two nodes that differ in the packets of the pool and in what was sent, and in nothing else.
pub record SameButTraffic {o : Osal} (n m : Node o) : Type 0 where
  pub socket_pool : m.socket_pool ≡ n.socket_pool
  pub socket_list : m.socket_list ≡ n.socket_list
  pub next_ephemeral_port : m.next_ephemeral_port ≡ n.next_ephemeral_port
  pub routing : m.routing ≡ n.routing
  pub config_local_node : m.config_local_node ≡ n.config_local_node
  pub free_map : m.pool.free_map ≡ n.pool.free_map
  pub packets : length m.pool.packets ≡ length n.pool.packets

module _ {o : Osal} where
  pub SameButTraffic-refl : (n : Node o) → SameButTraffic n n
  SameButTraffic-refl n = record {
    socket_pool = refl;
    socket_list = refl;
    next_ephemeral_port = refl;
    routing = refl;
    config_local_node = refl;
    free_map = refl;
    packets = refl;
  }

  -- Sending is done with a slot or not at all.
  pub send-SameButTraffic :
      (n : Node o) (header_raw : ℕ) (payload : List ℕ)
      → IsPool n.pool
      → (((allocate n).0 ≡ none) × ((allocate n).1 ≡ n))
        ⊎ ((p : ℕ) × ((allocate n).0 ≡ some p)
            × SameButTraffic n (send_packet p header_raw payload (allocate n).1))
  unfolding allocate send_packet free transmit
  send-SameButTraffic n header_raw payload v = elim (Bool-cases (o.mutex_lock buffer_mutex)) [
    | inl l ↦ rw l (elim (allocate_cases n.pool) [
      | inl (_, e) ↦ inl (rw e, rw e)
      | inr (i, h, e, _) ↦ inr (
        i,
        rw e,
        rw e (record {
          socket_pool = refl;
          socket_list = refl;
          next_ephemeral_port = refl;
          routing = refl;
          config_local_node = refl;
          free_map = ap (λ (q : Pool). q.free_map) (give_back n.pool i _ v h);
          packets =
              ap (λ (q : Pool). length q.packets) (give_back n.pool i _ v h)
              ∙ length-set n.pool.packets i _;
        }),
      )
    ])
    | inr l ↦ unfold Buffer.allocate in inl (rw l, rw l)
  ]

  pub SameButTraffic-IsPool : {n m : Node o} → SameButTraffic n m → IsPool n.pool → IsPool m.pool
  SameButTraffic-IsPool s v = record {
    slots = s.packets ∙ v.slots;
    flags = ap length s.free_map ∙ v.flags;
  }

  -- Which packet is given out depends on the free slots alone.
  pub slot-free_map :
      (n m : Node o) → m.pool.free_map ≡ n.pool.free_map → (allocate m).0 ≡ (allocate n).0
  unfolding allocate
  slot-free_map n m e = elim (Bool-cases (o.mutex_lock buffer_mutex)) [
    | inl l ↦ rw l (allocate-slot m.pool ∙ ap (first_free 0) e ∙ sym (allocate-slot n.pool))
    | inr l ↦ unfold Buffer.allocate in rw l
  ]

  -- What allocation leaves where it gives out a slot.
  pub allocate-taken :
      (n : Node o) (p : ℕ)
      → IsPool n.pool
      → (allocate n).0 ≡ some p
      → (p < length n.pool.packets)
        × ((allocate n).1
            ≡ record n { pool = record (n.pool) { free_map = set n.pool.free_map p false } })
  unfolding allocate
  allocate-taken n p v e = elim (Bool-cases (o.mutex_lock buffer_mutex)) [
    | inr l ↦ absurd (unfold Buffer.allocate in cc (rw l at e))
    | inl l ↦ elim (allocate_cases n.pool) [
      | inl (_, f) ↦ absurd (cc (rw (l, f) at e))
      | inr (q, h, f, _) ↦
          let same : q ≡ p = cc (rw (l, f) at e) in
          rw (l, f, same) (omega (arith, h.in_range, v.slots, v.flags, same), refl)
    ]
  ]

  -- A packet is given out only if it is free.
  pub allocate-free_slot :
      (n : Node o) (p : ℕ) → (allocate n).0 ≡ some p → get_or n.pool.free_map p false ≡ true
  unfolding allocate
  allocate-free_slot n p e = elim (Bool-cases (o.mutex_lock buffer_mutex)) [
    | inr l ↦ absurd (unfold Buffer.allocate in cc (rw l at e))
    | inl l ↦ elim (allocate_cases n.pool) [
      | inl (_, f) ↦ absurd (cc (rw (l, f) at e))
      | inr (q, h, f, _) ↦ let same : q ≡ p = cc (rw (l, f) at e) in rw (sym same) h.is_free
    ]
  ]

  -- Sending writes to the packet that was taken for it, and to no packet in use.
  pub send_packet-used :
      (n : Node o) (p q header_raw : ℕ) (payload : List ℕ)
      → IsPool n.pool
      → (allocate n).0 ≡ some q
      → get_or n.pool.free_map p false ≡ false
      → packet_at (send_packet q header_raw payload (allocate n).1) p ≡ packet_at n p
  unfolding send_packet transmit free
  send_packet-used n p q header_raw payload v e used =
      let (_, taken) = allocate-taken n q v e in
      let other : q ≢ p = λ s.
        cc (
          sym used ∙ ap (λ k. get_or n.pool.free_map k false) (sym s) ∙ allocate-free_slot n q e) in
      let kept =
        get_or-set_ne n.pool.packets q p (filled header_raw payload (packet_at n q)) blank_packet
          other in
      rw (free-packets (o.mutex_lock buffer_mutex) (some q), taken) kept
