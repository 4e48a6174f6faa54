-- ===== src/Socket/Owned.antt =====
-- The ownership of packets: a packet of the pool is counted where it is free, where it waits in a
-- queue of received packets, and where a caller holds it. A packet that is lost counts as 0.

pub mod Queues
pub mod Handler
pub mod Calls
pub mod Transfer
use danp.Prelude.{
  ℕ, zero, suc, ◌+◌, ◌≤◌, ◌≡◌, refl, ap, Bool, true, false, List, [], ◌∷◌, Option, none, some,
  arith, get_or, set, ◌==◌, if◌then◌else◌, inl, inr, Bool-cases, Option-cases, ltb,
}
use danp.Types.{pool_size}
use danp.Osal.{Osal, buffer_mutex}
use danp.Buffer
use danp.Buffer.Laws.{allocate_cases}
use danp.Node.{
  Socket, Node, socket_at, put_socket, blank_socket, allocate, free, send_packet, transmit, filled,
  packet_at,
}
use danp.Socket.Control.{send_control}

-- 1 for the packet itself, 0 for any other.
abbrev pub one : ℕ → ℕ → ℕ
one q p = if q == p then 1 else 0

-- How often a packet is in a queue.
abbrev pub count : ℕ → List (Option ℕ) → ℕ
count p [] = 0
count p (none ∷ xs) = count p xs
count p (some q ∷ xs) = one q p + count p xs

-- 1 if the slot is free.
abbrev pub free_at : ℕ → List Bool → ℕ
free_at p flags = if get_or flags p false then 1 else 0

free_at-set_taken :
    (p q : ℕ) (flags : List Bool)
    → get_or flags q false ≡ true
    → free_at p (set flags q false) + one q p ≤ free_at p flags
free_at-set_taken p q [] h = absurd (cc)
free_at-set_taken zero zero (f ∷ fs) h = rw h (omega arith)
free_at-set_taken (suc p) zero (f ∷ fs) h = ground arith
free_at-set_taken zero (suc q) (f ∷ fs) h = ground arith
free_at-set_taken (suc p) (suc q) (f ∷ fs) h = ground (arith, free_at-set_taken p q fs h)

free_at-set_freed :
    (p q : ℕ) (flags : List Bool) → free_at p (set flags q true) ≤ free_at p flags + one q p
free_at-set_freed p q [] = ground arith
free_at-set_freed zero zero (f ∷ fs) = ground arith
free_at-set_freed (suc p) zero (f ∷ fs) = ground arith
free_at-set_freed zero (suc q) (f ∷ fs) = ground arith
free_at-set_freed (suc p) (suc q) (f ∷ fs) = ground (arith, free_at-set_freed p q fs)

-- 1 for the packet that a pointer leads to.
abbrev pub pointed : Option ℕ → ℕ → ℕ
pointed none p = 0
pointed (some q) p = one q p

buffer_free-free_at :
    (lock : Bool) (q : Option ℕ) (pool : Buffer.Pool) (p : ℕ)
    → free_at p (Buffer.free lock q pool).free_map ≤ free_at p pool.free_map + pointed q p
unfolding Buffer.free
buffer_free-free_at lock none pool p = omega arith
buffer_free-free_at false (some q) pool p = omega arith
buffer_free-free_at true (some q) pool p = elim (Bool-cases (ltb q pool_size)) [
  | inr f ↦ rw f (omega arith)
  | inl t ↦ elim (Bool-cases (get_or pool.free_map q false)) [
    | inl y ↦ rw (t, y) (omega arith)
    | inr n ↦ rw (t, n) (free_at-set_freed p q pool.free_map)
  ]
]

abbrev pub queued : (o : Osal) → ℕ → Option (o.Mq (Option ℕ)) → ℕ
queued o p none = 0
queued o p (some q) = count p (o.contents q)

module _ {o : Osal} where
  -- How often a packet is in the queues of all the sockets.
  abbrev pub queued_in : ℕ → List (Socket o) → ℕ
  queued_in p [] = 0
  queued_in p (s ∷ socks) = queued o p s.rx_queue + queued_in p socks

  -- Each packet is at most once free, queued, or held by a caller; `held` counts the last.
  pub record Owned (held : ℕ → ℕ) (n : Node o) : Type 0 where
    pub once : (p : ℕ) → queued_in p n.socket_pool + free_at p n.pool.free_map + held p ≤ 1

  pub queued_in-set :
      (p : ℕ) (socks : List (Socket o)) (i : ℕ) (s : Socket o)
      → queued_in p (set socks i s) + queued o p (get_or socks i (blank_socket o)).rx_queue
        ≤ queued_in p socks + queued o p s.rx_queue
  queued_in-set p [] i s = omega arith
  queued_in-set p (x ∷ socks) zero s = omega arith
  queued_in-set p (x ∷ socks) (suc i) s = omega (arith, queued_in-set p socks i s)

  pub queued-le-queued_in :
      (p : ℕ) (socks : List (Socket o)) (i : ℕ)
      → queued o p (get_or socks i (blank_socket o)).rx_queue ≤ queued_in p socks
  queued-le-queued_in p [] i = omega arith
  queued-le-queued_in p (x ∷ socks) zero = omega arith
  queued-le-queued_in p (x ∷ socks) (suc i) = omega (arith, queued-le-queued_in p socks i)

  -- A write that leaves the queue of its slot leaves it to be found there.
  pub queue-set :
      (socks : List (Socket o)) (i : ℕ) (s : Socket o)
      → s.rx_queue ≡ (get_or socks i (blank_socket o)).rx_queue
      → (get_or (set socks i s) i (blank_socket o)).rx_queue
        ≡ (get_or socks i (blank_socket o)).rx_queue
  queue-set [] i s e = refl
  queue-set (x ∷ socks) zero s e = e
  queue-set (x ∷ socks) (suc i) s e = queue-set socks i s e

  -- A slot is written: what its new queue has more comes from the caller.
  pub put-Owned :
      (held held' : ℕ → ℕ) (i : ℕ) (s : Socket o) (n : Node o)
      → ((p : ℕ) → queued o p s.rx_queue + held' p ≤ queued o p (socket_at n i).rx_queue + held p)
      → Owned held n
      → Owned held' (put_socket n i s)
  put-Owned held held' i s n h v = record {
    once = λ p. omega (arith, h p, v.once p, queued_in-set p n.socket_pool i s);
  }

  pub put_same-Owned :
      (held : ℕ → ℕ) (i : ℕ) (s : Socket o) (n : Node o)
      → s.rx_queue ≡ (socket_at n i).rx_queue
      → Owned held n
      → Owned held (put_socket n i s)
  put_same-Owned held i s n e v = put-Owned held held i s n (λ p. rw e (omega arith)) v

  -- A packet that a caller lets go of, without giving it back.
  pub forget-Owned : (held : ℕ → ℕ) (n : Node o) → Owned held n → Owned (λ p. 0) n
  forget-Owned held n v = record { once = λ p. omega (arith, v.once p) }

  pub allocate-Owned :
      (held : ℕ → ℕ) (n : Node o)
      → Owned held n
      → Owned (λ p. pointed (allocate n).0 p + held p) (allocate n).1
  unfolding allocate
  allocate-Owned held n v = elim (Bool-cases (o.mutex_lock buffer_mutex)) [
    | inr l ↦ unfold Buffer.allocate in rw l (record { once = λ p. omega (arith, v.once p) })
    | inl l ↦ rw l (elim (allocate_cases n.pool) [
      | inl (_, e) ↦ rw e (record { once = λ p. omega (arith, v.once p) })
      | inr (q, h, e, _) ↦ rw e (record {
        once = λ p. omega (arith, v.once p, free_at-set_taken p q n.pool.free_map h.is_free);
      })
    ])
  ]

  pub free-Owned :
      (held : ℕ → ℕ) (q : Option ℕ) (n : Node o)
      → Owned (λ p. pointed q p + held p) n
      → Owned held (free q n)
  unfolding free
  free-Owned held q n v = record {
    once = λ p. omega (arith, v.once p, buffer_free-free_at (o.mutex_lock buffer_mutex) q n.pool p);
  }

  pub send_packet-Owned :
      (held : ℕ → ℕ) (q header_raw : ℕ) (payload : List ℕ) (n : Node o)
      → Owned (λ p. one q p + held p) n
      → Owned held (send_packet q header_raw payload n)
  unfolding send_packet free transmit
  send_packet-Owned held q header_raw payload n v =
      let pool : Buffer.Pool = record (n.pool) {
        packets = set n.pool.packets q (filled header_raw payload (packet_at n q));
      } in
      record {
        once = λ p.
            omega
              (arith, v.once p, buffer_free-free_at (o.mutex_lock buffer_mutex) (some q) pool p);
      }

  pub send_control-Owned :
      (held : ℕ → ℕ) (i flags seq_num : ℕ) (n : Node o)
      → Owned held n
      → Owned held (send_control i flags seq_num n)
  unfolding send_control
  send_control-Owned held i flags seq_num n v =
      let w = allocate-Owned held n v in
      elim (Option-cases (allocate n).0) [
        | inl e ↦
            let w' = rw e at w in
            rw (e, send_control) (record { once = λ p. omega (arith, w'.once p) })
        | inr (q, e) ↦ rw (e, send_control) (send_packet-Owned held q _ _ _ (rw e at w))
      ]
