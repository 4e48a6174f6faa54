-- ===== src/Socket/Owned/Queues.antt =====
-- The queues of received packets and who owns their packets: emptying one, adding to one, and
-- danp_socket, which empties the queue of the slot that it takes.
use danp.Prelude.{
  ℕ, zero, suc, ◌+◌, ◌-◌, ◌≤◌, ◌≡◌, refl, subst, ◌⊎◌, inl, inr, List, [], ◌∷◌, ◌++◌, Option, none,
  some, arith, length, set, Bool-cases, Option-cases, ltb,
}
use danp.Types.{SocketType, closed}
use danp.Osal.{Osal, IsOsal, socket_mutex, buffer_mutex}
use danp.Node.{Socket, Node, socket_at, put_socket, free}
use danp.Socket.Find.{points_to}
use danp.Socket.Create.{
  or_create, free_slot, bypass, detach, fresh_socket, drain_packets, drain_sockets, finish, create,
}
use danp.Socket.Create.Listed.{drain_packets-SameSockets}
use danp.Socket.Input.{clear_queue}
use danp.Socket.Owned.{
  count, free_at, pointed, buffer_free-free_at, queued, queued_in, Owned, queued_in-set,
  queued-le-queued_in, put-Owned,
}

List-cases {ℓ} :
    {A : Type ℓ} (xs : List A) → (xs ≡ []) ⊎ ((x : A) × (rest : List A) × (xs ≡ x ∷ rest))
List-cases [] = inl refl
List-cases (x ∷ rest) = inr (x, rest, refl)

count-cons :
    (p : ℕ) (x : Option ℕ) (xs : List (Option ℕ)) → count p (x ∷ xs) ≡ pointed x p + count p xs
count-cons p none xs = omega arith
count-cons p (some q) xs = refl

count-append :
    (p : ℕ) (xs : List (Option ℕ)) (x : Option ℕ)
    → count p (xs ++ x ∷ []) ≡ count p xs + pointed x p
count-append p [] none = omega arith
count-append p [] (some q) = omega arith
count-append p (none ∷ xs) x = count-append p xs x
count-append p (some q ∷ xs) x = omega (arith, count-append p xs x)

module _ {o : Osal} (os : IsOsal o) where
  receive_inverse :
      (q q' : o.Mq (Option ℕ)) (x : Option ℕ)
      → o.mq_receive q ≡ some (x, q')
      → o.contents q ≡ x ∷ o.contents q'
  receive_inverse q q' x e = elim (List-cases (o.contents q)) [
    | inl c ↦ absurd (cc (os.receive_empty q c))
    | inr (y, rest, c) ↦ let (r, got, left, _) = os.receive_oldest q y rest c in cc
  ]

  pub received-count :
      (q q' : o.Mq (Option ℕ)) (x : Option ℕ) (p : ℕ)
      → o.mq_receive q ≡ some (x, q')
      → count p (o.contents q) ≡ pointed x p + count p (o.contents q')
  received-count q q' x p e = rw (receive_inverse q q' x e) (count-cons p x (o.contents q'))

  -- A packet sent to a queue is in it once more.
  pub sent-count :
      (q q' : o.Mq (Option ℕ)) (x : Option ℕ) (p : ℕ)
      → o.mq_send q x ≡ some q'
      → count p (o.contents q') ≡ count p (o.contents q) + pointed x p
  sent-count q q' x p e = elim (Bool-cases (ltb (length (o.contents q)) (o.places q))) [
    | inr f ↦
        let full : o.places q ≤ length (o.contents q) = ground arith in
        absurd (cc (os.send_full q x full))
    | inl t ↦
        let (r, sent, held, _) = os.send_room q x (ground arith) in
        let same : o.contents q' ≡ o.contents q ++ x ∷ [] = cc in
        rw same (count-append p (o.contents q) x)
  ]

  -- While a queue is emptied its packets go back to the pool; `base` counts those elsewhere.
  drain_packets-count :
      (base : ℕ → ℕ) (k : ℕ) (q : o.Mq (Option ℕ)) (n : Node o)
      → ((p : ℕ) → base p + count p (o.contents q) + free_at p n.pool.free_map ≤ 1)
      → let (q', m) = drain_packets k q n in
        (p : ℕ) → base p + count p (o.contents q') + free_at p m.pool.free_map ≤ 1
  unfolding drain_packets free
  drain_packets-count base zero q n h = h
  drain_packets-count base (suc k) q n h = elim (Option-cases (o.mq_receive q)) [
    | inl e ↦ rw (drain_packets, e) h
    | inr ((x, q'), e) ↦
        rw (drain_packets, e)
          (drain_packets-count base k q' (free x n) (λ p. omega (
            arith,
            h p,
            received-count q q' x p e,
            buffer_free-free_at (o.mutex_lock buffer_mutex) x n.pool p,
          )))
  ]

  -- The queue of a slot, or one that has no more packets, is emptied and written to the slot.
  drained-Owned :
      (held : ℕ → ℕ) (k i : ℕ) (q : o.Mq (Option ℕ)) (n : Node o) (s : Socket o)
      → ((p : ℕ) → count p (o.contents q) ≤ queued o p (socket_at n i).rx_queue)
      → s.rx_queue ≡ some (drain_packets k q n).0
      → Owned held n
      → Owned held (put_socket (drain_packets k q n).1 i s)
  drained-Owned held k i q n s le e v =
      let base : ℕ → ℕ =
        λ p. queued_in p n.socket_pool - queued o p (socket_at n i).rx_queue + held p in
      let m = (drain_packets k q n).1 in
      let d =
        drain_packets-count base k q n
          (λ p. omega (arith, v.once p, le p, queued-le-queued_in p n.socket_pool i)) in
      let same : m.socket_pool ≡ n.socket_pool = (drain_packets-SameSockets k q n).socket_pool in
      record {
        once = λ p.
            let left : ℕ = count p (o.contents (drain_packets k q n).0) in
            let free_now : ℕ = free_at p m.pool.free_map in
            let drained : base p + left + free_now ≤ 1 = d p in
            let written : queued_in p (set n.socket_pool i s) + queued o p (socket_at n i).rx_queue
                ≤ queued_in p n.socket_pool + left =
              subst
                (λ t.
                  queued_in p (set n.socket_pool i s) + queued o p (socket_at n i).rx_queue
                  ≤ queued_in p n.socket_pool + queued o p t)
                e (queued_in-set p n.socket_pool i s) in
            let whole : queued_in p (set n.socket_pool i s) + free_now + held p ≤ 1 =
              omega (arith, drained, written, queued-le-queued_in p n.socket_pool i) in
            rw same whole;
      }

  pub clear_queue-Owned :
      (held : ℕ → ℕ) (i : ℕ) (r : Option (o.Mq (Option ℕ))) (n : Node o)
      → (socket_at n i).rx_queue ≡ r
      → Owned held n
      → Owned held (clear_queue i r n)
  unfolding clear_queue
  clear_queue-Owned held i none n e v = v
  clear_queue-Owned held i (some q) n e v =
      drained-Owned held (length (o.contents q)) i q n _ (λ p. rw e (omega arith)) refl v

  bypass-queued_in :
      (p i : ℕ) (after : Option ℕ) (socks : List (Socket o))
      → queued_in p (bypass i after socks) ≡ queued_in p socks
  unfolding bypass
  bypass-queued_in p i after [] = refl
  bypass-queued_in p i after (s ∷ socks) = elim (Bool-cases (points_to s.next i)) [
    | inl y ↦ rw y refl
    | inr f ↦ rw f (omega (arith, bypass-queued_in p i after socks))
  ]

  detach-Owned : (held : ℕ → ℕ) (i : ℕ) (n : Node o) → Owned held n → Owned held (detach i n)
  unfolding detach
  detach-Owned held i n v = elim (Bool-cases (points_to n.socket_list i)) [
    | inl y ↦ rw y (record { once = v.once })
    | inr f ↦ rw f (record {
      once = λ p. rw (bypass-queued_in p i (socket_at n i).next n.socket_pool) (v.once p);
    })
  ]

  -- The queue that a slot keeps or gets holds no more than the slot's.
  or_create-queued :
      (p : ℕ) (old : Option (o.Mq (Option ℕ)))
      → queued o p (or_create old (o.mq_create 10)) ≤ queued o p old
  unfolding or_create
  or_create-queued p (some q) = omega arith
  or_create-queued p none = elim (Option-cases (o.mq_create {A = Option ℕ} 10)) [
    | inl e ↦ rw e (omega arith)
    | inr (q, e) ↦ rw (e, os.create_empty 10 q e) (omega arith)
  ]

  finish-Owned :
      (held : ℕ → ℕ) (i : ℕ) (s : Socket o) (n : Node o)
      → ((p : ℕ) → queued o p s.rx_queue ≤ queued o p (socket_at n i).rx_queue)
      → Owned held n
      → Owned held (finish i s n).1
  unfolding finish
  finish-Owned held i s n le v =
      let failed : Owned held (put_socket n i (record s { state = closed })) =
        put-Owned held held i (record s { state = closed }) n (λ p. omega (arith, le p)) v in
      elim (Option-cases s.rx_queue) [
        | inl f ↦ rw (finish, f) failed
        | inr (rx, f) ↦ elim (Option-cases s.accept_queue) [
          | inl g ↦ rw (finish, f, finish, g) failed
          | inr (acc, g) ↦ elim (Option-cases s.signal) [
            | inl e ↦ rw (finish, f, finish, g, finish, e) failed
            | inr (sig, e) ↦
                let d =
                  drained-Owned held (length (o.contents rx)) i rx n
                    (record s {
                      rx_queue = some (drain_packets (length (o.contents rx)) rx n).0;
                      accept_queue = some (drain_sockets o (length (o.contents acc)) acc);
                      next = (drain_packets (length (o.contents rx)) rx n).1.socket_list;
                    })
                    (λ p. rw f at (le p)) refl v in
                rw (finish, f, finish, g, finish, e) (record { once = d.once })
          ]
        ]
      ]

  pub create-Owned :
      (held : ℕ → ℕ) (type : SocketType) (n : Node o) → Owned held n → Owned held (create type n).1
  unfolding create fresh_socket
  create-Owned held type n v = elim (Bool-cases (o.mutex_lock socket_mutex)) [
    | inr l ↦ rw l v
    | inl l ↦ elim (Option-cases (free_slot 0 n.socket_pool)) [
      | inl f ↦ rw (l, f) v
      | inr (c, f) ↦
          rw (l, f)
            (finish-Owned held c _ (detach c n) (λ p. or_create-queued p _)
              (detach-Owned held c n v))
    ]
  ]
