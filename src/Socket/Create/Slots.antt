-- ===== src/Socket/Create/Slots.antt =====
-- danp_socket: the slot that it takes, and the states of the others.
use danp.Prelude.{
  ℕ, zero, suc, ◌+◌, ◌<◌, ◌≡◌, ◌≢◌, refl, ap, sym, ◌∙◌, ◌⊎◌, inl, inr, Bool, true, List, [], ◌∷◌,
  Option, none, some, arith, length, get_or, ◌==◌, ◌&&◌, Bool-cases, Option-cases, length-set,
  get_or-set_ne,
}
use danp.Types.{
  SocketType, SocketState, closed, open_state, listening, syn_sent, syn_received, established,
}
use danp.Osal.{Osal, socket_mutex}
use danp.Buffer.Laws.{IsPool}
use danp.Node.{Socket, Node, socket_at, put_socket, blank_socket}
use danp.Socket.Find.{is_closed, points_to}
use danp.Socket.Create.{free_slot, bypass, detach, fresh_socket, finish, create}
use danp.Socket.Kept.{state_of, Kept, Kept-refl, Kept-trans, put-Kept, drain_packets-Kept}

is_closed-closed : (s : SocketState) (b : Bool) → (is_closed s && b) ≡ true → s ≡ closed
unfolding is_closed
is_closed-closed closed b h = refl
is_closed-closed open_state b h = absurd (cc)
is_closed-closed listening b h = absurd (cc)
is_closed-closed syn_sent b h = absurd (cc)
is_closed-closed syn_received b h = absurd (cc)
is_closed-closed established b h = absurd (cc)

module _ {o : Osal} where
  -- From `n` to `m` no socket but `c` changes its state, and `c` was closed.
  pub record KeptBut (c : ℕ) (n m : Node o) : Type 0 where
    pub still : (j : ℕ) → c ≢ j → state_of m j ≡ state_of n j
    pub was_closed : state_of n c ≡ closed
    pub in_range : c < length m.socket_pool
    pub pool : IsPool m.pool

  pub free_slot-closed :
      (socks : List (Socket o)) (k i : ℕ)
      → free_slot k socks ≡ some i
      → (m : ℕ) × (i ≡ k + m)
        × (m < length socks)
        × ((get_or socks m (blank_socket o)).state ≡ closed)
  unfolding free_slot
  free_slot-closed [] k i h = absurd (cc)
  free_slot-closed (s ∷ socks) k i h = elim (Bool-cases (is_closed s.state && s.local_port == 0)) [
    | inl y ↦ (0, ground arith, omega arith, is_closed-closed s.state _ y)
    | inr n ↦
        let (m, e, r, c) = free_slot-closed socks (k + 1) i (rw n at h) in
        (suc m, omega arith, omega arith, c)
  ]

  bypass-state :
      (i : ℕ) (after : Option ℕ) (socks : List (Socket o)) (j : ℕ)
      → (get_or (bypass i after socks) j (blank_socket o)).state
        ≡ (get_or socks j (blank_socket o)).state
  unfolding bypass
  bypass-state i after [] j = refl
  bypass-state i after (s ∷ socks) zero = elim (Bool-cases (points_to s.next i)) [
    | inl y ↦ rw y refl
    | inr n ↦ rw n refl
  ]
  bypass-state i after (s ∷ socks) (suc j) = elim (Bool-cases (points_to s.next i)) [
    | inl y ↦ rw y refl
    | inr n ↦ rw n (bypass-state i after socks j)
  ]

  length-bypass :
      (i : ℕ) (after : Option ℕ) (socks : List (Socket o))
      → length (bypass i after socks) ≡ length socks
  unfolding bypass
  length-bypass i after [] = refl
  length-bypass i after (s ∷ socks) = elim (Bool-cases (points_to s.next i)) [
    | inl y ↦ rw y refl
    | inr n ↦ rw n (ap suc (length-bypass i after socks))
  ]

  pub detach-Kept : (i : ℕ) (n : Node o) → IsPool n.pool → Kept n (detach i n)
  unfolding detach
  detach-Kept i n v = elim (Bool-cases (points_to n.socket_list i)) [
    | inl y ↦ rw y (record { still = λ j. refl; sockets = refl; pool = v })
    | inr f ↦ rw f (record {
      still = bypass-state i (socket_at n i).next n.socket_pool;
      sockets = length-bypass i (socket_at n i).next n.socket_pool;
      pool = v;
    })
  ]

  -- A write to a closed slot that is there.
  put-KeptBut :
      (c : ℕ) (s : Socket o) (n m : Node o)
      → Kept n m
      → state_of n c ≡ closed
      → c < length n.socket_pool
      → KeptBut c n (put_socket m c s)
  put-KeptBut c s n m k e r = record {
    still = λ j h.
        ap (λ (t : Socket o). t.state) (get_or-set_ne m.socket_pool c j s (blank_socket o) h)
        ∙ k.still j;
    was_closed = e;
    in_range = omega (arith, length-set m.socket_pool c s, k.sockets);
    pool = k.pool;
  }

  relist-KeptBut :
      (c : ℕ) (n m : Node o) (head : Option ℕ)
      → KeptBut c n m
      → KeptBut c n (record m { socket_list = head })
  relist-KeptBut c n m head k = record {
    still = k.still;
    was_closed = k.was_closed;
    in_range = k.in_range;
    pool = k.pool;
  }

  -- The slot is taken, or closed again.
  finish-cases :
      (c : ℕ) (s : Socket o) (n m : Node o)
      → Kept n m
      → state_of n c ≡ closed
      → c < length n.socket_pool
      → ((finish c s m).0 ≡ some c × KeptBut c n (finish c s m).1)
        ⊎ (((finish c s m).0 ≡ none) × Kept n (finish c s m).1)
  unfolding finish
  finish-cases c s n m k e r =
      let failed : Kept n (put_socket m c (record s { state = closed })) =
        Kept-trans k (put-Kept c (record s { state = closed }) m k.pool (sym (k.still c ∙ e))) in
      elim (Option-cases s.rx_queue) [
        | inl f ↦ rw (finish, f) (inr (refl, failed))
        | inr (rx, f) ↦ elim (Option-cases s.accept_queue) [
          | inl g ↦ rw (finish, f, finish, g) (inr (refl, failed))
          | inr (acc, g) ↦ elim (Option-cases s.signal) [
            | inl h ↦ rw (finish, f, finish, g, finish, h) (inr (refl, failed))
            | inr (sig, h) ↦
                let d = drain_packets-Kept (length (o.contents rx)) rx m k.pool in
                rw (finish, f, finish, g, finish, h)
                  (inl (
                    refl,
                    relist-KeptBut c n _ (some c) (put-KeptBut c _ n _ (Kept-trans k d) e r),
                  ))
          ]
        ]
      ]

  -- `danp_socket` either gives out a socket that was closed, and no other socket changes its state,
  -- or it gives out none, and no socket at all does.
  pub create-cases :
      (type : SocketType) (n : Node o)
      → IsPool n.pool
      → ((c : ℕ) × ((create type n).0 ≡ some c) × KeptBut c n (create type n).1)
        ⊎ (((create type n).0 ≡ none) × Kept n (create type n).1)
  unfolding create
  create-cases type n v = elim (Bool-cases (o.mutex_lock socket_mutex)) [
    | inr l ↦ rw l (inr (refl, Kept-refl n v))
    | inl l ↦ elim (Option-cases (free_slot 0 n.socket_pool)) [
      | inl f ↦ rw (l, f) (inr (refl, Kept-refl n v))
      | inr (c, f) ↦
          let (m, at, r, shut) = free_slot-closed n.socket_pool 0 c f in
          let here : c ≡ m = omega (arith, at) in
          let d = detach-Kept c n v in
          elim (finish-cases c (fresh_socket type n.config_local_node (socket_at (detach c n) c)) n
            (detach c n) d (rw here shut) (omega (arith, here))) [
              | inl (g, k) ↦ rw (l, f) (inl (c, g, k))
              | inr (g, k) ↦ rw (l, f) (inr (g, k))
            ]
    ]
  ]

  -- The slot is written again.
  pub again-KeptBut :
      (c : ℕ) (s : Socket o) (n m : Node o) → KeptBut c n m → KeptBut c n (put_socket m c s)
  again-KeptBut c s n m k = record {
    still = λ j h.
        ap (λ (t : Socket o). t.state) (get_or-set_ne m.socket_pool c j s (blank_socket o) h)
        ∙ k.still j h;
    was_closed = k.was_closed;
    in_range = omega (arith, length-set m.socket_pool c s, k.in_range);
    pool = k.pool;
  }
