-- ===== src/Socket/Create.antt =====
-- danp_socket_init and danp_socket: a slot of the pool is set up and put on the list.
pub mod Slots
mod Relink
mod Detach
pub mod Listed
pub mod Fresh
use danp.Prelude.{
  ℕ, zero, suc, ◌+◌, Bool, true, false, ◌&&◌, List, [], ◌∷◌, Option, none, some, ℤ, pos, minus_one,
  ◌==◌, if◌then◌else◌, map, length,
}
use danp.Types.{SocketType, closed, open_state}
use danp.Osal.{Osal, socket_mutex}
use danp.Node.{Socket, Node, socket_at, put_socket, blank_socket, free}
use danp.Socket.Find.{points_to, is_closed}

-- A handle that a slot has from earlier use is kept.
unfoldable pub or_create {ℓ} : {A : Type ℓ} → Option A → Option A → Option A
or_create none made = made
or_create (some q) made = some q

-- The accept queue is emptied; a queue is as long as the loop is.
unfoldable pub drain_sockets : (o : Osal) → ℕ → o.Mq ℕ → o.Mq ℕ
drain_sockets o zero q = q
drain_sockets o (suc k) q = elim (o.mq_receive q) [ none ↦ q | some (a, q') ↦ drain_sockets o k q' ]

module _ {o : Osal} where
  -- `danp_socket_init`; `created` says whether the mutex could be made.
  unfoldable pub socket_init : Bool → Node o → ℤ × Node o
  socket_init false n = (minus_one, n)
  socket_init true n = (
    pos 0,
    record n {
      socket_pool =
          map {A = Socket o} (λ s. record s { state = closed; next = none }) n.socket_pool;
      socket_list = none;
    },
  )

  -- The first loop of `danp_socket`: the first slot, from `i` on, that is closed and unbound.
  unfoldable pub free_slot : ℕ → List (Socket o) → Option ℕ
  unfolding is_closed
  free_slot i [] = none
  free_slot i (s ∷ socks) =
      if is_closed s.state && s.local_port == 0 then some i else free_slot (i + 1) socks

  -- The second loop: the first slot whose `next` is `i` is led past it.
  unfoldable pub bypass : ℕ → Option ℕ → List (Socket o) → List (Socket o)
  unfolding points_to
  bypass i after [] = []
  bypass i after (s ∷ socks) =
      if points_to s.next i then record s { next = after } ∷ socks else s ∷ bypass i after socks

  unfoldable pub detach : ℕ → Node o → Node o
  unfolding points_to bypass
  detach i n =
      if points_to n.socket_list i
      then record n { socket_list = (socket_at n i).next }
      else record n { socket_pool = bypass i (socket_at n i).next n.socket_pool }

  -- The slot after memset, with the handles that were kept or made.
  unfoldable pub fresh_socket : SocketType → (local_node : ℕ) → Socket o → Socket o
  unfolding or_create
  fresh_socket type local_node old = record (blank_socket o) {
    type = type;
    state = open_state;
    local_node = local_node;
    rx_queue = or_create old.rx_queue (o.mq_create 10);
    accept_queue = or_create old.accept_queue (o.mq_create 5);
    signal = or_create old.signal o.sem_create;
  }

  -- The receive queue is emptied, and its packets go back to the pool.
  unfoldable pub drain_packets : ℕ → o.Mq (Option ℕ) → Node o → o.Mq (Option ℕ) × Node o
  drain_packets zero q n = (q, n)
  drain_packets (suc k) q n = elim (o.mq_receive q) [
    | none ↦ (q, n)
    | some (p, q') ↦ drain_packets k q' (free p n)
  ]

  -- What follows once the handles are there: both queues are emptied and the slot is the head of
  -- the list. Without them the slot is closed again.
  unfoldable pub finish : ℕ → Socket o → Node o → Option ℕ × Node o
  unfolding drain_packets drain_sockets
  finish i s n = elim s.rx_queue [
    | none ↦ (none, put_socket n i (record s { state = closed }))
    | some rx ↦ elim s.accept_queue [
      | none ↦ (none, put_socket n i (record s { state = closed }))
      | some acc ↦ elim s.signal [
        | none ↦ (none, put_socket n i (record s { state = closed }))
        | some sig ↦
            let (rx', n') = drain_packets (length (o.contents rx)) rx n in
            let acc' = drain_sockets o (length (o.contents acc)) acc in
            let ready = record s {
              rx_queue = some rx';
              accept_queue = some acc';
              next = n'.socket_list;
            } in
            (some i, record (put_socket n' i ready) { socket_list = some i })
      ]
    ]
  ]

  unfoldable pub create : SocketType → Node o → Option ℕ × Node o
  unfolding free_slot detach fresh_socket finish
  create type n =
      if o.mutex_lock socket_mutex
      then elim (free_slot 0 n.socket_pool) [
        | none ↦ (none, n)
        | some i ↦
            let detached = detach i n in
            finish i (fresh_socket type n.config_local_node (socket_at detached i)) detached
      ]
      else (none, n)
