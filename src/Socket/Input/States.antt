-- ===== src/Socket/Input/States.antt =====
-- The states of the sockets under danp_socket_input_handler, as a step relation.
use danp.Prelude.{
  ℕ, ◌+◌, ◌≡◌, refl, subst, ◌⊎◌, inl, inr, Bool, true, false, not, ◌&&◌, Option, none, some, length,
  get_or, ◌==◌, Bool-cases, Option-cases, if◌then◌else◌,
}
use danp.Types.{
  SocketState, closed, open_state, listening, syn_sent, syn_received, established, u8, has,
  flag_syn, flag_ack, flag_rst,
}
use danp.Osal.{Osal}
use danp.Buffer.Laws.{IsPool}
use danp.Node.{Socket, Node, socket_at, put_socket, packet_at, free}
use danp.Socket.Find.{is_dgram}
use danp.Socket.Control.{send_control}
use danp.Socket.Input
use danp.Socket.Kept.{
  state_of, Kept, Kept-refl, Kept-trans, free-Kept, send_control-Kept, put-Kept, state_of-put,
  drain_packets-Kept,
}

-- What a packet with these flags, which is for the socket `found`, may do to the state of socket
-- `j`.
pub data Transition (flags : ℕ) (found : Option ℕ) (j : ℕ)
    : SocketState → SocketState → Type 0 where
  stays : {s : SocketState} → Transition flags found j s s
  reset : {s : SocketState} → flags ≡ flag_rst → found ≡ some j → Transition flags found j s closed
  restarted :
      has flags flag_syn ≡ true → found ≡ some j → Transition flags found j established syn_received
  requested : has flags flag_syn ≡ true → Transition flags found j closed syn_received
  connected :
      has flags flag_ack ≡ true → found ≡ some j → Transition flags found j syn_sent established
  confirmed :
      has flags flag_syn ≡ false
      → found ≡ some j
      → Transition flags found j syn_received established

pub both : (a b : Bool) → (a && b) ≡ true → (a ≡ true) × (b ≡ true)
both true b h = (refl, h)
both false b h = absurd (cc)

module _ (flags : ℕ) (found : Option ℕ) (j : ℕ) where
  pub restarted_of :
      (s : SocketState)
      → Input.is_connected s ≡ true
      → has flags flag_syn ≡ true
      → found ≡ some j
      → Transition flags found j s syn_received
  unfolding Input.is_connected Input.is_established Input.is_syn_received
  restarted_of established c h f = restarted h f
  restarted_of syn_received c h f = stays
  restarted_of closed c h f = absurd (cc)
  restarted_of open_state c h f = absurd (cc)
  restarted_of listening c h f = absurd (cc)
  restarted_of syn_sent c h f = absurd (cc)

  pub connected_of :
      (s : SocketState)
      → Input.is_syn_sent s ≡ true
      → has flags flag_ack ≡ true
      → found ≡ some j
      → Transition flags found j s established
  unfolding Input.is_syn_sent
  connected_of syn_sent c h f = connected h f
  connected_of established c h f = absurd (cc)
  connected_of syn_received c h f = absurd (cc)
  connected_of closed c h f = absurd (cc)
  connected_of open_state c h f = absurd (cc)
  connected_of listening c h f = absurd (cc)

  pub confirmed_of :
      (s : SocketState)
      → Input.is_syn_received s ≡ true
      → (Input.is_connected s && has flags flag_syn) ≡ false
      → found ≡ some j
      → Transition flags found j s established
  unfolding Input.is_connected Input.is_established Input.is_syn_received
  confirmed_of syn_received c h f = confirmed h f
  confirmed_of syn_sent c h f = absurd (cc)
  confirmed_of established c h f = absurd (cc)
  confirmed_of closed c h f = absurd (cc)
  confirmed_of open_state c h f = absurd (cc)
  confirmed_of listening c h f = absurd (cc)

module _ {o : Osal} where
  abbrev pub Moves : (flags : ℕ) (found : Option ℕ) → Node o → Node o → Type 0
  Moves flags found n m = (j : ℕ) → Transition flags found j (state_of n j) (state_of m j)

  module _ {flags : ℕ} {found : Option ℕ} where
    pub Kept-Moves : {n m : Node o} → Kept n m → Moves flags found n m
    Kept-Moves k j = rw (k.still j) stays

    pub Moves-Kept : (n m k : Node o) → Moves flags found n m → Kept m k → Moves flags found n k
    Moves-Kept n m k a b j = rw (b.still j) (a j)

    pub put-Moves :
        (i : ℕ) (s : Socket o) (n m : Node o)
        → Kept n m
        → Transition flags found i (state_of n i) s.state
        → Moves flags found n (put_socket m i s)
    put-Moves i s n m k t j = elim (state_of-put m i j s) [
      | inl (h, _, f) ↦ rw f (subst (λ j. Transition flags found j (state_of n j) s.state) h t)
      | inr f ↦ rw (f, k.still j) stays
    ]

  pub enqueue_received-Kept :
      (i : ℕ) (p : Option ℕ) (n : Node o) → IsPool n.pool → Kept n (Input.enqueue_received i p n)
  unfolding Input.enqueue_received
  enqueue_received-Kept i p n v = elim (Option-cases (socket_at n i).rx_queue) [
    | inl e ↦ rw (Input.enqueue_received, e) (Kept-refl n v)
    | inr (q, e) ↦ elim (Option-cases (o.mq_send q p)) [
      | inl f ↦ rw (Input.enqueue_received, e, Input.enqueue_received, f) (Kept-refl n v)
      | inr (q', f) ↦
          rw (Input.enqueue_received, e, Input.enqueue_received, f) (put-Kept i _ n v refl)
    ]
  ]

  pub give_signal-Kept : (i : ℕ) (n : Node o) → IsPool n.pool → Kept n (Input.give_signal i n)
  unfolding Input.give_signal
  give_signal-Kept i n v = elim (Option-cases (socket_at n i).signal) [
    | inl e ↦ rw (Input.give_signal, e) (Kept-refl n v)
    | inr (q, e) ↦ rw (Input.give_signal, e) (put-Kept i _ n v refl)
  ]

  clear_queue-Kept :
      (i : ℕ) (q : Option (o.Mq (Option ℕ))) (n : Node o)
      → IsPool n.pool
      → Kept n (Input.clear_queue i q n)
  unfolding Input.clear_queue
  clear_queue-Kept i none n v = Kept-refl n v
  clear_queue-Kept i (some q) n v =
      let d = drain_packets-Kept (length (o.contents q)) q n v in
      Kept-trans d (put-Kept i _ _ d.pool refl)

  pub restart-Kept : (i : ℕ) (n : Node o) → IsPool n.pool → Kept n (Input.restart i n)
  unfolding Input.restart
  restart-Kept i n v = elim (Bool-cases (is_dgram (socket_at n i).type)) [
    | inl y ↦ rw (Input.restart, y) (Kept-refl n v)
    | inr f ↦
        let zeroed = record (socket_at n i) { tx_seq = 0; rx_expected_seq = 0 } in
        rw (Input.restart, f)
          (Kept-trans (put-Kept i zeroed n v refl)
            (clear_queue-Kept i (socket_at n i).rx_queue (put_socket n i zeroed) v))
  ]

  pub on_data_ack-Kept : (p i : ℕ) (n : Node o) → IsPool n.pool → Kept n (Input.on_data_ack p i n)
  unfolding Input.on_data_ack
  on_data_ack-Kept p i n v =
      elim (Bool-cases (
        not (is_dgram (socket_at n i).type)
        && get_or (packet_at n p).payload 0 0 == (socket_at n i).tx_seq)) [
          | inl y ↦
              let g = give_signal-Kept i n v in
              rw (Input.on_data_ack, y) (Kept-trans g (free-Kept (some p) _ g.pool))
          | inr e ↦ rw (Input.on_data_ack, e) (free-Kept (some p) n v)
        ]

  -- `on_segment` from the test of the sequence number on.
  abbrev pub settled : (p i seq : ℕ) → Node o → Node o
  settled p i seq n =
      let s = socket_at n i in
      let counted = put_socket n i (record s { rx_expected_seq = u8 (s.rx_expected_seq + 1) }) in
      if seq == s.rx_expected_seq
      then Input.enqueue_received i (some p) (send_control i flag_ack seq counted)
      else free (some p) (send_control i flag_ack seq n)

  pub settled-Kept : (p i seq : ℕ) (n : Node o) → IsPool n.pool → Kept n (settled p i seq n)
  settled-Kept p i seq n v =
      let s = socket_at n i in
      let counted = put_socket n i (record s { rx_expected_seq = u8 (s.rx_expected_seq + 1) }) in
      let c : Kept n counted = put-Kept i _ n v refl in
      let a = send_control-Kept i flag_ack seq counted v in
      let b = send_control-Kept i flag_ack seq n v in
      elim (Bool-cases (seq == s.rx_expected_seq)) [
        | inl y ↦ rw y (Kept-trans c (Kept-trans a (enqueue_received-Kept i (some p) _ a.pool)))
        | inr d ↦ rw d (Kept-trans b (free-Kept (some p) _ b.pool))
      ]

  pub enqueue_accepted-cases :
      (i child : ℕ) (n : Node o)
      → IsPool n.pool
      → (Input.enqueue_accepted i child n ≡ none)
        ⊎ ((m : Node o) × (Input.enqueue_accepted i child n ≡ some m) × Kept n m)
  unfolding Input.enqueue_accepted
  enqueue_accepted-cases i child n v = elim (Option-cases (socket_at n i).accept_queue) [
    | inl e ↦ rw (Input.enqueue_accepted, e) (inl refl)
    | inr (q, e) ↦ elim (Option-cases (o.mq_send q child)) [
      | inl f ↦ rw (Input.enqueue_accepted, e, Input.enqueue_accepted, f) (inl refl)
      | inr (q', f) ↦
          rw (Input.enqueue_accepted, e, Input.enqueue_accepted, f)
            (inr (_, refl, put-Kept i (record (socket_at n i) { accept_queue = some q' }) n v refl))
    ]
  ]
