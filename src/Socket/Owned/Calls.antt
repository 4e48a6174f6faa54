-- ===== src/Socket/Owned/Calls.antt =====
-- The functions of the library that threads call, and the owners of packets. Between calls, and
-- while one waits, no caller holds a packet.
use danp.Prelude.{ℕ, ◌≡◌, refl, inl, inr, some, ℤ, leb, ◌==◌, Bool-cases, Option-cases}
use danp.Types.{type_cases, max_ports, syn_sent, flag_syn, flag_rst}
use danp.Osal.{Osal, IsOsal, socket_mutex}
use danp.Node.{Socket, Node, socket_at, put_socket}
use danp.Socket.Find.{points_to, port_in_use}
use danp.Socket.Bind.{search_port, take_port, take_ephemeral, bind}
use danp.Socket.Control.{
  send_control, find_previous, listen, unlink, announce_close, release_slot, close,
}
use danp.Socket.Connect.{take_signal, bind_unbound, set_peer, handshake, connect, accept}
use danp.Socket.Sound.{if_holds}
use danp.Socket.Owned.{put_same-Owned, send_control-Owned}
use danp.Socket.Owned.Handler.{Settled}

module _ {o : Osal} (os : IsOsal o) where
  -- What the other threads do while a caller waits.
  abbrev pub KeepsSettled : (Node o → Node o) → Type 0
  KeepsSettled await = (n : Node o) → Settled os n → Settled os (await n)

  pub put-Settled :
      (i : ℕ) (s : Socket o) (n : Node o)
      → s.rx_queue ≡ (socket_at n i).rx_queue
      → Settled os n
      → Settled os (put_socket n i s)
  put-Settled i s n e v = put_same-Owned (λ p. 0) i s n e v

  take_port-Settled : (i port : ℕ) (n : Node o) → Settled os n → Settled os (take_port i port n).1
  unfolding take_port
  take_port-Settled i port n v = elim (Bool-cases (leb max_ports port)) [
    | inl y ↦ rw y v
    | inr f ↦ elim (Bool-cases (port_in_use n port)) [
      | inl y ↦ rw (f, y) v
      | inr g ↦ rw (f, g) (put-Settled i _ n refl v)
    ]
  ]

  take_ephemeral-Settled : (i : ℕ) (n : Node o) → Settled os n → Settled os (take_ephemeral i n).1
  unfolding take_ephemeral
  take_ephemeral-Settled i n v =
      let next = n.next_ephemeral_port in
      let r = search_port max_ports next next n in
      let w : Settled os (record n { next_ephemeral_port = r.1 }) = record { once = v.once } in
      elim (Option-cases r.0) [
        | inl e ↦ rw (e, take_ephemeral) w
        | inr (port, e) ↦ rw (e, take_ephemeral) (take_port-Settled i port _ w)
      ]

  pub bind-Settled : (i port : ℕ) (n : Node o) → Settled os n → Settled os (bind i port n).1
  unfolding bind
  bind-Settled i port n v = elim (Bool-cases (o.mutex_lock socket_mutex)) [
    | inr l ↦ rw l v
    | inl l ↦ elim (Bool-cases (port == 0)) [
      | inl z ↦ rw (l, z) (take_ephemeral-Settled i n v)
      | inr z ↦ rw (l, z) (take_port-Settled i port n v)
    ]
  ]

  pub listen-Settled :
      (i : ℕ) (backlog : ℤ) (n : Node o) → Settled os n → Settled os (listen i backlog n).1
  unfolding listen
  listen-Settled i backlog n v = put-Settled i _ n refl v

  unlink-Settled : (i : ℕ) (n : Node o) → Settled os n → Settled os (unlink i n)
  unfolding unlink
  unlink-Settled i n v = elim (Bool-cases (points_to n.socket_list i)) [
    | inl y ↦ rw y (record { once = v.once })
    | inr f ↦ elim (Option-cases (find_previous 21 n.socket_pool n.socket_list i)) [
      | inl g ↦ rw (f, g) v
      | inr (p, g) ↦ rw (f, g) (put-Settled p _ n refl v)
    ]
  ]

  pub close-Settled : (i : ℕ) (n : Node o) → Settled os n → Settled os (close i n).1
  unfolding close announce_close release_slot
  close-Settled i n v = elim (Bool-cases (o.mutex_lock socket_mutex)) [
    | inr l ↦ rw l v
    | inl l ↦ rw l (
        put-Settled i _ _ refl (
          unlink-Settled i _
            (if_holds (Settled os) _ (send_control-Owned (λ p. 0) i flag_rst 0 n v) v)))
  ]

  pub take_signal-Settled :
      (i : ℕ) (n m : Node o) → take_signal i n ≡ some m → Settled os n → Settled os m
  unfolding take_signal
  take_signal-Settled i n m e v = elim (Option-cases (socket_at n i).signal) [
    | inl f ↦ absurd (cc (rw (take_signal, f) at e))
    | inr (sem, f) ↦ elim (Option-cases (o.sem_take sem)) [
      | inl g ↦ absurd (cc (rw (take_signal, f, take_signal, g) at e))
      | inr (sem', g) ↦
          let s : Socket o = record (socket_at n i) { signal = some sem' } in
          let same : m ≡ put_socket n i s = cc (rw (take_signal, f, take_signal, g) at e) in
          rw same (put-Settled i s n refl v)
    ]
  ]

  handshake-Settled :
      (await : Node o → Node o) (i : ℕ) (n : Node o)
      → KeepsSettled await
      → Settled os n
      → Settled os (handshake await i n).1
  unfolding handshake
  handshake-Settled await i n keep v =
      let asked : Node o = put_socket n i (record (socket_at n i) { state = syn_sent }) in
      let w = keep _ (send_control-Owned (λ p. 0) i flag_syn 0 asked (put-Settled i _ n refl v)) in
      elim (Option-cases (take_signal i (await (send_control i flag_syn 0 asked)))) [
        | inl e ↦ rw (e, handshake) (put-Settled i _ _ refl w)
        | inr (m, e) ↦ rw (e, handshake) (take_signal-Settled i _ m e w)
      ]

  pub connect-Settled :
      (await : Node o → Node o) (i node port : ℕ) (n : Node o)
      → KeepsSettled await
      → Settled os n
      → Settled os (connect await i node port n).1
  unfolding connect bind_unbound set_peer
  connect-Settled await i node port n keep v =
      let ready : Node o = set_peer i node port (bind_unbound i n) in
      let w : Settled os ready =
        put-Settled i _ _ refl (if_holds (Settled os) _ (bind-Settled i 0 n v) v) in
      elim (type_cases (socket_at ready i).type) [
        | inl e ↦ rw (e, connect) (put-Settled i _ ready refl w)
        | inr e ↦ rw (e, connect) (handshake-Settled await i ready keep w)
      ]

  pub accept-Settled :
      (await : Node o → Node o) (i : ℕ) (n : Node o)
      → KeepsSettled await
      → Settled os n
      → Settled os (accept await i n).1
  unfolding accept
  accept-Settled await i n keep v =
      let w = keep n v in
      elim (Option-cases (socket_at (await n) i).accept_queue) [
        | inl e ↦ rw (accept, e) w
        | inr (q, e) ↦ elim (Option-cases (o.mq_receive q)) [
          | inl f ↦ rw (accept, e, accept, f) w
          | inr ((c, q'), f) ↦ rw (accept, e, accept, f) (put-Settled i _ (await n) refl w)
        ]
      ]
