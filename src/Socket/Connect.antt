-- ===== src/Socket/Connect.antt =====
-- danp_connect and danp_accept. `await` is what the other threads do to the node while the caller
-- waits; the semaphore or queue is looked at after that.
use danp.Prelude.{ℕ, Option, none, some, ℤ, pos, minus_one, ◌==◌, if◌then◌else◌}
use danp.Types.{dgram, stream, open_state, syn_sent, established, flag_syn}
use danp.Osal.{Osal}
use danp.Node.{Node, socket_at, put_socket}
use danp.Socket.Bind.{bind}
use danp.Socket.Control.{send_control}

module _ {o : Osal} where
  -- osalSemaphoreTake on the signal of a socket: the node without the token, if there was one.
  unfoldable pub take_signal : ℕ → Node o → Option (Node o)
  take_signal i n = elim (socket_at n i).signal [
    | none ↦ none
    | some sem ↦ elim (o.sem_take sem) [
      | none ↦ none
      | some sem' ↦ some (put_socket n i (record (socket_at n i) { signal = some sem' }))
    ]
  ]

  unfoldable pub bind_unbound : ℕ → Node o → Node o
  bind_unbound i n = if (socket_at n i).local_port == 0 then (bind i 0 n).1 else n

  unfoldable pub set_peer : ℕ → (node port : ℕ) → Node o → Node o
  set_peer i node port n =
      put_socket n i (record (socket_at n i) { remote_node = node; remote_port = port })

  -- From SYN_SENT on.
  unfoldable pub handshake : (Node o → Node o) → ℕ → Node o → ℤ × Node o
  unfolding take_signal
  handshake await i n =
      let asked = put_socket n i (record (socket_at n i) { state = syn_sent }) in
      let waited = await (send_control i flag_syn 0 asked) in
      elim (take_signal i waited) [
        | some n' ↦ (pos 0, n')
        | none ↦
            (minus_one, put_socket waited i (record (socket_at waited i) { state = open_state }))
      ]

  unfoldable pub connect : (Node o → Node o) → ℕ → (node port : ℕ) → Node o → ℤ × Node o
  unfolding bind_unbound set_peer handshake
  connect await i node port n =
      let ready = set_peer i node port (bind_unbound i n) in
      elim (socket_at ready i).type [
        | dgram ↦ (pos 0, put_socket ready i (record (socket_at ready i) { state = established }))
        | stream ↦ handshake await i ready
      ]

  -- `danp_accept`: the socket of the oldest pending connection, NULL on a timeout.
  unfoldable pub accept : (Node o → Node o) → ℕ → Node o → Option ℕ × Node o
  accept await i n =
      let waited = await n in
      elim (socket_at waited i).accept_queue [
        | none ↦ (none, waited)
        | some q ↦ elim (o.mq_receive q) [
          | none ↦ (none, waited)
          | some (c, q') ↦
              (some c, put_socket waited i (record (socket_at waited i) { accept_queue = some q' }))
        ]
      ]
