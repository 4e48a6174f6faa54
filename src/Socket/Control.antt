-- ===== src/Socket/Control.antt =====
-- danp_send_control, danp_listen and danp_close.
pub mod Laws
mod Unlink
pub mod Close
pub mod Released
use danp.Prelude.{
  ℕ, zero, suc, Bool, true, false, ◌&&◌, ◌||◌, List, [], ◌∷◌, Option, none, some, ℤ, pos, minus_one,
  ◌==◌, if◌then◌else◌, get_or, not, ◌+◌,
}
use danp.Types.{SocketType, dgram, stream, closed, listening, has, flag_ack, flag_rst}
use danp.Osal.{Osal, socket_mutex}
use danp.Node.{
  Socket, Node, socket_at, put_socket, blank_socket, socket_header, allocate, send_packet,
  max_socket_count,
}
use danp.Socket.Find.{points_to, is_dgram, is_active}

module _ {o : Osal} where
  -- The payload of a control packet: the sequence number, on an ACK of a stream.
  unfoldable pub control_payload : Socket o → (flags seq_num : ℕ) → List ℕ
  unfolding is_dgram
  control_payload s flags seq_num =
      if has flags flag_ack && not (is_dgram s.type) then seq_num ∷ [] else []

  unfoldable pub send_control : ℕ → (flags seq_num : ℕ) → Node o → Node o
  unfolding control_payload
  send_control i flags seq_num n =
      let (slot, n') = allocate n in
      let s = socket_at n i in
      elim slot [
        | none ↦ n'
        | some p ↦ send_packet p (socket_header s flags) (control_payload s flags seq_num) n'
      ]

  -- `danp_listen`; the backlog is not used.
  unfoldable pub listen : ℕ → (backlog : ℤ) → Node o → ℤ × Node o
  listen i backlog n = (pos 0, put_socket n i (record (socket_at n i) { state = listening }))

  -- The loop of `danp_close`: the socket of the list that stands before `i`. The list has at most
  -- `max_socket_count` members, so the fuel covers it.
  unfoldable pub find_previous : ℕ → List (Socket o) → Option ℕ → ℕ → Option ℕ
  unfolding points_to
  find_previous zero socks cur i = none
  find_previous (suc k) socks none i = none
  find_previous (suc k) socks (some j) i =
      let s = get_or socks j (blank_socket o) in
      let rest = find_previous k socks s.next i in if points_to s.next i then some j else rest

  unfoldable pub unlink : ℕ → Node o → Node o
  unfolding points_to find_previous
  unlink i n =
      if points_to n.socket_list i
      then record n { socket_list = (socket_at n i).next }
      else elim (find_previous (max_socket_count + 1) n.socket_pool n.socket_list i) [
        | none ↦ n
        | some j ↦ put_socket n j (record (socket_at n j) { next = (socket_at n i).next })
      ]

  -- The RST of `danp_close`.
  unfoldable pub announce_close : ℕ → Node o → Node o
  unfolding is_dgram is_active send_control
  announce_close i n =
      if not (is_dgram (socket_at n i).type) && is_active (socket_at n i).state
      then send_control i flag_rst 0 n
      else n

  -- The slot is left closed, unbound and off the list.
  unfoldable pub release_slot : ℕ → Node o → Node o
  release_slot i n =
      put_socket n i (record (socket_at n i) { next = none; state = closed; local_port = 0 })

  unfoldable pub close : ℕ → Node o → ℤ × Node o
  unfolding announce_close unlink release_slot
  close i n =
      if o.mutex_lock socket_mutex
      then (pos 0, release_slot i (unlink i (announce_close i n)))
      else (minus_one, n)
