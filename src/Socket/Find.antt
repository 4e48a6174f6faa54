-- ===== src/Socket/Find.antt =====
-- The walks over the list of active sockets: danp_port_in_use and danp_find_socket.
pub mod Walk
use danp.Prelude.{
  ℕ, zero, suc, Bool, true, false, not, ◌&&◌, ◌||◌, List, Option, none, some, ◌==◌, if◌then◌else◌,
  get_or,
}
use danp.Types.{
  SocketType, dgram, stream, SocketState, closed, open_state, listening, syn_sent, syn_received,
  established,
}
use danp.Osal.{Osal}
use danp.Node.{Socket, Node, blank_socket, max_socket_count}

unfoldable pub is_closed : SocketState → Bool
is_closed closed = true
is_closed s = false

unfoldable pub is_open : SocketState → Bool
is_open open_state = true
is_open s = false

unfoldable pub is_listening : SocketState → Bool
is_listening listening = true
is_listening s = false

-- ESTABLISHED, SYN_SENT or SYN_RECEIVED.
unfoldable pub is_active : SocketState → Bool
is_active established = true
is_active syn_sent = true
is_active syn_received = true
is_active s = false

unfoldable pub is_dgram : SocketType → Bool
is_dgram dgram = true
is_dgram stream = false

-- The comparison of a `next` pointer with a socket.
unfoldable pub points_to : Option ℕ → ℕ → Bool
points_to none i = false
points_to (some j) i = j == i

module _ {o : Osal} where
  -- The test of the loop in `danp_port_in_use`.
  unfoldable pub holds_port : ℕ → Socket o → Bool
  unfolding is_closed
  holds_port port s = not (is_closed s.state) && s.local_port == port

  -- The loop, with the rounds that its guard leaves.
  unfoldable pub port_in_use_from : ℕ → List (Socket o) → Option ℕ → ℕ → Bool
  port_in_use_from zero socks cur port = false
  port_in_use_from (suc k) socks none port = false
  port_in_use_from (suc k) socks (some i) port =
      let s = get_or socks i (blank_socket o) in
      let rest = port_in_use_from k socks s.next port in if holds_port port s then true else rest

  unfoldable pub port_in_use : Node o → ℕ → Bool
  port_in_use n port = port_in_use_from max_socket_count n.socket_pool n.socket_list port

  -- The two tests of the loop in `danp_find_socket`, on a socket with the right port.
  unfoldable pub is_exact : (remote_node remote_port : ℕ) → Socket o → Bool
  unfolding is_active
  is_exact remote_node remote_port s =
      s.remote_node == remote_node && (s.remote_port == remote_port && is_active s.state)

  unfoldable pub is_wildcard : Socket o → Bool
  unfolding is_listening is_open is_dgram
  is_wildcard s = is_listening s.state || (is_dgram s.type && is_open s.state)

  unfoldable pub accepts : (local_port remote_node remote_port : ℕ) → Socket o → Bool
  unfolding is_exact is_wildcard
  accepts local_port remote_node remote_port s =
      s.local_port == local_port && (is_exact remote_node remote_port s || is_wildcard s)

  unfoldable pub find_socket_from :
      ℕ → List (Socket o) → Option ℕ → (local_port remote_node remote_port : ℕ) → Option ℕ
  find_socket_from zero socks cur local_port remote_node remote_port = none
  find_socket_from (suc k) socks none local_port remote_node remote_port = none
  find_socket_from (suc k) socks (some i) local_port remote_node remote_port =
      let s = get_or socks i (blank_socket o) in
      let rest = find_socket_from k socks s.next local_port remote_node remote_port in
      if accepts local_port remote_node remote_port s then some i else rest

  unfoldable pub find_socket : Node o → (local_port remote_node remote_port : ℕ) → Option ℕ
  find_socket n local_port remote_node remote_port =
      find_socket_from max_socket_count n.socket_pool n.socket_list local_port remote_node
        remote_port
