-- ===== src/Socket/Stats.antt =====
-- danp_print_stats: the calls of the print function that it is given, each with its arguments. The
-- print function is the caller's; a call is noted by its format and the values for it.
pub mod Listing
use danp.Prelude.{ℕ, zero, suc, Bool, true, false, List, [], ◌∷◌, ◌++◌, Option, none, some, get_or}
use danp.Types.{SocketType, SocketState}
use danp.Osal.{Osal, buffer_mutex}
use danp.Buffer.{get_free_count}
use danp.Node.{Socket, Node, blank_socket, max_socket_count}

pub data Line : Type 0 where
  socket_stats active_sockets empty_line buffer_stats : Line
  max_sockets next_port free_buffers : ℕ → Line
  socket_line : (local_port : ℕ) → SocketState → SocketType → (remote_node remote_port : ℕ) → Line

module _ {o : Osal} where
  unfoldable pub line_of : Socket o → Line
  line_of s = socket_line s.local_port s.state s.type s.remote_node s.remote_port

  -- The loop. It has no guard, unlike the other walks: `none` is a list that has not come to its
  -- end when the fuel is used up.
  unfoldable pub print_sockets : ℕ → List (Socket o) → Option ℕ → Option (List Line)
  unfolding line_of
  print_sockets zero socks none = some []
  print_sockets zero socks (some i) = none
  print_sockets (suc fuel) socks none = some []
  print_sockets (suc fuel) socks (some i) =
      let s = get_or socks i (blank_socket o) in
      elim (print_sockets fuel socks s.next) [ none ↦ none | some lines ↦ some (line_of s ∷ lines) ]

  -- `given` says whether there is a print function.
  unfoldable pub print_stats : (given : Bool) → (fuel : ℕ) → Node o → Option (List Line)
  unfolding print_sockets
  print_stats false fuel n = some []
  print_stats true fuel n = elim (print_sockets fuel n.socket_pool n.socket_list) [
    | none ↦ none
    | some lines ↦ some (
        socket_stats
          ∷ max_sockets max_socket_count
          ∷ next_port n.next_ephemeral_port
          ∷ active_sockets
          ∷ lines
        ++ empty_line
          ∷ buffer_stats
          ∷ free_buffers (get_free_count (o.mutex_lock buffer_mutex) n.pool)
          ∷ [])
  ]
