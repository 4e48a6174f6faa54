-- ===== src/Example/Stream.antt =====
-- example/stream: `taskClient` of client.c and `taskStreamServer` of server.c. `none` is a fault: a
-- null socket that is used, or an assertion that fails; or a loop that has not ended when the fuel
-- is used up.
pub mod Session
use danp.Prelude.{
  ◌>>=◌, Bool, true, false, ℕ, zero, suc, ◌+◌, List, [], ◌∷◌, ◌++◌, Option, none, some, ℤ, pos,
  negsuc,
}
use danp.Types.{Packet, stream}
use danp.Osal.{Osal}
use danp.Node.{Node}
use danp.Socket.Create.{create}
use danp.Socket.Bind.{bind}
use danp.Socket.Connect.{connect, accept}
use danp.Socket.Control.{listen, close}
use danp.Socket.Transfer.{send, recv}
use danp.Example.{Waits, assert_zero}
use danp.Example.Route.{decimal, node_server, node_client, stream_port, Configured, set_up}

-- `sizeof(reply) - 1` and `sizeof(buf) - 1`.
abbrev pub buffer_size : ℕ
buffer_size = 63

-- "Hello %d"
unfoldable pub hello_text : ℕ → List ℕ
unfolding decimal
hello_text i = b'H' ∷ b'e' ∷ b'l' ∷ b'l' ∷ b'o' ∷ b' ' ∷ decimal i

-- "ACK from Server"
abbrev pub ack_text : List ℕ
ack_text =
    b'A' ∷ b'C' ∷ b'K' ∷ b' ' ∷ b'f' ∷ b'r' ∷ b'o' ∷ b'm' ∷ b' ' ∷ b'S' ∷ b'e' ∷ b'r' ∷ b'v' ∷ b'e'
    ∷ b'r' ∷ []

module _ {o : Osal} where
  -- What the client does after danp_send: the reply, unless a call failed.
  unfoldable pub hear : Waits o → (sock : ℕ) → ℤ → Node o → Option (List ℕ) × Node o
  hear w sock (negsuc e) n = (none, n)
  hear w sock (pos len) n =
      let (ret, bytes, n1) = recv w.receiving sock buffer_size n in
      elim ret [ negsuc e ↦ (none, n1) | pos k ↦ (some bytes, w.pausing n1) ]

  -- The client's loop, with the replies that it prints; it ends early where a call fails.
  unfoldable pub hellos :
      (ℕ → Waits o) → (fuel sock rounds i : ℕ) → Node o → Option (List (List ℕ) × Node o)
  hellos w fuel sock zero i n = some ([], n)
  hellos w fuel sock (suc rounds) i n = do
    (sent, n1) ← send (w i).sending fuel sock (hello_text i) n
    let (got, n2) = hear (w i) sock sent n1
    elim got [
      | none ↦ some ([], n2)
      | some bytes ↦ hellos w fuel sock rounds (i + 1) n2 >>= λ rest. some (bytes ∷ rest.0, rest.1)
    ]

  -- `taskClient`, behind its first delay; `connecting` is what the others do while it connects.
  unfoldable pub client_task :
      (connecting : Node o → Node o)
      → (ℕ → Waits o)
      → (fuel : ℕ) → Node o
      → Option (List (List ℕ) × Node o)
  client_task connecting w fuel n = do
    sock ← (create stream n).0
    let (ret, n1) = connect connecting sock node_server stream_port (create stream n).1
    _ ← assert_zero ret
    (replies, n2) ← hellos w fuel sock 5 0 n1
    some (replies, (close sock n2).1)

  -- What the server does after danp_recv: whether the inner loop goes on.
  unfoldable pub acknowledge :
      Waits o → (send_fuel client : ℕ) → ℤ → Node o → Option (Bool × Node o)
  acknowledge w send_fuel client (negsuc e) n = some (false, n)
  acknowledge w send_fuel client (pos zero) n = some (true, w.pausing n)
  acknowledge w send_fuel client (pos (suc l)) n = do
    (sent, n1) ← send w.sending send_fuel client ack_text n
    elim sent [ negsuc e ↦ some (false, n1) | pos s ↦ some (true, n1) ]

  -- The inner loop of the server, from its k-th round on, with fuel for each danp_send.
  unfoldable pub serve : (ℕ → Waits o) → (send_fuel client fuel k : ℕ) → Node o → Option (Node o)
  serve w send_fuel client zero k n = none
  serve w send_fuel client (suc fuel) k n = do
    let (len, bytes, n1) = recv (w k).receiving client buffer_size n
    (again, n2) ← acknowledge (w k) send_fuel client len n1
    elim again [ false ↦ some n2 | true ↦ serve w send_fuel client fuel (k + 1) n2 ]

  -- A round of the outer loop: `accepting` and `pausing` are its own waits, `w` those of the
  -- session.
  unfoldable pub accept_round :
      (accepting pausing : Node o → Node o)
      → (ℕ → Waits o)
      → (send_fuel fuel listener : ℕ) → Node o
      → Option (Node o)
  accept_round accepting pausing w send_fuel fuel listener n =
      let (client, n1) = accept accepting listener n in
      elim client [
        | none ↦ some (pausing n1)
        | some c ↦ serve w send_fuel c fuel 0 n1 >>= λ n2. some (pausing (close c n2).1)
      ]

  -- `taskStreamServer`, up to its loop: the listening socket.
  unfoldable pub listen_task : Node o → Option (ℕ × Node o)
  listen_task n = do
    sock ← (create stream n).0
    let (ret, n1) = bind sock stream_port (create stream n).1
    _ ← assert_zero ret
    some (sock, (listen sock (pos 5) n1).1)

  -- `main` of client.c and of server.c, up to the creation of the task.
  unfoldable pub client_main :
      (lock memory context socket_mutex_made buffer_mutex_made : Bool)
      → (i : ℕ) → (Packet → ℤ)
      → Node o
      → Option (Configured × Node o)
  client_main lock memory context s b i tx n =
      set_up lock memory context s b i node_client node_server tx n

  unfoldable pub server_main :
      (lock memory context socket_mutex_made buffer_mutex_made : Bool)
      → (i : ℕ) → (Packet → ℤ)
      → Node o
      → Option (Configured × Node o)
  server_main lock memory context s b i tx n =
      set_up lock memory context s b i node_server node_client tx n
