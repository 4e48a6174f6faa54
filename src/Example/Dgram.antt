-- ===== src/Example/Dgram.antt =====
-- example/dgram: `taskClient` of client.c and `taskEchoServer` of server.c. `none` is a fault: a null
-- socket that is used, an assertion that fails, or a fault in the library.
pub mod Echo
use danp.Prelude.{
  ◌>>=◌, Bool, ℕ, zero, suc, ◌+◌, List, [], ◌∷◌, ◌++◌, Option, none, some, ℤ, pos, negsuc,
}
use danp.Types.{Packet, dgram}
use danp.Osal.{Osal}
use danp.Node.{Node}
use danp.Socket.Create.{create}
use danp.Socket.Bind.{bind}
use danp.Socket.Connect.{connect}
use danp.Socket.Control.{close}
use danp.Socket.Transfer.{Delivery, send, send_to, recv, recv_from}
use danp.Example.{Waits, Heard, heard, assert_zero}
use danp.Example.Route.{decimal, node_server, node_client, dgram_port, Configured, set_up}

-- `sizeof(reply) - 1` and `sizeof(dgramBuf) - 1`.
abbrev pub reply_size : ℕ
reply_size = 63

-- "Ping %d"
unfoldable pub ping_text : ℕ → List ℕ
unfolding decimal
ping_text i = b'P' ∷ b'i' ∷ b'n' ∷ b'g' ∷ b' ' ∷ decimal i

module _ {o : Osal} where
  -- A round of the client's loop. The result of danp_send only changes what is printed.
  unfoldable pub ping_round : Waits o → (fuel sock i : ℕ) → Node o → Option (Heard × Node o)
  ping_round w fuel sock i n = do
    (sent, n1) ← send w.sending fuel sock (ping_text i) n
    let (len, bytes, n2) = recv w.receiving sock reply_size n1
    some (heard len bytes, w.pausing n2)

  unfoldable pub pings :
      (ℕ → Waits o) → (fuel sock rounds i : ℕ) → Node o → Option (List Heard × Node o)
  pings w fuel sock zero i n = some ([], n)
  pings w fuel sock (suc rounds) i n = do
    (h, n1) ← ping_round (w i) fuel sock i n
    (hs, n2) ← pings w fuel sock rounds (i + 1) n1
    some (h ∷ hs, n2)

  -- `taskClient`, behind its first delay. A datagram socket does not wait to connect.
  unfoldable pub client_task : (ℕ → Waits o) → (fuel : ℕ) → Node o → Option (List Heard × Node o)
  client_task w fuel n = do
    sock ← (create dgram n).0
    let (ret, n1) = connect (λ m. m) sock node_server dgram_port (create dgram n).1
    _ ← assert_zero ret
    (hs, n2) ← pings w fuel sock 5 0 n1
    some (hs, (close sock n2).1)

  -- What the server does after danp_recv_from. A result over 0 comes with a delivery.
  unfoldable pub answer : Waits o → (sock : ℕ) → ℤ → Option Delivery → Node o → Node o
  answer w sock (pos (suc k)) (some d) n = (send_to sock d.bytes d.src_node d.src_port n).1
  answer w sock (pos (suc k)) none n = n
  answer w sock (pos zero) got n = w.pausing n
  answer w sock (negsuc e) got n = w.pausing n

  unfoldable pub echo_round : Waits o → (sock : ℕ) → Node o → Option (Node o)
  unfolding answer
  echo_round w sock n = do
    (len, got, n1) ← recv_from w.receiving sock reply_size n
    some (answer w sock len got n1)

  -- The first rounds of the server's loop, which has no end.
  unfoldable pub echo_rounds : (ℕ → Waits o) → (sock rounds k : ℕ) → Node o → Option (Node o)
  echo_rounds w sock zero k n = some n
  echo_rounds w sock (suc rounds) k n = do
    n1 ← echo_round (w k) sock n
    echo_rounds w sock rounds (k + 1) n1

  -- `taskEchoServer`, with its first rounds.
  unfoldable pub echo_task : (ℕ → Waits o) → (rounds : ℕ) → Node o → Option (Node o)
  echo_task w rounds n = do
    sock ← (create dgram n).0
    let (ret, n1) = bind sock dgram_port (create dgram n).1
    _ ← assert_zero ret
    echo_rounds w sock rounds 0 n1

  -- `main` of client.c and of server.c, up to the creation of the task.
  unfoldable pub client_main :
      (lock memory context socket_mutex_made buffer_mutex_made : Bool)
      → (i : ℕ) → (Packet → ℤ)
      → Node o
      → Option (Configured × Node o)
  client_main lock memory context s b i tx n =
      set_up lock memory context s b i node_client node_server tx n

  unfoldable pub server_main :
      (lock memory context socket_mutex_made buffer_mutex_made : Bool)
      → (i : ℕ) → (Packet → ℤ)
      → Node o
      → Option (Configured × Node o)
  server_main lock memory context s b i tx n =
      set_up lock memory context s b i node_server node_client tx n
