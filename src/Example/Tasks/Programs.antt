-- ===== src/Example/Tasks/Programs.antt =====
-- The example programs from their start on, and what the library keeps while they run.
use danp.Prelude.{ℕ, ◌<◌, ◌≡◌, List, some}
use danp.Osal.{Osal}
use danp.Node.{Node, max_socket_count}
use danp.Socket.Connect.{accept}
use danp.Run.{Run}
use danp.Example.{Waits, Heard}
use danp.Example.Dgram
use danp.Example.Dgram.{echo_task}
use danp.Example.Stream
use danp.Example.Stream.{listen_task, accept_round}
use danp.Example.Tasks.{AreRuns}

module _ {o : Osal} where
  -- The programs of the examples at some points: the echo server after some rounds,
  -- the two clients at their end, and the stream server as its loop begins or after some rounds of
  -- it.
  pub data Program (n : Node o) : Node o → Type 0 where
    echoes :
        (w : ℕ → Waits o) (rounds : ℕ) (m : Node o)
        → ((i : ℕ) → AreRuns (w i))
        → echo_task w rounds n ≡ some m
        → Program n m
    pinged :
        (w : ℕ → Waits o) (fuel : ℕ) (hs : List Heard) (m : Node o)
        → ((i : ℕ) → AreRuns (w i))
        → Dgram.client_task w fuel n ≡ some (hs, m)
        → Program n m
    greeted :
        (connecting : Node o → Node o) (w : ℕ → Waits o) (fuel : ℕ) (replies : List (List ℕ))
        → (m : Node o) → ((k : Node o) → Run k (connecting k))
        → ((i : ℕ) → AreRuns (w i))
        → Stream.client_task connecting w fuel n ≡ some (replies, m)
        → Program n m
    listens : (s : ℕ) (m : Node o) → listen_task n ≡ some (s, m) → Program n m
    serves :
        (accepting pausing : Node o → Node o) (w : ℕ → Waits o) (send_fuel fuel listener : ℕ)
        → (k m : Node o) → Program n k
        → ((j : Node o) → Run j (accepting j))
        → ((j : Node o) → Run j (pausing j))
        → ((i : ℕ) → AreRuns (w i))
        → ((c : ℕ) → (accept accepting listener k).0 ≡ some c → c < max_socket_count)
        → accept_round accepting pausing w send_fuel fuel listener k ≡ some m
        → Program n m
