-- ===== src/Example/Tasks.antt =====
-- The tasks of the example programs are runs of the library.
pub mod Stream
pub mod Programs
use danp.Prelude.{
  ℕ, zero, suc, ◌+◌, ◌≤◌, ◌<◌, ◌≡◌, refl, ap, ◌∙◌, sym, subst, List, [], ◌∷◌, Option, none, some,
  Bool, ℤ, pos, negsuc, arith, inl, inr, Option-cases,
}
use danp.Types.{Packet, dgram}
use danp.Osal.{Osal, IsOsal}
use danp.Node.{Node, max_socket_count}
use danp.Socket.Transfer.{Delivery, send, send_to, recv, recv_from}
use danp.Run.{
  Run, followed, nothing, creates, binds, connects, sends, sends_to, receives, receives_from,
  closes, start, static_data,
}
use danp.Socket.Create.{create}
use danp.Socket.Bind.{bind}
use danp.Example.{Waits, Heard, assert_zero, >>=-some}
use danp.Example.Route.{dgram_port}
use danp.Example.Dgram.{
  echo_round, echo_rounds, echo_task, answer, ping_text, ping_round, pings, reply_size,
}

module _ {o : Osal} where
  -- What runs during the waits of a round is the library too.
  pub record AreRuns (w : Waits o) : Type 0 where
    pub sending : (k : ℕ) (m : Node o) → Run m (w.sending k m)
    pub receiving : (m : Node o) → Run m (w.receiving m)
    pub pausing : (m : Node o) → Run m (w.pausing m)

  answer-Run :
      (w : Waits o) (sock : ℕ) (len : ℤ) (got : Option Delivery) (n : Node o)
      → AreRuns w
      → Run n (answer w sock len got n)
  unfolding answer
  answer-Run w sock (pos (suc k)) (some d) n v = sends_to sock d.bytes d.src_node d.src_port n
  answer-Run w sock (pos (suc k)) none n v = nothing n
  answer-Run w sock (pos zero) got n v = v.pausing n
  answer-Run w sock (negsuc e) got n v = v.pausing n

  echo_round-Run :
      (w : Waits o) (sock : ℕ) (n m : Node o) → AreRuns w → echo_round w sock n ≡ some m → Run n m
  unfolding echo_round
  echo_round-Run w sock n m v e =
      let ((len, got, n1), f, g) = >>=-some (recv_from w.receiving sock reply_size n) _ e in
      let same : answer w sock len got n1 ≡ m = cc g in
      followed n n1 m (receives_from w.receiving sock reply_size n n1 len got v.receiving f)
        (subst (Run n1) same (answer-Run w sock len got n1 v))

  echo_rounds-Run :
      (w : ℕ → Waits o) (sock rounds k : ℕ) (n m : Node o)
      → ((i : ℕ) → AreRuns (w i))
      → echo_rounds w sock rounds k n ≡ some m
      → Run n m
  unfolding echo_rounds
  echo_rounds-Run w sock zero k n m v e = let same : n ≡ m = cc in subst (Run n) same (nothing n)
  echo_rounds-Run w sock (suc rounds) k n m v e =
      let (n1, f, g) = >>=-some (echo_round (w k) sock n) _ e in
      followed n n1 m (echo_round-Run (w k) sock n n1 (v k) f)
        (echo_rounds-Run w sock rounds (k + 1) n1 m v g)

  -- The echo server.
  pub echo_task-Run :
      (w : ℕ → Waits o) (rounds : ℕ) (n m : Node o)
      → ((i : ℕ) → AreRuns (w i))
      → echo_task w rounds n ≡ some m
      → Run n m
  unfolding echo_task
  echo_task-Run w rounds n m v e =
      let n1 = (create dgram n).1 in
      let (sock, _, f) = >>=-some (create dgram n).0 _ e in
      let n2 = (bind sock dgram_port n1).1 in
      let (_, _, g) = >>=-some (assert_zero (bind sock dgram_port n1).0) _ f in
      followed n n1 m (creates dgram n)
        (followed n1 n2 m (binds sock dgram_port n1) (echo_rounds-Run w sock rounds 0 n2 m v g))

  ping_round-Run :
      (w : Waits o) (fuel sock i : ℕ) (n m : Node o) (h : Heard)
      → AreRuns w
      → ping_round w fuel sock i n ≡ some (h, m)
      → Run n m
  unfolding ping_round
  ping_round-Run w fuel sock i n m h v e =
      let ((sent, n1), f, g) = >>=-some (send w.sending fuel sock (ping_text i) n) _ e in
      let n2 = (recv w.receiving sock reply_size n1).2 in
      let same : w.pausing n2 ≡ m = cc g in
      followed n n1 m (sends w.sending fuel sock (ping_text i) n n1 sent v.sending f) (
        followed n1 n2 m (receives w.receiving sock reply_size n1 v.receiving)
          (subst (Run n2) same (v.pausing n2)))

  pub pings-Run :
      (w : ℕ → Waits o) (fuel sock rounds i : ℕ) (n m : Node o) (hs : List Heard)
      → ((k : ℕ) → AreRuns (w k))
      → pings w fuel sock rounds i n ≡ some (hs, m)
      → Run n m
  unfolding pings
  pings-Run w fuel sock zero i n m hs v e = let same : n ≡ m = cc in subst (Run n) same (nothing n)
  pings-Run w fuel sock (suc rounds) i n m hs v e =
      let ((h, n1), f, g) = >>=-some (ping_round (w i) fuel sock i n) _ e in
      let ((rest, n2), k, l) = >>=-some (pings w fuel sock rounds (i + 1) n1) _ g in
      let same : n2 ≡ m = cc l in
      followed n n1 m (ping_round-Run (w i) fuel sock i n n1 h (v i) f)
        (subst (Run n1) same (pings-Run w fuel sock rounds (i + 1) n1 n2 rest v k))
