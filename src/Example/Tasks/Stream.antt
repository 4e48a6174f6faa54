-- ===== src/Example/Tasks/Stream.antt =====
-- The tasks of example/stream are runs of the library.
use danp.Prelude.{
  ℕ, zero, suc, ◌+◌, ◌<◌, ◌≡◌, subst, Bool, true, false, List, Option, none, some, ℤ, pos, negsuc,
  Option-cases, Bool-cases, inl, inr,
}
use danp.Types.{stream}
use danp.Osal.{Osal}
use danp.Node.{Node, max_socket_count}
use danp.Socket.Create.{create}
use danp.Socket.Bind.{bind}
use danp.Socket.Connect.{accept}
use danp.Socket.Control.{listen, close}
use danp.Socket.Transfer.{send, recv}
use danp.Run.{Run, followed, nothing, creates, binds, listens, accepts, sends, receives, closes}
use danp.Example.{Waits, assert_zero, >>=-some}
use danp.Example.Route.{stream_port}
use danp.Example.Stream.{
  hear, hellos, acknowledge, serve, listen_task, buffer_size, hello_text, ack_text, accept_round,
}
use danp.Example.Tasks.{AreRuns}

module _ {o : Osal} where
  hear-Run :
      (w : Waits o) (sock : ℕ) (sent : ℤ) (n : Node o) → AreRuns w → Run n (hear w sock sent n).1
  unfolding hear
  hear-Run w sock (negsuc e) n v = nothing n
  hear-Run w sock (pos len) n v =
      let n1 = (recv w.receiving sock buffer_size n).2 in
      let got = receives w.receiving sock buffer_size n v.receiving in
      elim (recv w.receiving sock buffer_size n).0
        as (λ ret.
          Run n
            (elim ret as (λ r. Option (List ℕ) × Node o) [
              | negsuc e ↦ (none, n1)
              | pos k ↦ (some (recv w.receiving sock buffer_size n).1, w.pausing n1)
            ]).1) [ negsuc e ↦ got | pos k ↦ followed n n1 (w.pausing n1) got (v.pausing n1) ]

  pub hellos-Run :
      (w : ℕ → Waits o) (fuel sock rounds i : ℕ) (n m : Node o) (replies : List (List ℕ))
      → ((k : ℕ) → AreRuns (w k))
      → hellos w fuel sock rounds i n ≡ some (replies, m)
      → Run n m
  unfolding hellos
  hellos-Run w fuel sock zero i n m replies v e =
      let same : n ≡ m = cc in subst (Run n) same (nothing n)
  hellos-Run w fuel sock (suc rounds) i n m replies v e =
      let ((sent, n1), f, g) = >>=-some (send (w i).sending fuel sock (hello_text i) n) _ e in
      let n2 = (hear (w i) sock sent n1).1 in
      let first : Run n n2 =
        followed n n1 n2 (sends (w i).sending fuel sock (hello_text i) n n1 sent (v i).sending f)
          (hear-Run (w i) sock sent n1 (v i)) in
      elim (Option-cases (hear (w i) sock sent n1).0) [
        | inl none_heard ↦ let same : n2 ≡ m = cc (rw (none_heard) at g) in subst (Run n) same first
        | inr (bytes, some_heard) ↦
            let ((rest, n3), k, l) =
              >>=-some (hellos w fuel sock rounds (i + 1) n2) _ (rw some_heard at g) in
            let same : n3 ≡ m = cc l in
            followed n n2 m first
              (subst (Run n2) same (hellos-Run w fuel sock rounds (i + 1) n2 n3 rest v k))
      ]

  acknowledge-Run :
      (w : Waits o) (send_fuel client : ℕ) (len : ℤ) (n m : Node o) (again : Bool)
      → AreRuns w
      → acknowledge w send_fuel client len n ≡ some (again, m)
      → Run n m
  unfolding acknowledge
  acknowledge-Run w send_fuel client (negsuc e) n m again v h =
      let same : n ≡ m = cc h in subst (Run n) same (nothing n)
  acknowledge-Run w send_fuel client (pos zero) n m again v h =
      let same : w.pausing n ≡ m = cc h in subst (Run n) same (v.pausing n)
  acknowledge-Run w send_fuel client (pos (suc l)) n m again v h =
      let ((sent, n1), f, g) = >>=-some (send w.sending send_fuel client ack_text n) _ h in
      let same : n1 ≡ m = ended-node sent n1 m again g in
      subst (Run n) same (sends w.sending send_fuel client ack_text n n1 sent v.sending f)
    where
      ended-node :
          (sent : ℤ) (a b : Node o) (again : Bool)
          → ◌≡◌ {A = Option (Bool × Node o)}
              (elim sent [ negsuc e ↦ some (false, a) | pos s ↦ some (true, a) ])
              (some (again, b))
          → a ≡ b
      ended-node (negsuc e) a b again g = cc g
      ended-node (pos s) a b again g = cc g

  pub serve-Run :
      (w : ℕ → Waits o) (send_fuel client fuel k : ℕ) (n m : Node o)
      → ((i : ℕ) → AreRuns (w i))
      → serve w send_fuel client fuel k n ≡ some m
      → Run n m
  unfolding serve
  serve-Run w send_fuel client zero k n m v e = absurd (cc e)
  serve-Run w send_fuel client (suc fuel) k n m v e =
      let len = (recv (w k).receiving client buffer_size n).0 in
      let n1 = (recv (w k).receiving client buffer_size n).2 in
      let ((again, n2), f, g) = >>=-some (acknowledge (w k) send_fuel client len n1) _ e in
      let first : Run n n2 =
        followed n n1 n2 (receives (w k).receiving client buffer_size n (v k).receiving)
          (acknowledge-Run (w k) send_fuel client len n1 n2 again (v k) f) in
      elim (Bool-cases again) [
        | inl more ↦
            followed n n2 m first (serve-Run w send_fuel client fuel (k + 1) n2 m v (rw more at g))
        | inr done ↦ let same : n2 ≡ m = cc (rw done at g) in subst (Run n) same first
      ]

  pub accept_round-Run :
      (accepting pausing : Node o → Node o) (w : ℕ → Waits o) (send_fuel fuel listener : ℕ)
      → (n m : Node o) → ((k : Node o) → Run k (accepting k))
      → ((k : Node o) → Run k (pausing k))
      → ((i : ℕ) → AreRuns (w i))
      → ((c : ℕ) → (accept accepting listener n).0 ≡ some c → c < max_socket_count)
      → accept_round accepting pausing w send_fuel fuel listener n ≡ some m
      → Run n m
  unfolding accept_round
  accept_round-Run accepting pausing w send_fuel fuel listener n m a b v pointer e =
      let n1 = (accept accepting listener n).1 in
      let taken : Run n n1 = accepts accepting listener n a in
      elim (Option-cases (accept accepting listener n).0) [
        | inl f ↦
            let same : pausing n1 ≡ m = cc (rw (f, accept_round) at e) in
            followed n n1 m taken (subst (Run n1) same (b n1))
        | inr (c, f) ↦
            let (n2, g, h) =
              >>=-some (serve w send_fuel c fuel 0 n1) (λ k. some (pausing (close c k).1))
                (rw (f, accept_round) at e) in
            let same : pausing (close c n2).1 ≡ m = cc h in
            followed n n1 m taken (
              followed n1 n2 m (serve-Run w send_fuel c fuel 0 n1 n2 v g) (
                followed n2 (close c n2).1 m (closes c n2 (pointer c f))
                  (subst (Run (close c n2).1) same (b (close c n2).1))))
      ]

  pub listen_task-Run : (n m : Node o) (s : ℕ) → listen_task n ≡ some (s, m) → Run n m
  unfolding listen_task
  listen_task-Run n m s e =
      let n1 = (create stream n).1 in
      let (sock, _, f) = >>=-some (create stream n).0 _ e in
      let n2 = (bind sock stream_port n1).1 in
      let (_, _, g) = >>=-some (assert_zero (bind sock stream_port n1).0) _ f in
      let same : (listen sock (pos 5) n2).1 ≡ m = cc g in
      followed n n1 m (creates stream n) (
        followed n1 n2 m (binds sock stream_port n1)
          (subst (Run n2) same (listens sock (pos 5) n2)))
