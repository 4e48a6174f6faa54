-- ===== src/Example/Stream/Session.antt =====
-- The inner loop of the stream server: how it ends.
use danp.Prelude.{
  ℕ, zero, suc, ◌+◌, ◌≡◌, refl, ap, sym, ◌∙◌, Bool, true, false, Option, none, some, ℤ, pos, negsuc,
  Option-cases, Bool-cases, inl, inr,
}
use danp.Osal.{Osal}
use danp.Node.{Node, socket_at, packet_at}
use danp.Socket.Transfer.{send, recv, take_received, copy_length}
use danp.Example.{Waits, >>=-some}
use danp.Example.Stream.{acknowledge, serve, buffer_size, ack_text}

module _ {o : Osal} where
  -- danp_recv never returns a negative number.
  recv-pos :
      (await : Node o → Node o) (i max_len : ℕ) (n : Node o)
      → (v : ℕ) × ((recv await i max_len n).0 ≡ pos v)
  unfolding recv
  recv-pos await i max_len n = elim (Option-cases (take_received i (await n))) [
    | inl e ↦ (0, rw (recv, e) refl)
    | inr ((none, n'), e) ↦ (0, rw (recv, e) refl)
    | inr ((some p, n'), e) ↦
        (copy_length (socket_at n' i).type max_len (packet_at n' p), rw (recv, e) refl)
  ]

  -- The loop is left after a danp_send that failed, and with the node as that left it.
  acknowledge-leaves :
      (w : Waits o) (send_fuel client len : ℕ) (n m : Node o)
      → acknowledge w send_fuel client (pos len) n ≡ some (false, m)
      → (e : ℕ) × (send w.sending send_fuel client ack_text n ≡ some (negsuc e, m))
  unfolding acknowledge
  acknowledge-leaves w send_fuel client zero n m h = absurd (cc h)
  acknowledge-leaves w send_fuel client (suc l) n m h =
      let ((sent, n1), f, g) = >>=-some (send w.sending send_fuel client ack_text n) _ h in
      ended sent n1 m f g
    where
      ended :
          (sent : ℤ) (a b : Node o)
          → send w.sending send_fuel client ack_text n ≡ some (sent, a)
          → ◌≡◌ {A = Option (Bool × Node o)}
              (elim sent [ negsuc e ↦ some (false, a) | pos s ↦ some (true, a) ])
              (some (false, b))
          → (e : ℕ) × (send w.sending send_fuel client ack_text n ≡ some (negsuc e, b))
      ended (negsuc e) a b f g =
          let same : a ≡ b = cc g in (e, f ∙ ap (λ k. some (negsuc e, k)) same)
      ended (pos s) a b f g = absurd (cc g)

  -- The session with a client ends only by a danp_send that fails, and leaves the node as that call
  -- did. danp_recv has no part in it: it never returns a negative number, so that a client that
  -- closed its side, or sends nothing, does not end its session.
  pub serve_ends :
      (w : ℕ → Waits o) (send_fuel client fuel k : ℕ) (n m : Node o)
      → serve w send_fuel client fuel k n ≡ some m
      → (j : ℕ) × (a : Node o) × (e : ℕ) × (send (w j).sending send_fuel client ack_text a
          ≡ some (negsuc e, m))
  unfolding serve
  serve_ends w send_fuel client zero k n m h = absurd (cc h)
  serve_ends w send_fuel client (suc fuel) k n m h =
      let n1 = (recv (w k).receiving client buffer_size n).2 in
      let (len, some_len) = recv-pos (w k).receiving client buffer_size n in
      let ((again, n2), f, g) =
        >>=-some
          (acknowledge (w k) send_fuel client (recv (w k).receiving client buffer_size n).0 n1) _
          h in
      elim (Bool-cases again) [
        | inl more ↦ serve_ends w send_fuel client fuel (k + 1) n2 m (rw more at g)
        | inr done ↦
            let same : n2 ≡ m = cc (rw done at g) in
            let (e, failed) = acknowledge-leaves (w k) send_fuel client len n1 m (
              ap (λ l. acknowledge (w k) send_fuel client l n1) (sym some_len)
              ∙ f
              ∙ cc (done, same)) in
            (k, n1, e, failed)
      ]
