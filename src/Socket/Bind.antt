-- ===== src/Socket/Bind.antt =====
-- danp_bind: a port is chosen by the caller, or found from `next_ephemeral_port` on.
pub mod Ports
use danp.Prelude.{
  ℕ, zero, suc, ◌+◌, Bool, true, false, Option, none, some, ℤ, pos, minus_one, leb, ◌==◌,
  if◌then◌else◌,
}
use danp.Types.{max_ports, u16}
use danp.Osal.{Osal, socket_mutex}
use danp.Node.{Socket, Node, socket_at, put_socket}
use danp.Socket.Find.{port_in_use}

-- The step of `next_ephemeral_port`, back to 1 at the end of the ports.
unfoldable pub advance_port : ℕ → ℕ
advance_port p = let q = u16 (p + 1) in if leb max_ports q then 1 else q

module _ {o : Osal} where
  -- The do-while loop: the port found, and `next_ephemeral_port` after it. From a start between 1
  -- and 63 the loop is back at its start after 63 rounds, which the fuel covers.
  unfoldable pub search_port : ℕ → (start next : ℕ) → Node o → Option ℕ × ℕ
  search_port zero start next n = (none, next)
  search_port (suc k) start next n =
      let after = advance_port next in
      let rest = search_port k start after n in
      if port_in_use n next
      then (if after == start then (none, after) else rest)
      else (some next, after)

  -- From the test `port >= DANP_MAX_PORTS` on.
  unfoldable pub take_port : ℕ → ℕ → Node o → ℤ × Node o
  take_port i port n =
      if leb max_ports port
      then (minus_one, n)
      else (if port_in_use n port
          then (minus_one, n)
          else (pos 0, put_socket n i (record (socket_at n i) { local_port = port })))

  unfoldable pub take_ephemeral : ℕ → Node o → ℤ × Node o
  take_ephemeral i n =
      let (found, next) = search_port max_ports n.next_ephemeral_port n.next_ephemeral_port n in
      let n' = record n { next_ephemeral_port = next } in
      elim found [ none ↦ (minus_one, n') | some port ↦ take_port i port n' ]

  unfoldable pub bind : ℕ → ℕ → Node o → ℤ × Node o
  unfolding take_ephemeral take_port
  bind i port n =
      if o.mutex_lock socket_mutex
      then (if port == 0 then take_ephemeral i n else take_port i port n)
      else (minus_one, n)
