-- ===== src/Socket/Control/Laws.antt =====
-- danp_send_control and the packet that it takes.
use danp.Prelude.{ℕ, inl, inr, false, get_or, ◌≡◌, refl}
use danp.Osal.{Osal}
use danp.Buffer.Laws.{IsPool}
use danp.Node.{Node, socket_at, socket_header, packet_at}
use danp.Node.Traffic.{SameButTraffic, SameButTraffic-refl, send-SameButTraffic, send_packet-used}
use danp.Socket.Control.{send_control, control_payload}

module _ {o : Osal} where
  -- Sending a control packet, from a pool of its size, changes no socket and no route, and the free
  -- slots of the pool are the same before and after: the packet is given back on every path.
  pub send_control-SameButTraffic :
      (i flags seq_num : ℕ) (n : Node o)
      → IsPool n.pool
      → SameButTraffic n (send_control i flags seq_num n)
  unfolding send_control
  send_control-SameButTraffic i flags seq_num n v =
      elim (send-SameButTraffic n (socket_header (socket_at n i) flags)
        (control_payload (socket_at n i) flags seq_num) v) [
          | inl (e, same) ↦ rw (e, send_control, same) (SameButTraffic-refl n)
          | inr (p, e, s) ↦ rw (e, send_control) s
        ]

  -- It writes to no packet in use.
  pub send_control-used :
      (i flags seq_num p : ℕ) (n : Node o)
      → IsPool n.pool
      → get_or n.pool.free_map p false ≡ false
      → packet_at (send_control i flags seq_num n) p ≡ packet_at n p
  unfolding send_control
  send_control-used i flags seq_num p n v used =
      elim (send-SameButTraffic n (socket_header (socket_at n i) flags)
        (control_payload (socket_at n i) flags seq_num) v) [
          | inl (e, same) ↦ rw (e, send_control, same) refl
          | inr (q, e, _) ↦
              rw (e, send_control)
                (send_packet-used n p q (socket_header (socket_at n i) flags)
                  (control_payload (socket_at n i) flags seq_num) v e used)
        ]
