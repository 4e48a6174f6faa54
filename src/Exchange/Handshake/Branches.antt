-- ===== src/Exchange/Handshake/Branches.antt =====
-- The branches of the input handler that the packets of a handshake take.
use danp.Prelude.{ℕ, ◌≡◌, bit_or, refl, some}
use danp.Types.{stream, listening, syn_sent, syn_received, has, flag_syn, flag_ack}
use danp.Osal.{Osal}
use danp.Header.{Header}
use danp.Node.{Node, socket_at, put_socket, free}
use danp.Socket.Control.{send_control}
use danp.Socket.Create.{create}
use danp.Socket.Input.{dispatch, on_connect_request, on_accepted, on_final_ack, adopt}

module _ {o : Osal} where
  pub dispatch-connect_request :
      (p i : ℕ) (h : Header) (n : Node o)
      → h.flags ≡ flag_syn
      → (socket_at n i).state ≡ listening
      → dispatch p i h n ≡ on_connect_request p i h n
  unfolding dispatch has
  dispatch-connect_request p i h n flags state = rw (flags, state) refl

  pub dispatch-accepted :
      (p i : ℕ) (h : Header) (n : Node o)
      → h.flags ≡ bit_or flag_ack flag_syn
      → (socket_at n i).state ≡ syn_sent
      → dispatch p i h n ≡ on_accepted p i n
  unfolding dispatch has
  dispatch-accepted p i h n flags state = rw (flags, state) refl

  pub dispatch-final_ack :
      (p i : ℕ) (h : Header) (n : Node o)
      → h.flags ≡ flag_ack
      → (socket_at n i).state ≡ syn_received
      → dispatch p i h n ≡ on_final_ack p i n
  unfolding dispatch has
  dispatch-final_ack p i h n flags state = rw (flags, state) refl

  -- A listening socket with room makes a socket for the one that asks, and answers.
  pub on_connect_request-queued :
      (p l c : ℕ) (h : Header) (n : Node o) (q q' : o.Mq ℕ)
      → (socket_at n l).type ≡ stream
      → (create stream n).0 ≡ some c
      → let adopted = adopt c h.dst_port h.src h.src_port (create stream n).1 in
        (socket_at adopted l).accept_queue ≡ some q
        → o.mq_send q c ≡ some q'
        → on_connect_request p l h n
          ≡ free (some p) (
              send_control c
                (bit_or flag_ack flag_syn)
                0
                (put_socket adopted l (record (socket_at adopted l) { accept_queue = some q' })))
  unfolding on_connect_request
  on_connect_request-queued p l c h n q q' type made e f =
      rw (type, made, on_connect_request, type, e, f, type) refl
