-- ===== src/Socket/Input/Handler.antt =====
-- danp_socket_input_handler as a whole, as a step between states.
use danp.Prelude.{
  ℕ, ◌≡◌, refl, inl, inr, not, ◌&&◌, ◌||◌, Option, some, arith, ltb, ◌==◌, Bool-cases, Option-cases,
}
use danp.Types.{has, flag_syn, flag_ack, flag_rst}
use danp.Osal.{Osal, socket_mutex}
use danp.Buffer.Laws.{IsPool}
use danp.Header.{Header, unpack_header}
use danp.Node.{Node, socket_at, packet_at}
use danp.Socket.Find.{is_dgram, is_open, is_listening, find_socket}
use danp.Socket.Input
use danp.Socket.Input.{input_handler}
use danp.Socket.Kept.{Kept-refl, free-Kept}
use danp.Socket.Input.States.{both, confirmed_of, Moves, Kept-Moves, Transition, on_data_ack-Kept}
use danp.Socket.Input.Steps.{
  on_reset-Moves, on_resync-Moves, on_accepted-Moves, on_final_ack-Moves, on_data-Moves,
  on_connect_request-Moves,
}

module _ {o : Osal} {flags : ℕ} {found : Option ℕ} where
  dispatch-Moves :
      (p i : ℕ) (h : Header) (n : Node o)
      → IsPool n.pool
      → h.flags ≡ flags
      → found ≡ some i
      → Moves flags found n (Input.dispatch p i h n)
  unfolding Input.dispatch Input.on_connect_request
  dispatch-Moves p i h n v g f =
      let s = socket_at n i in
      let len = (packet_at n p).length in
      let syn = has flags flag_syn in
      let ack = has flags flag_ack in
      elim (Bool-cases (Input.is_connected s.state && syn)) [
        | inl c ↦
            let (on, y) = both _ _ c in rw (Input.dispatch, g, c) (on_resync-Moves p i n v on y f)
        | inr c ↦ elim (Bool-cases (is_listening s.state && syn)) [
          | inl l ↦ rw (Input.dispatch, g, c, l) (on_connect_request-Moves p i h n v (both _ _ l).1)
          | inr l ↦ elim (Bool-cases (Input.is_syn_sent s.state && ack)) [
            | inl a ↦
                let (on, y) = both _ _ a in
                rw (Input.dispatch, g, c, l, a) (on_accepted-Moves p i n v on y f)
            | inr a ↦ elim (Bool-cases (Input.is_syn_received s.state && (ack && not syn))) [
              | inl b ↦
                  rw (Input.dispatch, g, c, l, a, b)
                    (on_final_ack-Moves p i n v (confirmed_of flags found i _ (both _ _ b).0 c f))
              | inr b ↦ elim (Bool-cases (ack && (not syn && len == 1))) [
                | inl d ↦
                    rw (Input.dispatch, g, c, l, a, b, d) (Kept-Moves (on_data_ack-Kept p i n v))
                | inr d ↦
                    elim (Bool-cases (
                      (Input.is_connected s.state || (is_dgram s.type && is_open s.state))
                      && ltb 0 len)) [
                        | inl e ↦
                            rw (Input.dispatch, g, c, l, a, b, d, e) (on_data-Moves p i n v c f)
                        | inr e ↦
                            rw (Input.dispatch, g, c, l, a, b, d, e)
                              (Kept-Moves (free-Kept (some p) n v))
                      ]
              ]
            ]
          ]
        ]
      ]

module _ {o : Osal} where
  -- The socket that a packet is for.
  abbrev pub found_for : ℕ → Node o → Option ℕ
  found_for p n =
      let h = unpack_header (packet_at n p).header_raw in find_socket n h.dst_port h.src h.src_port

  input_handler-Moves :
      (p : ℕ) (n : Node o)
      → IsPool n.pool
      → Moves
          (unpack_header (packet_at n p).header_raw).flags
          (found_for p n)
          n
          (Input.input_handler p n)
  unfolding Input.input_handler Input.handle
  input_handler-Moves p n v =
      let h = unpack_header (packet_at n p).header_raw in
      elim (Bool-cases (o.mutex_lock socket_mutex)) [
        | inr l ↦ rw l (Kept-Moves (Kept-refl n v))
        | inl l ↦ elim (Bool-cases (h.flags == flag_rst)) [
          | inl r ↦ elim (Option-cases (found_for p n)) [
            | inl f ↦
                unfold Input.on_reset in
                rw (l, Input.handle, r, f) (Kept-Moves (free-Kept (some p) n v))
            | inr (i, f) ↦ rw (l, Input.handle, r, f) (on_reset-Moves p i n v (ground arith) refl)
          ]
          | inr r ↦ elim (Option-cases (found_for p n)) [
            | inl f ↦ rw (l, Input.handle, r, f) (Kept-Moves (free-Kept (some p) n v))
            | inr (i, f) ↦ rw (l, Input.handle, r, f) (dispatch-Moves p i h n v refl refl)
          ]
        ]
      ]

  -- `danp_socket_input_handler` changes the state of a socket only like this. The socket that the
  -- packet is for closes on RST, goes from ESTABLISHED to SYN_RECEIVED on SYN, from SYN_SENT to
  -- ESTABLISHED on ACK, and from SYN_RECEIVED to ESTABLISHED on a packet without SYN; and a closed
  -- socket becomes SYN_RECEIVED on SYN. In every other case its state stays.
  pub input_handler-Transition :
      (p : ℕ) (n : Node o)
      → IsPool n.pool
      → (j : ℕ)
      → Transition
          (unpack_header (packet_at n p).header_raw).flags
          (found_for p n)
          j
          (socket_at n j).state
          (socket_at (input_handler p n) j).state
  input_handler-Transition p n v j = input_handler-Moves p n v j
