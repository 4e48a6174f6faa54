-- ===== src/Socket/Sound/Connect.antt =====
-- danp_connect and danp_accept keep the invariant.
use danp.Prelude.{ℕ, ◌≡◌, refl, inl, inr, some, Option-cases}
use danp.Types.{type_cases, syn_sent, flag_syn}
use danp.Osal.{Osal}
use danp.Node.{Socket, Node, socket_at, put_socket}
use danp.Socket.Control.{send_control}
use danp.Socket.Connect.{take_signal, bind_unbound, set_peer, handshake, connect, accept}
use danp.Socket.Sound.Lifetime.{bind-IsSound}
use danp.Socket.Sound.{IsSound, KeepsSound, put-IsSound, send_control-IsSound, if_holds}

module _ {o : Osal} where
  pub take_signal-IsSound :
      (i : ℕ) (n m : Node o) → take_signal i n ≡ some m → IsSound n → IsSound m
  unfolding take_signal
  take_signal-IsSound i n m e v = elim (Option-cases (socket_at n i).signal) [
    | inl f ↦ absurd (cc (rw (take_signal, f) at e))
    | inr (sem, f) ↦ elim (Option-cases (o.sem_take sem)) [
      | inl g ↦ absurd (cc (rw (take_signal, f, take_signal, g) at e))
      | inr (sem', g) ↦
          let s : Socket o = record (socket_at n i) { signal = some sem' } in
          let same : m ≡ put_socket n i s = cc (rw (take_signal, f, take_signal, g) at e) in
          rw same (put-IsSound n i s refl (v.ports i) v)
    ]
  ]

  set_peer-IsSound : (i node port : ℕ) (n : Node o) → IsSound n → IsSound (set_peer i node port n)
  unfolding set_peer
  set_peer-IsSound i node port n v = put-IsSound n i _ refl (v.ports i) v

  bind_unbound-IsSound : (i : ℕ) (n : Node o) → IsSound n → IsSound (bind_unbound i n)
  unfolding bind_unbound
  bind_unbound-IsSound i n v = if_holds IsSound _ (bind-IsSound i 0 n v) v

  handshake-IsSound :
      (await : Node o → Node o) (i : ℕ) (n : Node o)
      → KeepsSound await
      → IsSound n
      → IsSound (handshake await i n).1
  unfolding handshake
  handshake-IsSound await i n keep v =
      let asked : Node o = put_socket n i (record (socket_at n i) { state = syn_sent }) in
      let w : IsSound (await (send_control i flag_syn 0 asked)) =
        keep _ (send_control-IsSound i flag_syn 0 asked (put-IsSound n i _ refl (v.ports i) v)) in
      elim (Option-cases (take_signal i (await (send_control i flag_syn 0 asked)))) [
        | inl e ↦ rw (e, handshake) (put-IsSound _ i _ refl (w.ports i) w)
        | inr (m, e) ↦ rw (e, handshake) (take_signal-IsSound i _ m e w)
      ]

  pub connect-IsSound :
      (await : Node o → Node o) (i node port : ℕ) (n : Node o)
      → KeepsSound await
      → IsSound n
      → IsSound (connect await i node port n).1
  unfolding connect
  connect-IsSound await i node port n keep v =
      let ready : Node o = set_peer i node port (bind_unbound i n) in
      let w : IsSound ready = set_peer-IsSound i node port _ (bind_unbound-IsSound i n v) in
      elim (type_cases (socket_at ready i).type) [
        | inl e ↦ rw (e, connect) (put-IsSound ready i _ refl (w.ports i) w)
        | inr e ↦ rw (e, connect) (handshake-IsSound await i ready keep w)
      ]

  pub accept-IsSound :
      (await : Node o → Node o) (i : ℕ) (n : Node o)
      → KeepsSound await
      → IsSound n
      → IsSound (accept await i n).1
  unfolding accept
  accept-IsSound await i n keep v =
      let w = keep n v in
      elim (Option-cases (socket_at (await n) i).accept_queue) [
        | inl e ↦ rw (accept, e) w
        | inr (q, e) ↦ elim (Option-cases (o.mq_receive q)) [
          | inl f ↦ rw (accept, e, accept, f) w
          | inr ((c, q'), f) ↦
              rw (accept, e, accept, f) (put-IsSound (await n) i _ refl (w.ports i) w)
        ]
      ]
