-- ===== src/Exchange/Handshake/Arrival.antt =====
-- What a handshake needs of both nodes: a packet that arrives, and the queue of danp_accept.
use danp.Prelude.{
  ℕ, ◌%◌, ◌≡◌, refl, ap, sym, ◌∙◌, subst, List, [], ◌∷◌, ◌++◌, some, ℤ, arith, length, true, false,
  Bool-cases, inl, inr, ltb, length-set,
}
use danp.Types.{Packet, stream, established, u8}
use danp.Osal.{Osal, IsOsal, socket_mutex}
use danp.Buffer.Laws.{IsPool}
use danp.Header.{Header, unpack_header}
use danp.Node.{Node, Socket, socket_at, packet_at, allocate}
use danp.Route.{interface_at}
use danp.Socket.Connect.{accept}
use danp.Socket.Input.{dispatch}
use danp.Receive.{input}
use danp.Driver.{packet_bytes}
use danp.Driver.Delivery.{IsPacket}
use danp.Exchange.Reception.{Takes, got, filled_node, input-dispatch}
use danp.Exchange.Peer.{ReachesPeer, to_peer, peer_header, unpack-peer_header, to_peer-IsPacket}

module _ {o : Osal} where
  -- The node has a packet for what comes from the interface `iface` with this destination.
  pub record Awaits (n : Node o) (iface slot dst : ℕ) : Type 0 where
    pub lock : o.mutex_lock socket_mutex ≡ true
    pub pool : IsPool n.pool
    pub packet : (allocate n).0 ≡ some slot
    pub array : IsPacket (packet_at n slot)
    pub address : dst ≡ (interface_at n.routing iface).address

  -- The socket that was accepted is the other end of the caller's, with its numbers at 0.
  pub record IsOtherEnd (s caller : Socket o) : Type 0 where
    pub type : s.type ≡ stream
    pub state : s.state ≡ established
    pub remote_node : s.remote_node ≡ caller.local_node % 256
    pub remote_port : s.remote_port ≡ u8 caller.local_port % 64
    pub local_port : s.local_port ≡ u8 caller.remote_port % 64
    pub sends : s.tx_seq ≡ 0
    pub expects : s.rx_expected_seq ≡ 0

  -- A packet from a socket to its peer, at the node that takes it.
  pub to_peer-input :
      (n m : Node o) (i flags : ℕ) (payload : List ℕ) (slot out : ℕ) (tx : Packet → ℤ)
      → (iface slot' j : ℕ) (h : Header) → ReachesPeer n i (length payload) slot out tx
      → peer_header (socket_at n i) flags ≡ h
      → Takes m iface slot' j h
      → input iface (packet_bytes (to_peer n i flags payload slot)) m
        ≡ some (dispatch slot' j h (filled_node m iface slot' (to_peer n i flags payload slot)))
  to_peer-input n m i flags payload slot out tx iface slot' j h v e t =
      let pkt = to_peer n i flags payload slot in
      let header : unpack_header pkt.header_raw ≡ h =
        unpack-peer_header (socket_at n i) flags ∙ e in
      input-dispatch m iface slot' pkt j (subst (λ g. Takes m iface slot' j g) (sym header) t)
        (to_peer-IsPacket n i flags payload slot out tx v)
      ∙ ap (λ g. some (dispatch slot' j g (filled_node m iface slot' pkt))) header

  pub filled_node-IsPool :
      (iface slot : ℕ) (n : Node o) (pkt : Packet)
      → IsPool n.pool
      → IsPool (filled_node n iface slot pkt).pool
  filled_node-IsPool iface slot n pkt v = record {
    slots = length-set n.pool.packets slot (got n iface slot pkt) ∙ v.slots;
    flags = length-set n.pool.free_map slot false ∙ v.flags;
  }

  -- A queue that took an item has it last.
  pub send-last :
      {A : Type 0} (q q' : o.Mq A) (x : A)
      → IsOsal o
      → o.mq_send q x ≡ some q'
      → o.contents q' ≡ o.contents q ++ x ∷ []
  send-last q q' x os e = elim (Bool-cases (ltb (length (o.contents q)) (o.places q))) [
    | inr f ↦ absurd (cc (e, os.send_full q x (ground arith)))
    | inl t ↦ let (r, sent, held, _) = os.send_room q x (ground arith) in cc
  ]

  pub accept-first :
      (n : Node o) (l c : ℕ) (rest : List ℕ) (q : o.Mq ℕ)
      → IsOsal o
      → (socket_at n l).accept_queue ≡ some q
      → o.contents q ≡ c ∷ rest
      → (accept (λ m. m) l n).0 ≡ some c
  unfolding accept
  accept-first n l c rest q os e f =
      let (q', got, _, _) = os.receive_oldest q c rest f in rw (accept, e, accept, got) refl
