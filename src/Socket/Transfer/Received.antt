-- ===== src/Socket/Transfer/Received.antt =====
-- danp_recv: the number that it returns and the bytes that it copies.
use danp.Prelude.{
  ℕ, ◌-◌, ◌≤◌, ◌≡◌, refl, ap, sym, inl, inr, List, [], ◌∷◌, Option, none, some, arith, pos, length,
  drop, take, ◌∙◌, ◌⊎◌, length-take, Option-cases, true, false, ◌<◌, get_or, set, get_or-set_self,
}
use danp.Types.{SocketType, dgram, stream, Packet, pool_size}
use danp.Osal.{Osal, IsOsal, buffer_mutex}
use danp.Node.{Node, socket_at, put_socket, packet_at, blank_socket, free, Socket}
use danp.Buffer.{Pool}
use danp.Buffer.Laws.{free_used}
use danp.Socket.Transfer.Chunks.{Holds, copied-dgram, copied-stream}
use danp.Socket.Transfer.{copy_length, copied, take_received, recv}

-- The length of a packet stays inside its array.
abbrev pub Fits : Packet → Type 0
Fits pkt = pkt.length ≤ length pkt.payload

pub Holds-Fits : (pkt : Packet) (bytes : List ℕ) → Holds pkt bytes → Fits pkt
Holds-Fits pkt bytes h =
    omega (arith, length-take pkt.length pkt.payload, ap length h.bytes, h.length)

length-drop_one : (xs : List ℕ) → length (drop 1 xs) ≡ length xs - 1
length-drop_one [] = refl
length-drop_one (x ∷ xs) = omega arith

pub copied-bounds :
    (t : SocketType) (max_len : ℕ) (pkt : Packet)
    → Fits pkt
    → (length (copied t max_len pkt) ≡ copy_length t max_len pkt)
      × (copy_length t max_len pkt ≤ max_len)
unfolding copied copy_length
copied-bounds dgram max_len pkt h =
    let l = length-take (copy_length dgram max_len pkt) pkt.payload in
    (ground (arith, l), ground arith)
copied-bounds stream max_len pkt h =
    let l = length-take (copy_length stream max_len pkt) (drop 1 pkt.payload) in
    (ground (arith, l, length-drop_one pkt.payload), ground arith)

-- What a packet carries for the reader: behind the sequence number, on a stream.
abbrev pub Carries : SocketType → Packet → List ℕ → Type 0
Carries dgram pkt bytes = Holds pkt bytes
Carries stream pkt bytes = (seq : ℕ) × Holds pkt (seq ∷ bytes)

copied-Carries :
    (t : SocketType) (max_len : ℕ) (pkt : Packet) (bytes : List ℕ)
    → Carries t pkt bytes
    → (copied t max_len pkt ≡ take max_len bytes)
      × (copy_length t max_len pkt ≡ length (take max_len bytes))
copied-Carries dgram max_len pkt bytes h =
    let text = copied-dgram max_len pkt bytes h in
    (text, sym (copied-bounds dgram max_len pkt (Holds-Fits pkt bytes h)).0 ∙ ap length text)
copied-Carries stream max_len pkt bytes (seq, h) =
    let text = copied-stream max_len seq pkt bytes h in
    (
      text,
      sym (copied-bounds stream max_len pkt (Holds-Fits pkt (seq ∷ bytes) h)).0 ∙ ap length text,
    )

List-cases :
    (xs : List (Option ℕ))
    → (xs ≡ []) ⊎ ((x : Option ℕ) × (rest : List (Option ℕ)) × (xs ≡ x ∷ rest))
List-cases [] = inl refl
List-cases (x ∷ xs) = inr (x, xs, refl)

module _ {o : Osal} where
  written-at :
      (i : ℕ) (k : Node o) (q' : o.Mq (Option ℕ))
      → i < length k.socket_pool
      → let s : Socket o = record (socket_at k i) { rx_queue = some q' } in
        socket_at (put_socket k i s) i ≡ s
  written-at i k q' r =
      get_or-set_self k.socket_pool i (record (socket_at k i) { rx_queue = some q' })
        (blank_socket o) r

  -- `danp_recv`, where the lengths of the packets stay inside their arrays after the wait, returns
  -- the number of bytes that it copied, and copies no more than the caller's buffer holds.
  pub recv_bounds :
      (await : Node o → Node o) (i max_len : ℕ) (n : Node o)
      → ((p : ℕ) → Fits (packet_at (await n) p))
      → let (ret, bytes, m) = recv await i max_len n in
        (ret ≡ pos (length bytes)) × (length bytes ≤ max_len)
  unfolding recv take_received
  recv_bounds await i max_len n fits = elim (Option-cases (socket_at (await n) i).rx_queue) [
    | inl e ↦ rw (recv, take_received, e) (refl, omega arith)
    | inr (q, e) ↦ elim (Option-cases (o.mq_receive q)) [
      | inl f ↦ rw (recv, take_received, e, take_received, f) (refl, omega arith)
      | inr ((none, q'), f) ↦ rw (recv, take_received, e, take_received, f) (refl, omega arith)
      | inr ((some p, q'), f) ↦
          let b =
            copied-bounds
              (socket_at
                (put_socket (await n) i (record (socket_at (await n) i) { rx_queue = some q' }))
                i).type
              max_len (packet_at (await n) p) (fits p) in
          rw (recv, take_received, e, take_received, f) (ap pos (sym b.0), omega (arith, b.0, b.1))
    ]
  ]

  pub take_received-waiting :
      (j : ℕ) (x : Option ℕ) (m : Node o) (q q' : o.Mq (Option ℕ))
      → (socket_at m j).rx_queue ≡ some q
      → o.mq_receive q ≡ some (x, q')
      → take_received j m ≡ some (x, put_socket m j (record (socket_at m j) { rx_queue = some q' }))
  unfolding take_received
  take_received-waiting j x m q q' e r = rw (e, take_received, r) refl

  pub take_received-empty :
      (i : ℕ) (n : Node o) (q : o.Mq (Option ℕ))
      → (socket_at n i).rx_queue ≡ some q
      → o.mq_receive q ≡ none
      → take_received i n ≡ none
  unfolding take_received
  take_received-empty i n q e f = rw (e, take_received, f) refl

  pub recv-taken :
      (await : Node o → Node o) (i max_len p : ℕ) (n k : Node o)
      → take_received i (await n) ≡ some (some p, k)
      → recv await i max_len n ≡ (
        pos (copy_length (socket_at k i).type max_len (packet_at k p)),
        copied (socket_at k i).type max_len (packet_at k p),
        free (some p) k,
      )
  unfolding recv
  recv-taken await i max_len p n k e = rw (recv, e, recv) refl

  pub recv-nothing :
      (await : Node o → Node o) (i max_len : ℕ) (n : Node o)
      → take_received i (await n) ≡ none
      → recv await i max_len n ≡ (pos 0, [], await n)
  unfolding recv
  recv-nothing await i max_len n e = rw (recv, e) refl

  recv-marker :
      (await : Node o → Node o) (i max_len : ℕ) (n k : Node o)
      → take_received i (await n) ≡ some (none, k)
      → recv await i max_len n ≡ (pos 0, [], k)
  unfolding recv
  recv-marker await i max_len n k e = rw (recv, e, recv) refl

  -- The packet `p` is one of the pool, in use, and carries these bytes for the socket.
  pub record IsReadable (k : Node o) (i p : ℕ) (bytes : List ℕ) : Type 0 where
    pub slot : p < pool_size
    pub taken : get_or k.pool.free_map p false ≡ false
    pub carried : Carries (socket_at k i).type (packet_at k p) bytes

  -- `danp_recv`, with the socket's queue as it is after the wait. An empty queue gives 0, no bytes,
  -- and changes nothing. The marker of a peer that closed is taken off the queue, and gives 0 and no
  -- bytes. Otherwise the oldest packet is taken off the queue: where it carries `bytes`, for a
  -- stream behind a sequence number, as many of them as the caller's buffer holds are handed out,
  -- their number is returned, and the packet's slot, which was in use, goes back to the pool.
  pub recv_oldest :
      (await : Node o → Node o) (i max_len : ℕ) (bytes : List ℕ) (n : Node o)
      → (q : o.Mq (Option ℕ)) → IsOsal o
      → o.mutex_lock buffer_mutex ≡ true
      → i < length (await n).socket_pool
      → (socket_at (await n) i).rx_queue ≡ some q
      → ((p : ℕ) (rest : List (Option ℕ))
          → o.contents q ≡ some p ∷ rest
          → IsReadable (await n) i p bytes)
      → let (ret, out, m) = recv await i max_len n in
        ((o.contents q ≡ []) × (ret ≡ pos 0) × (out ≡ []) × (m ≡ await n))
        ⊎ ((rest : List (Option ℕ)) × (q' : o.Mq (Option ℕ)) × (o.contents q ≡ none ∷ rest)
            × (ret ≡ pos 0)
            × (out ≡ [])
            × ((socket_at m i).rx_queue ≡ some q')
            × (o.contents q' ≡ rest)
            × (m.pool ≡ (await n).pool))
        ⊎ ((p : ℕ) × (rest : List (Option ℕ)) × (q' : o.Mq (Option ℕ)) × (o.contents q
              ≡ some p ∷ rest)
            × (ret ≡ pos (length (take max_len bytes)))
            × (out ≡ take max_len bytes)
            × ((socket_at m i).rx_queue ≡ some q')
            × (o.contents q' ≡ rest)
            × (m.pool.free_map ≡ set (await n).pool.free_map p true))
  unfolding free
  recv_oldest await i max_len bytes n q os l r e readable = elim (List-cases (o.contents q)) [
    | inl empty ↦
        let w = take_received-empty i (await n) q e (os.receive_empty q empty) in
        rw (recv-nothing await i max_len n w) (inl (empty, refl, refl, refl))
    | inr (none, rest, held) ↦
        let (q', got, left, _) = os.receive_oldest q none rest held in
        let w = take_received-waiting i none (await n) q q' e got in
        let queue = ap (λ (x : Socket o). x.rx_queue) (written-at i (await n) q' r) in
        rw (recv-marker await i max_len n _ w)
          (inr (inl (rest, q', held, refl, refl, queue, left, refl)))
    | inr (some p, rest, held) ↦
        let (q', got, left, _) = os.receive_oldest q (some p) rest held in
        let w = take_received-waiting i (some p) (await n) q q' e got in
        let now = written-at i (await n) q' r in
        let v = readable p rest held in
        let same : (socket_at
              (put_socket (await n) i (record (socket_at (await n) i) { rx_queue = some q' }))
              i).type
            ≡ (socket_at (await n) i).type =
          ap (λ (x : Socket o). x.type) now in
        let (text, size) =
          copied-Carries (socket_at (await n) i).type max_len (packet_at (await n) p) bytes
            v.carried in
        let given = ap (λ (x : Pool). x.free_map) (free_used (await n).pool p v.slot v.taken) in
        rw (recv-taken await i max_len p n _ w) (
          inr (
            inr (
              p,
              rest,
              q',
              held,
              ap pos (rw same size),
              rw same text,
              ap (λ (x : Socket o). x.rx_queue) now,
              left,
              rw l given,
            )))
  ]
