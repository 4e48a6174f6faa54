-- ===== src/Socket/Transfer/Reliable.antt =====
-- danp_send on a stream: the retry loop, with and without packets to be had.
use danp.Prelude.{
  ℕ, zero, suc, ◌+◌, ◌-◌, ◌%◌, ◌≤◌, ◌≡◌, refl, ap, sym, subst, ◌∙◌, ◌⊎◌, inl, inr, Bool, true,
  false, List, Option, none, some, arith, ℤ, pos, minus_one, ltb, length, Option-cases, ◌∷◌,
}
use danp.Types.{stream, flag_none, max_packet_size, retry_limit}
use danp.Osal.{Osal}
use danp.Buffer.Laws.{IsPool}
use danp.Node.{Node, socket_at, put_socket, socket_header, allocate}
use danp.Node.Traffic.{send-SameButTraffic, SameButTraffic-IsPool, slot-free_map}
use danp.Socket.Connect.{take_signal}
use danp.Socket.Transfer.{send_segment, send_loop, end_send, send}

module _ {o : Osal} where
  -- The pool has its size, and its lock and a packet are to be had.
  pub record IsReady (n : Node o) : Type 0 where
    pub pool : IsPool n.pool
    pub packet : (p : ℕ) × ((allocate n).0 ≡ some p)

  -- What the other threads do while the caller waits for an acknowledgement leaves a packet.
  abbrev pub KeepsReady : (ℕ → Node o → Node o) → Type 0
  KeepsReady await = (k : ℕ) (n : Node o) → IsReady n → IsReady (await k n)

  module _ (await : ℕ → Node o → Node o) (i : ℕ) (bytes : List ℕ) where
    -- The node after the k-th transmission, with the packet `p`, and the wait that follows it.
    abbrev pub waited : ℕ → ℕ → Node o → Node o
    waited k p n = await k (send_segment i bytes p (allocate n).1)

    -- The rounds of the protocol, described by themselves: while attempts are left, a packet is
    -- sent and waited for; a token in the signal ends them, and so does the last wait.
    abbrev pub Attempts : (left k : ℕ) → Node o → Bool × Node o → Type 0
    Attempts zero k n r = r ≡ (false, n)
    Attempts (suc left) k n r =
        (p : ℕ) × ((allocate n).0 ≡ some p)
        × (((m : Node o) × (take_signal i (waited k p n) ≡ some m) × (r ≡ (true, m)))
            ⊎ ((take_signal i (waited k p n) ≡ none) × Attempts left (k + 1) (waited k p n) r))

    send_loop-lost :
        (fuel k retries p : ℕ) (n : Node o)
        → ltb retries retry_limit ≡ true
        → (allocate n).0 ≡ some p
        → take_signal i (waited k p n) ≡ none
        → send_loop await i bytes (suc fuel) k retries n
          ≡ send_loop await i bytes fuel (k + 1) (retries + 1) (waited k p n)
    unfolding send_loop
    send_loop-lost fuel k retries p n more slot lost = rw (more, slot, send_loop, lost)

    send_loop-acked :
        (fuel k retries p : ℕ) (n m : Node o)
        → ltb retries retry_limit ≡ true
        → (allocate n).0 ≡ some p
        → take_signal i (waited k p n) ≡ some m
        → send_loop await i bytes (suc fuel) k retries n ≡ some (true, m)
    unfolding send_loop
    send_loop-acked fuel k retries p n m more slot got = rw (more, slot, send_loop, got)

    send_loop-stop :
        (fuel k retries : ℕ) (n : Node o)
        → ltb retries retry_limit ≡ false
        → send_loop await i bytes fuel k retries n ≡ some (false, n)
    unfolding send_loop
    send_loop-stop zero k retries n stop = rw stop
    send_loop-stop (suc fuel) k retries n stop = rw (stop, send_loop)

    send_segment-IsReady :
        (p : ℕ) (n : Node o)
        → IsReady n
        → (allocate n).0 ≡ some p
        → IsReady (send_segment i bytes p (allocate n).1)
    unfolding send_segment
    send_segment-IsReady p n v e =
        let s = socket_at (allocate n).1 i in
        elim (send-SameButTraffic n (socket_header s flag_none) (s.tx_seq ∷ bytes) v.pool) [
          | inl (empty, _) ↦ absurd (cc)
          | inr (q, f, same) ↦
              let here : q ≡ p = cc in
              let kept = rw here at same in
              record {
                pool = SameButTraffic-IsPool kept v.pool;
                packet = (p, slot-free_map n _ (kept.free_map) ∙ e);
              }
        ]

    send_loop-Attempts :
        KeepsReady await
        → (left k retries : ℕ) (n : Node o) → retries + left ≡ retry_limit
        → IsReady n
        → (r : Bool × Node o) × (send_loop await i bytes left k retries n ≡ some r)
          × Attempts left k n r
    send_loop-Attempts keep zero k retries n e v =
        ((false, n), send_loop-stop zero k retries n (ground arith), refl)
    send_loop-Attempts keep (suc left) k retries n e v =
        let (p, slot) = v.packet in
        let more : ltb retries retry_limit ≡ true = ground arith in
        elim (Option-cases (take_signal i (waited k p n))) [
          | inl lost ↦
              let (r, done, rest) =
                send_loop-Attempts keep left (k + 1) (retries + 1) (waited k p n) (omega arith)
                  (keep k _ (send_segment-IsReady p n v slot)) in
              (
                r,
                send_loop-lost left k retries p n more slot lost ∙ done,
                (p, slot, inr (lost, rest)),
              )
          | inr (m, got) ↦ (
            (true, m),
            send_loop-acked left k retries p n m more slot got,
            (p, slot, inl (m, got, refl)),
          )
        ]

    send-stream :
        (fuel : ℕ) (n : Node o)
        → (socket_at n i).type ≡ stream
        → length bytes ≤ 127
        → send await fuel i bytes n ≡ end_send i bytes (send_loop await i bytes fuel 0 0 n)
    unfolding send
    send-stream fuel n t l =
        let fits : ltb (max_packet_size - 1) (length bytes) ≡ false = ground arith in
        rw (fits, t, send)

    -- What the call returns behind the rounds, where a token was found and where none was.
    abbrev pub Returns : Bool × Node o → Option (ℤ × Node o) → Type 0
    Returns (acked, m) out =
        ((acked ≡ true)
          × (out
              ≡ some (
                pos (length bytes),
                put_socket m i
                    (record (socket_at m i) { tx_seq = ((socket_at m i).tx_seq + 1) % 256 }),
              )))
        ⊎ ((acked ≡ false) × (out ≡ some (minus_one, m)))

    end_send-Returns : (r : Bool × Node o) → Returns r (end_send i bytes (some r))
    unfolding end_send
    end_send-Returns (true, m) = inl (refl, refl)
    end_send-Returns (false, m) = inr (refl, refl)

    -- `danp_send` of at most 127 bytes on a stream, where a packet is to be had now and after every
    -- wait: it returns after at most three transmissions. If the wait behind one of them found a
    -- token in the socket's signal, it returns the length and moves the sequence number on by one
    -- modulo 256; if none did, it returns -1 and leaves the node as the last wait did. Nothing says
    -- that the token is the acknowledgement of this segment.
    pub send-Returns :
        (n : Node o)
        → KeepsReady await
        → IsReady n
        → (socket_at n i).type ≡ stream
        → length bytes ≤ 127
        → (r : Bool × Node o) × Attempts retry_limit 0 n r
          × Returns r (send await retry_limit i bytes n)
    send-Returns n keep v t l =
        let (r, done, rounds) = send_loop-Attempts keep retry_limit 0 0 n refl v in
        let whole = send-stream retry_limit n t l ∙ ap (end_send i bytes) done in
        (r, rounds, subst (Returns r) (sym whole) (end_send-Returns r))

    send_loop-stalls :
        (n : Node o)
        → ((k : ℕ) → await k n ≡ n)
        → (allocate n).0 ≡ none
        → (allocate n).1 ≡ n
        → (fuel k : ℕ) → send_loop await i bytes fuel k 0 n ≡ none
    unfolding send_loop
    send_loop-stalls n still none_free same zero k = refl
    send_loop-stalls n still none_free same (suc fuel) k =
        rw (none_free, send_loop, same, still k)
          (send_loop-stalls n still none_free same fuel (k + 1))

    -- With no packet in the pool, and no other thread that gives one back, `danp_send` of at most
    -- 127 bytes on a stream never returns: a failed allocation counts as no retry.
    pub send_stalls :
        (n : Node o)
        → ((k : ℕ) → await k n ≡ n)
        → (allocate n).0 ≡ none
        → (allocate n).1 ≡ n
        → (socket_at n i).type ≡ stream
        → length bytes ≤ 127
        → (fuel : ℕ) → send await fuel i bytes n ≡ none
    unfolding end_send
    send_stalls n still none_free same t l fuel =
        send-stream fuel n t l
        ∙ ap (end_send i bytes) (send_loop-stalls n still none_free same fuel 0)
