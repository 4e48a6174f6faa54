-- ===== src/Driver/Setup/Loopback.antt =====
-- The loopback driver: what it transmits it receives, in order.
use danp.Prelude.{
  Option-cases, inl, inr, ℕ, ◌<◌, ◌≡◌, refl, ap, ◌∙◌, List, [], ◌∷◌, ◌++◌, some, pos, length,
}
use mathlib.Core.Option.{map as map_option}
use danp.Types.{Packet}
use danp.Osal.{Osal, IsOsal}
use danp.Node.{Node}
use danp.Receive.{input}
use danp.Driver.{packet_bytes, lo_receive}
use danp.Driver.Setup.{LoContext, lo_tx, lo_round}

module _ {o : Osal} where
  -- The loopback with these packets on their way, oldest first.
  pub record Carries (ctx : LoContext o) (pkts : List Packet) : Type 0 where
    pub queue : o.Mq Packet
    pub there : ctx.mq ≡ some queue
    pub holds : o.contents queue ≡ pkts

  lo_tx-Carries :
      (pkt : Packet) (ctx : LoContext o) (waiting : List Packet) (v : Carries ctx waiting)
      → IsOsal o
      → length waiting < o.places v.queue
      → ((lo_tx pkt ctx).0 ≡ pos 0) × Carries (lo_tx pkt ctx).1 (waiting ++ pkt ∷ [])
  unfolding lo_tx
  lo_tx-Carries pkt ctx waiting v os room =
      let (q', sent, held, _) = os.send_room v.queue pkt (rw (v.holds) room) in
      rw (lo_tx, v.there, lo_tx, sent)
        (refl, record { queue = q'; there = refl; holds = held ∙ ap (λ t. t ++ pkt ∷ []) v.holds })

  lo_round-Carries :
      (iface : ℕ) (ctx : LoContext o) (first : Packet) (rest : List Packet) (n : Node o)
      → IsOsal o
      → Carries ctx (first ∷ rest)
      → (ctx' : LoContext o) × Carries ctx' rest
        × (lo_round iface ctx n ≡ map_option (λ m. (ctx', m)) (input iface (packet_bytes first) n))
  unfolding lo_round lo_receive
  lo_round-Carries iface ctx first rest n os v =
      let (q', got, left, _) = os.receive_oldest v.queue first rest v.holds in
      (
        record ctx { mq = some q' },
        record { queue = q'; there = refl; holds = left },
        elim (Option-cases (input iface (packet_bytes first) n)) [
          | inl e ↦ rw (lo_round, v.there, lo_round, got, lo_round, e) refl
          | inr (m, e) ↦ rw (lo_round, v.there, lo_round, got, lo_round, e) refl
        ],
      )

  -- A packet that the loopback transmits while its queue has room goes behind those on their way,
  -- and danp_lo_tx returns 0. The next round of the receiving thread hands danp_input the bytes of
  -- the oldest packet, which is this one where none was on its way, and leaves the others.
  pub lo_tx-lo_round :
      (iface : ℕ) (pkt : Packet) (ctx : LoContext o) (waiting : List Packet)
      → (v : Carries ctx waiting) → IsOsal o
      → length waiting < o.places v.queue
      → (first : Packet) (rest : List Packet) (n : Node o) → waiting ++ pkt ∷ [] ≡ first ∷ rest
      → let (ret, ctx') = lo_tx pkt ctx in
        (ret ≡ pos 0)
        × ((ctx'' : LoContext o) × Carries ctx'' rest
            × (lo_round iface ctx' n
                ≡ map_option (λ m. (ctx'', m)) (input iface (packet_bytes first) n)))
  lo_tx-lo_round iface pkt ctx waiting v os room first rest n order =
      let (ret, w) = lo_tx-Carries pkt ctx waiting v os room in
      let w' : Carries (lo_tx pkt ctx).1 (first ∷ rest) = record {
        queue = w.queue;
        there = w.there;
        holds = w.holds ∙ order;
      } in
      (ret, lo_round-Carries iface (lo_tx pkt ctx).1 first rest n os w')
