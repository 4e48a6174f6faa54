-- ===== src/Driver/Setup.antt =====
-- src/drivers: the set-up of the drivers, and the queue of the loopback. What the OS layer, the
-- radio, malloc and ZMQ answer are arguments, since they are not in the sources; `tx` is what the
-- driver's transmit function returns for a packet. A driver interface starts with its
-- `danp_interface_t`, so a pointer to it is the place of that in the table of interfaces.

pub mod Loopback
pub mod Outcome
use danp.Prelude.{
  ℕ, Bool, true, false, List, [], ◌∷◌, Option, none, some, ℤ, pos, negsuc, minus_one, set,
  if◌then◌else◌,
}
use danp.Types.{Packet, max_packet_size, u16}
use danp.Osal.{Osal}
use danp.Node.{Node}
use danp.Route.{Interface, blank_interface, Routing, interface_at}
use danp.Driver.{lo_receive}

-- "Loopback" and "ZMQ".
abbrev pub loopback_name : List ℕ
loopback_name = b'L' ∷ b'o' ∷ b'o' ∷ b'p' ∷ b'b' ∷ b'a' ∷ b'c' ∷ b'k' ∷ []

abbrev pub zmq_name : List ℕ
zmq_name = b'Z' ∷ b'M' ∷ b'Q' ∷ []

-- The interface as a driver fills it in, after its memory was cleared.
unfoldable pub filled_interface :
    (name : Option (List ℕ)) → (address : ℕ) → (Packet → ℤ) → Interface
filled_interface name address tx = record {
  name = name;
  address = u16 address;
  mtu = max_packet_size;
  tx_func = some tx;
  next = none;
}

abbrev pub put_interface : Routing → ℕ → Interface → Routing
put_interface r i f = record r { interfaces = set r.interfaces i f }

-- `danp_radio_init`, in the order of its steps; `address` is the 16 bits of its `int16_t`, and a
-- missing `name` is the null pointer, which it takes. On success it returns what the radio answered to
-- the request to listen.
unfoldable pub radio_init :
    (iface : Option ℕ)
    → (device memory : Bool) → (name : Option (List ℕ)) → (address : ℕ) → (configured listening : ℤ)
    → (thread_made : Bool) → (Packet → ℤ)
    → Routing
    → ℤ × Routing
unfolding filled_interface
radio_init none device memory name address configured listening thread_made tx r = (minus_one, r)
radio_init (some i) false memory name address configured listening thread_made tx r = (minus_one, r)
radio_init (some i) true false name address configured listening thread_made tx r =
    (minus_one, put_interface r i blank_interface)
radio_init (some i) true true name address configured listening thread_made tx r =
    let ready = put_interface r i (filled_interface name address tx) in
    elim configured [
      | negsuc e ↦ (negsuc e, ready)
      | pos c ↦ elim listening [
        | negsuc e ↦ (negsuc e, ready)
        | pos l ↦ if thread_made then (pos l, ready) else (minus_one, ready)
      ]
    ]

-- `danp_zmq_init`: nothing where there is no ZMQ context. The memory is not cleared.
unfoldable pub zmq_init : (context : Bool) → ℕ → (node_id : ℕ) → (Packet → ℤ) → Routing → Routing
zmq_init false i node_id tx r = r
zmq_init true i node_id tx r = put_interface r i (record (interface_at r i) {
  name = some zmq_name;
  address = node_id;
  mtu = max_packet_size;
  tx_func = some tx;
})

-- `danp_lo_context`: the queue of the loopback and its interface.
pub record LoContext (o : Osal) : Type 0 where
  pub mq : Option (o.Mq Packet)
  pub iface : Option ℕ

module _ {o : Osal} where
  -- `danp_lo_init`.
  unfoldable pub lo_init :
      (iface : Option ℕ)
      → (address : ℕ) → (thread_made : Bool) → (Packet → ℤ)
      → Routing
      → LoContext o
      → ℤ × Routing × LoContext o
  unfolding filled_interface
  lo_init none address thread_made tx r ctx = (minus_one, r, ctx)
  lo_init (some i) address thread_made tx r ctx =
      let ready = put_interface r i (filled_interface (some loopback_name) address tx) in
      let made = o.mq_create 2 in
      let ctx' : LoContext o = record { mq = made; iface = some i } in
      elim made [
        | none ↦ (minus_one, ready, ctx')
        | some q ↦ if thread_made then (pos 0, ready, ctx') else (minus_one, ready, ctx')
      ]

  -- `danp_lo_tx`, once the queue has room or the wait has failed: the packet is copied to the queue.
  unfoldable pub lo_tx : Packet → LoContext o → ℤ × LoContext o
  lo_tx pkt ctx = elim ctx.mq [
    | none ↦ (minus_one, ctx)
    | some q ↦ elim (o.mq_send q pkt) [
      | none ↦ (minus_one, ctx)
      | some q' ↦ (pos 0, record ctx { mq = some q' })
    ]
  ]

  -- A round of `danp_lo_rx_routine`, after its wait.
  unfoldable pub lo_round : (iface : ℕ) → LoContext o → Node o → Option (LoContext o × Node o)
  lo_round iface ctx n = elim ctx.mq [
    | none ↦ some (ctx, n)
    | some q ↦ elim (o.mq_receive q) [
      | none ↦ some (ctx, n)
      | some (pkt, q') ↦ elim (lo_receive iface pkt n) [
        | none ↦ none
        | some n' ↦ some (record ctx { mq = some q' }, n')
      ]
    ]
  ]
