-- ===== src/Example/Route/Ready.antt =====
-- The node of an example program after its set-up.
use danp.Prelude.{
  ℕ, ◌≤◌, ◌<◌, ◌≡◌, refl, ap, ◌∙◌, sym, [], ◌∷◌, Option, some, Bool, true, false, arith, ℤ, length,
  get_or-set_self, length-set, ==_refl, length-append,
}
use danp.Types.{Packet, max_packet_size}
use danp.Osal.{Osal}
use danp.Node.{Node}
use danp.Route.{
  Interface, Routing, blank_interface, interface_at, route_lookup, lookup, find_interface_by_name,
}
use danp.Route.Transmit.{
  Registrable, registered, register_interface-eq, find_interface_by_name-register,
}
use danp.Route.Text.{is_space, is_delimiter}
use danp.Socket.Create.{socket_init}
use danp.Receive
use danp.Driver.Setup.{zmq_init, zmq_name, put_interface}
use danp.Example.Route.{
  set_up, route_entry, decimal, Configured, installed, configure_route, configure_named,
}
use danp.Example.Route.Decimal.{All, length-decimal}
use danp.Example.Route.Entry.{configure_route-installs, IsPlain}

-- The ZMQ interface as its driver fills it in.
abbrev pub zmq_interface : Routing → (i local_node : ℕ) → (Packet → ℤ) → Interface
zmq_interface r i local_node tx = record (interface_at r i) {
  name = some zmq_name;
  address = local_node;
  mtu = max_packet_size;
  tx_func = some tx;
}

abbrev pub with_zmq : Routing → (i local_node : ℕ) → (Packet → ℤ) → Routing
with_zmq r i local_node tx = put_interface r i (zmq_interface r i local_node tx)

abbrev pub ready : Routing → (i local_node : ℕ) → (Packet → ℤ) → Routing
ready r i local_node tx = registered (with_zmq r i local_node tx) i

-- The routing data at the end of the set-up.
abbrev pub routed : Routing → (i local_node : ℕ) → (Packet → ℤ) → ℕ → Routing
routed r i local_node tx peer = record (ready r i local_node tx) {
  route_table = record { dest_node = peer; iface = i } ∷ [];
}

zmq_name-IsPlain : All IsPlain zmq_name
unfolding is_space is_delimiter
zmq_name-IsPlain = (
  record { solid = refl; joins = refl },
  (record { solid = refl; joins = refl }, (record { solid = refl; joins = refl }, tt)),
)

entry-short : (peer : ℕ) → length (route_entry peer zmq_name) < 32
unfolding route_entry
entry-short peer =
    omega (arith, length-append (decimal peer) (b':' ∷ zmq_name), length-decimal peer)

module _ (r : Routing) (i local_node : ℕ) (tx : Packet → ℤ) (inside : i < length r.interfaces) where
  with_zmq-at : interface_at (with_zmq r i local_node tx) i ≡ zmq_interface r i local_node tx
  with_zmq-at =
      get_or-set_self r.interfaces i (zmq_interface r i local_node tx) blank_interface inside

  with_zmq-Registrable : Registrable (with_zmq r i local_node tx) i zmq_name
  with_zmq-Registrable = record {
    in_range = omega (arith, inside, length-set r.interfaces i (zmq_interface r i local_node tx));
    named = ap (λ (f : Interface). f.name) with_zmq-at;
    mtu = λ e. omega (arith, e, ap (λ (f : Interface). f.mtu) with_zmq-at);
    driver = λ e. cc (e, ap (λ (f : Interface). f.tx_func) with_zmq-at);
  }

  ready-at :
      interface_at (ready r i local_node tx) i
      ≡ record (zmq_interface r i local_node tx) { next = r.iface_list }
  ready-at =
      get_or-set_self (with_zmq r i local_node tx).interfaces i
        (record (interface_at (with_zmq r i local_node tx) i) { next = r.iface_list })
        blank_interface with_zmq-Registrable.in_range
      ∙ ap (λ (f : Interface). record f { next = r.iface_list }) with_zmq-at

  ready-found : find_interface_by_name (ready r i local_node tx) zmq_name ≡ some i
  ready-found =
      ap (λ (q : Routing). find_interface_by_name q zmq_name)
        (sym (register_interface-eq (with_zmq r i local_node tx) i zmq_name with_zmq-Registrable))
      ∙ find_interface_by_name-register (with_zmq r i local_node tx) i zmq_name with_zmq-Registrable

  configure_ready :
      (peer : ℕ)
      → peer ≤ 65535
      → configure_route true true peer zmq_name (ready r i local_node tx)
        ≡ (installed, routed r i local_node tx peer)
  configure_ready peer small =
      configure_route-installs peer zmq_name small zmq_name-IsPlain (λ e. cc)
        (ready r i local_node tx) i (entry-short peer) ready-found

  configure_named-ready :
      (peer : ℕ)
      → peer ≤ 65535
      → configure_named true true i peer (ready r i local_node tx)
        ≡ some (installed, routed r i local_node tx peer)
  unfolding configure_named
  configure_named-ready peer small =
      let named = ap (λ (f : Interface). f.name) ready-at in
      rw (named, configure_named) (ap some (configure_ready peer small))

  routed-lookup : (peer : ℕ) → route_lookup true (routed r i local_node tx peer) peer ≡ some i
  unfolding route_lookup lookup
  routed-lookup peer = rw (==_refl peer) refl

module _ {o : Osal} where
  init-routing :
      (s b : Bool) (local_node : ℕ) (n : Node o)
      → ((Receive.init s b local_node n).routing ≡ n.routing)
        × ((Receive.init s b local_node n).config_local_node ≡ local_node)
  unfolding Receive.init socket_init
  init-routing false b local_node n = (refl, refl)
  init-routing true b local_node n = (refl, refl)

  pub set_up-eq :
      (s b : Bool) (i local_node peer : ℕ) (tx : Packet → ℤ) (n : Node o)
      → i < length n.routing.interfaces
      → peer ≤ 65535
      → set_up true true true s b i local_node peer tx n
        ≡ some (
          installed,
          Receive.init s b local_node
              (record n { routing = routed n.routing i local_node tx peer }),
        )
  unfolding set_up zmq_init
  set_up-eq s b i local_node peer tx n inside small =
      let registers =
        register_interface-eq (with_zmq n.routing i local_node tx) i zmq_name
          (with_zmq-Registrable n.routing i local_node tx inside) in
      let named = configure_named-ready n.routing i local_node tx inside peer small in
      rw (registers, set_up, named) refl

  -- The set-up went to its end and printed that the route is installed; the interface has the
  -- node's address, under which danp_input takes packets, and the MTU and the driver of ZMQ;
  -- danp_init was given the same node; and danp_route_lookup leads to the interface for the other
  -- node.
  pub record MainReady (result : Option (Configured × Node o)) (i local_node peer : ℕ)
      (tx : Packet → ℤ) : Type 0 where
    pub node : Node o
    pub finished : result ≡ some (installed, node)
    pub address : (interface_at node.routing i).address ≡ local_node
    pub mtu : (interface_at node.routing i).mtu ≡ max_packet_size
    pub driver : (interface_at node.routing i).tx_func ≡ some tx
    pub same_node : node.config_local_node ≡ local_node
    pub route : route_lookup true node.routing peer ≡ some i

  pub set_up-ready :
      (s b : Bool) (i local_node peer : ℕ) (tx : Packet → ℤ) (n : Node o)
      → i < length n.routing.interfaces
      → peer ≤ 65535
      → MainReady (set_up true true true s b i local_node peer tx n) i local_node peer tx
  set_up-ready s b i local_node peer tx n inside small =
      let r = routed n.routing i local_node tx peer in
      let (same_routing, kept) = init-routing s b local_node (record n { routing = r }) in
      let at_end = ready-at n.routing i local_node tx inside in
      record {
        node = Receive.init s b local_node (record n { routing = r });
        finished = set_up-eq s b i local_node peer tx n inside small;
        address = rw same_routing (ap (λ (f : Interface). f.address) at_end);
        mtu = rw same_routing (ap (λ (f : Interface). f.mtu) at_end);
        driver = rw same_routing (ap (λ (f : Interface). f.tx_func) at_end);
        same_node = kept;
        route = rw same_routing (routed-lookup n.routing i local_node tx inside peer);
      }
