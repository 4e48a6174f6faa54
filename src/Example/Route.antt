-- ===== src/Example/Route.antt =====
-- The set-up that the example programs share: the ZMQ interface, the route to the other node, and
-- danp_init.
pub mod Decimal
pub mod Entry
pub mod Ready
use danp.Prelude.{
  ℕ, zero, suc, ◌+◌, ◌/◌, ◌%◌, List, [], ◌∷◌, ◌++◌, Bool, Option, none, some, ℤ, pos, negsuc, ltb,
  if◌then◌else◌, length,
}
use danp.Types.{Packet}
use danp.Osal.{Osal}
use danp.Node.{Node}
use danp.Route.{Routing, interface_at, register_interface, route_table_load}
use danp.Receive
use danp.Driver.Setup.{zmq_init}

-- example_definitions.h
abbrev pub node_server : ℕ
node_server = 10

abbrev pub node_client : ℕ
node_client = 20

abbrev pub stream_port : ℕ
stream_port = 46

abbrev pub dgram_port : ℕ
dgram_port = 47

-- "%u" of snprintf: the decimal digits, ten for an `unsigned int` of 32 bits.
unfoldable pub digits : (fuel : ℕ) → ℕ → List ℕ
digits zero n = []
digits (suc fuel) n =
    let before = digits fuel (n / 10) in
    if ltb n 10 then (b'0' + n) ∷ [] else before ++ (b'0' + n % 10) ∷ []

unfoldable pub decimal : ℕ → List ℕ
unfolding digits
decimal n = digits 10 n

-- "%u:%s"
unfoldable pub route_entry : (destination : ℕ) → (iface_name : List ℕ) → List ℕ
unfolding decimal
route_entry destination iface_name = decimal destination ++ b':' ∷ iface_name

-- Which of its three messages `configure_route` prints.
pub data Configured : Type 0 where
  unformatted refused installed : Configured

-- `configure_route`, with a buffer of 32 bytes for the entry and its NUL.
unfoldable pub configure_route :
    (lock memory : Bool)
    → (destination : ℕ) → (iface_name : List ℕ) → Routing
    → Configured × Routing
unfolding route_entry
configure_route lock memory destination iface_name r =
    let entry = route_entry destination iface_name in
    let (r', ret) = route_table_load lock memory (some entry) r in
    if ltb (length entry) 32
    then elim ret [
      | pos zero ↦ (installed, r')
      | pos (suc k) ↦ (refused, r')
      | negsuc k ↦ (refused, r')
    ]
    else (unformatted, r)

-- The calls of `main` from configure_route on the registered interface. `none` is the null pointer
-- that becomes the argument of "%s" where the interface has no name.
unfoldable pub configure_named :
    (lock memory : Bool) → (i peer : ℕ) → Routing → Option (Configured × Routing)
configure_named lock memory i peer r = elim (interface_at r i).name [
  | none ↦ none
  | some name ↦ some (configure_route lock memory peer name r)
]

module _ {o : Osal} where
  -- `main`, up to the creation of the task. `i` is the interface, and `tx` what its transmit
  -- function returns.
  unfoldable pub set_up :
      (lock memory context socket_mutex_made buffer_mutex_made : Bool)
      → (i local_node peer : ℕ) → (Packet → ℤ)
      → Node o
      → Option (Configured × Node o)
  set_up lock memory context socket_mutex_made buffer_mutex_made i local_node peer tx n =
      let registered =
        register_interface lock (some i) (zmq_init context i local_node tx n.routing) in
      elim (configure_named lock memory i peer registered) [
        | none ↦ none
        | some (done, routing) ↦ some (
          done,
          Receive.init socket_mutex_made buffer_mutex_made local_node
              (record n { routing = routing }),
        )
      ]
