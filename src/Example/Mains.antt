-- ===== src/Example/Mains.antt =====
-- The mains of the four example programs.
use danp.Prelude.{ℕ, ◌<◌, Bool, true, ℤ, arith, length}
use danp.Types.{Packet}
use danp.Osal.{Osal}
use danp.Node.{Node}
use danp.Example.Dgram
use danp.Example.Stream
use danp.Example.Route.{node_server, node_client}
use danp.Example.Route.Ready.{MainReady, set_up-ready}

module _ {o : Osal} where
  -- The set-up of each of the four programs, with a ZMQ context, the routing lock and memory,
  -- whether the mutexes of danp_init can be made or not, is ready: the clients' are node 20 with a
  -- route to node 10, the servers' node 10 with a route to node 20.
  pub mains_ready :
      (s b : Bool) (i : ℕ) (tx : Packet → ℤ) (n : Node o)
      → i < length n.routing.interfaces
      → MainReady (Dgram.client_main true true true s b i tx n) i node_client node_server tx
        × MainReady (Dgram.server_main true true true s b i tx n) i node_server node_client tx
        × MainReady (Stream.client_main true true true s b i tx n) i node_client node_server tx
        × MainReady (Stream.server_main true true true s b i tx n) i node_server node_client tx
  unfolding Dgram.client_main Dgram.server_main Stream.client_main Stream.server_main
  mains_ready s b i tx n inside = (
    set_up-ready s b i node_client node_server tx n inside (omega arith),
    set_up-ready s b i node_server node_client tx n inside (omega arith),
    set_up-ready s b i node_client node_server tx n inside (omega arith),
    set_up-ready s b i node_server node_client tx n inside (omega arith),
  )
