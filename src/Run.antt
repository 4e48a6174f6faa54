-- ===== src/Run.antt =====
-- The library at work: the calls of its functions by the threads of a program, and the frames that
-- the drivers hand to `danp_input`, one after the other, from src/danp.c, src/danp_socket.c and
-- src/danp_route.c. While a call waits, others run.
pub mod Invariant
pub mod Ownership
use danp.Prelude.{ℕ, ◌<◌, ◌≡◌, Bool, false, List, [], Option, none, some, ℤ, replicate}
use danp.Types.{SocketType, blank_packet, pool_size}
use danp.Osal.{Osal}
use danp.Route.{Routing, register_interface, route_table_load}
use danp.Node.{Node, blank_socket, max_socket_count}
use danp.Socket.Create.{create}
use danp.Socket.Bind.{bind}
use danp.Socket.Connect.{connect, accept}
use danp.Socket.Control.{listen, close}
use danp.Socket.Transfer.{Delivery, send, send_to, recv, recv_from}
use danp.Receive.{init, input}

-- The static data as a program is loaded: zero, but for `next_ephemeral_port`.
abbrev pub static_data : (o : Osal) → Routing → Node o
static_data o routing = record {
  config_local_node = 0;
  pool = record {
    packets = replicate pool_size blank_packet;
    free_map = replicate pool_size false;
  };
  routing = routing;
  socket_pool = replicate max_socket_count (blank_socket o);
  socket_list = none;
  next_ephemeral_port = 1;
  sent = [];
}

-- The node after danp_init. Interfaces and routes may have been set up before it.
unfoldable pub start :
    (o : Osal) → (socket_mutex_made buffer_mutex_made : Bool) → (local_node : ℕ) → Routing → Node o
start o socket_mutex_made buffer_mutex_made local_node routing =
    init socket_mutex_made buffer_mutex_made local_node (static_data o routing)

module _ {o : Osal} where
  -- `Run n m`: some calls, in some order and interleaved at their waits, lead from `n` to `m`. What
  -- runs while a call waits is the argument `await` of the call. Sockets are pointers to the pool,
  -- where that matters.
  pub data Run : Node o → Node o → Type 0 where
    nothing : (n : Node o) → Run n n
    followed : (n m k : Node o) → Run n m → Run m k → Run n k
    creates : (type : SocketType) (n : Node o) → Run n (create type n).1
    binds : (i port : ℕ) (n : Node o) → Run n (bind i port n).1
    listens : (i : ℕ) (backlog : ℤ) (n : Node o) → Run n (listen i backlog n).1
    closes : (i : ℕ) (n : Node o) → i < max_socket_count → Run n (close i n).1
    connects :
        (await : Node o → Node o) (i node port : ℕ) (n : Node o)
        → ((m : Node o) → Run m (await m))
        → Run n (connect await i node port n).1
    accepts :
        (await : Node o → Node o) (i : ℕ) (n : Node o)
        → ((m : Node o) → Run m (await m))
        → Run n (accept await i n).1
    sends :
        (await : ℕ → Node o → Node o) (fuel i : ℕ) (bytes : List ℕ) (n m : Node o) (ret : ℤ)
        → ((k : ℕ) (m : Node o) → Run m (await k m))
        → send await fuel i bytes n ≡ some (ret, m)
        → Run n m
    sends_to :
        (i : ℕ) (bytes : List ℕ) (dst_node dst_port : ℕ) (n : Node o)
        → Run n (send_to i bytes dst_node dst_port n).1
    receives :
        (await : Node o → Node o) (i max_len : ℕ) (n : Node o)
        → ((m : Node o) → Run m (await m))
        → Run n (recv await i max_len n).2
    receives_from :
        (await : Node o → Node o) (i max_len : ℕ) (n m : Node o) (ret : ℤ) (got : Option Delivery)
        → ((m : Node o) → Run m (await m))
        → recv_from await i max_len n ≡ some (ret, got, m)
        → Run n m
    gets_frame : (iface : ℕ) (raw : List ℕ) (n m : Node o) → input iface raw n ≡ some m → Run n m
    registers :
        (lock : Bool) (iface : Option ℕ) (n : Node o)
        → Run n (record n { routing = register_interface lock iface n.routing })
    loads_routes :
        (lock memory : Bool) (table : Option (List ℕ)) (n : Node o)
        → Run n (record n { routing = (route_table_load lock memory table n.routing).0 })
