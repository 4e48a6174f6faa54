-- ===== src/Lib.antt =====
-- A verification library for danp, a packet network library in C for embedded nodes: datagrams
-- (DGRAM) and reliable streams (STREAM) between numbered nodes, over interchangeable drivers.
--
-- The parts of the program and the files that model them (paths from the repository's root):
--
-- - include/danp/danp.h, the constants, enumerations, `danp_packet_t`: Types.
-- - src/danp.c, `danp_pack_header`, `danp_unpack_header`: Header. `danp_init` and `danp_input`
--   (`init`, `input`): Receive.
-- - src/danp_buffer.c, the pool of packets: Buffer, with `danp_buffer_init`, `danp_buffer_allocate`,
--   `danp_buffer_free`, `danp_buffer_get_free_count` without their prefix.
-- - src/danp_route.c: Route.Text for the text routines (`danp_trim` and the C library's functions
--   that `danp_route_table_load` calls), Route for the table, for
--   `danp_register_interface` and for `danp_route_tx`; `danp_route_table_load` is
--   `route_table_load`. Route.Lock for `danp_route_lock` and `danp_route_unlock`, as the steps of
--   threads that run at once.
-- - src/danp_socket.c: Socket.Find (`danp_find_socket`, `danp_port_in_use`), Socket.Control
--   (`danp_send_control`, `danp_listen`, `danp_close`), Socket.Create (`danp_socket_init`,
--   `danp_socket`), Socket.Bind (`danp_bind`), Socket.Connect (`danp_connect`, `danp_accept`),
--   Socket.Transfer (`danp_send`, `danp_send_to`, `danp_recv`, `danp_recv_from`), Socket.Input
--   (`danp_socket_input_handler`), Socket.Stats (`danp_print_stats`, as the calls of the print
--   function).
-- - src/drivers: Driver, the frames that the loopback, the radio and the ZMQ driver put on their
--   medium and what they hand to `danp_input`; Driver.Setup, the set-up of the three and the queue
--   of the loopback.
-- - example/example_definitions.h, example/dgram and example/stream, each with client.c and
--   server.c: Example. Example.Route for the definitions and the mains (`configure_route`, and
--   `main` up to the creation of its thread, `set_up`), Example.Dgram for `taskClient` and
--   `taskEchoServer`, Example.Stream for `taskClient` and `taskStreamServer`.
--
-- How they interact: a driver hands a frame to `danp_input`, which takes a packet from the pool,
-- fills it and, if it is addressed to the interface, passes it to `danp_socket_input_handler`. That
-- finds the socket, changes its state, and queues the packet or gives it back to the pool. The
-- sending functions take a packet from the pool, pass it to `danp_route_tx`, which looks its
-- destination up in the table and calls the driver, and give it back.
--
-- Two modules put the parts together. Run is the relation of all runs of a node: any sequence of the
-- functions above, from its static data on, with the runs of other threads inside the waits; a wait
-- is itself a run. Socket.Sound, Socket.Links and Socket.Owned hold what the functions keep: links
-- and ports in range, the list of active sockets, and the owner of each packet. Exchange follows a
-- datagram from a node over its driver into another node, a segment of a stream and its
-- acknowledgement back, a segment that arrives again, and the three packets of a handshake.
-- Example.Tasks has the tasks of the example programs as runs.
--
-- The state of the program is the record `Node` of Node: what the C files keep in static variables.
-- A pointer to a socket, a packet or an interface is its index in the array that it points into;
-- NULL is `none`; the list of active sockets is the head and the `next` links. A function that
-- changes static data takes the node and returns it. A packet handed to a driver is noted in `sent`.
--
-- Numbers are the native natural numbers. A wrap-around is written out (`u8`, `u16`, `% 2 ^ w`),
-- and an `int32_t` result is an integer. An operation that would be undefined in C, such as a copy
-- past an array, returns `none`.
--
-- The OS layer is not in the repository: it is a parameter, the record `Osal` of Osal, of message
-- queues, semaphores and mutexes, and `IsOsal` is what its documentation says of them. A mutex
-- answers the same for all of a call. A NULL handle makes a call on it fail. Where a function waits,
-- what the other threads do meanwhile is an argument `await`, a function on the node. That a new
-- message queue is empty is part of `IsOsal`. Tests.Os
-- gives an OS layer for which `IsOsal` holds.
--
-- Loops are structural recursion where they run over an array, and recursion on fuel elsewhere: 257
-- for the list of interfaces, 20 and 21 for the list of sockets, as many as the socket pool has
-- places and one more, 64 for the search of a port, which comes back to its start after 63, the
-- number of waiting entries for emptying a queue, and any number for the retries of `danp_send`,
-- where the theorems say how much is enough. The echo server, whose loop has no end, is its first
-- rounds; the sessions of the stream server have fuel of their own, as nothing bounds a session.
--
-- Taken as given: a little-endian host for the bytes of the header word, and frames of at most
-- 65535 bytes. Not modelled: the log macro and its handler, which only hand
-- text to a callback; the threads and the media of the drivers: what the OS layer, `malloc`, the
-- radio and ZMQ answer is an argument of the set-up; what the examples print, but for the
-- replies that their clients print, and their log callback; the tests. A driver's `tx_func` is a
-- function of the packet: a driver that blocks in it, or calls `danp_input` from it, as the loopback
-- of the tests does, is not covered by Run and Exchange. The call of a NULL `tx_func`, which
-- `danp_register_interface` keeps out of the list, is the result -1 in the model.
--
-- Prelude holds the names and lemmas that the parts share; Tests the inputs on which the theorems
-- are applied, and tests of the definitions.
pub mod Prelude
pub mod Types
pub mod Header
pub mod Buffer
pub mod Route
pub mod Osal
pub mod Node
pub mod Socket
pub mod Receive
pub mod Driver
pub mod Run
pub mod Exchange
pub mod Example
pub mod Tests
