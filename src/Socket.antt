-- ===== src/Socket.antt =====
-- src/danp_socket.c. The child modules hold its functions, in the order of the calls between them,
-- and the proofs about each beside it.
pub mod Kept
pub mod Links
pub mod Find
pub mod Control
pub mod Create
pub mod Bind
pub mod Connect
pub mod Transfer
pub mod Input
pub mod Sound
pub mod Owned
pub mod Stats
