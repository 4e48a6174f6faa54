-- ===== src/Exchange/Handshake.antt =====
-- The handshake of a stream, danp_connect of one node with a listening socket of another: the
-- SYN, the SYN with ACK, and the ACK.
pub mod Branches
pub mod Caller
pub mod Listener
pub mod Arrival
pub mod Established
