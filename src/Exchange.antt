-- ===== src/Exchange.antt =====
-- The functions of src/danp_socket.c, src/danp_route.c and src/danp.c together, over a driver between
-- two nodes: a datagram from danp_send_to to danp_recv_from, a segment of a stream from danp_send to
-- its peer and the acknowledgement back, a segment that arrives again, and the handshake of
-- danp_connect and danp_accept.
pub mod Reception
pub mod Sender
pub mod Peer
pub mod Branches
pub mod Stream
pub mod Segment
pub mod Acknowledged
pub mod Once
pub mod Handshake
pub mod Receiver
pub mod Datagram
