-- ===== src/Exchange/Once.antt =====
-- A segment of a stream that arrives more than once, as when its acknowledgement was lost and
-- danp_send sent it again.
pub mod Arrivals
pub mod Delivered
