-- ===== src/Tests.antt =====
-- Inputs on which the properties apply, and tests of the definitions at fixed inputs.
mod Os
mod Packets
mod Routes
mod Sockets
mod States
mod Runs
mod Exchange
mod Segments
mod Repeats
mod Locking
mod Drivers
mod Examples
mod Handshakes
mod Receiving
