-- ===== src/Tcp.antt =====
-- The TCP relay (crates/remote/src/relays/tcp/mod.rs): packets are framed, written to one connection
-- after the other, and read back on the other side.
pub mod Frame
pub mod Writer
pub mod Handle
pub mod Fuel
pub mod Framed
pub mod Sendable
pub mod Delivery
pub mod Relayed
pub mod Returned
pub mod Tests
