-- ===== src/Proto.antt =====
-- The packets that remote relays exchange (crates/remote/src/proto.rs), and the registry of message
-- types that decodes their bodies (src/type_tag.rs).
pub mod Registry
pub mod Packet
pub mod Decode
pub mod RoundTrip
pub mod Headers
pub mod Panics
pub mod Tests
