-- ===== src/Pppoe.antt =====
-- rp-pppoe: the PPPoE client, server and relay of rp-pppoe/src.
pub mod Packet
pub mod Tags
pub mod Framing
pub mod Bytes
pub mod Clamp
pub mod Relay
pub mod Server
pub mod Discovery
mod Tests
