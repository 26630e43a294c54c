-- ===== src/Xl2tpd.antt =====
-- xl2tpd: the L2TP daemon.
pub mod Scheduler
pub mod Control
pub mod Retransmit
pub mod Payload
pub mod Addresses
pub mod Hdlc
pub mod Access
pub mod Avp
mod Tests
