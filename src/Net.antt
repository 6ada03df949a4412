-- ===== src/Net.antt =====
-- The network, src/net and src/mgr/mio_event_mgr.rs.
pub mod Values
pub mod Buffer
pub mod Msg
pub mod Socket
pub mod Protocol
pub mod Scripts
pub mod Events
pub mod Sample
pub mod Examples
