-- ===== src/Gossip.antt =====
-- src/gossip_discovery.rs: signed announcements of nodes and what a node learns from them.
pub mod Message
pub mod Sender
pub mod Receiver
pub mod Authentic
pub mod Expired
pub mod Tests
