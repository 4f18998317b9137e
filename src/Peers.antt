-- ===== src/Peers.antt =====
-- src/peer_registry.rs: the peers that a node has discovered.
pub mod Meta
pub mod Registry
pub mod Invariant
pub mod Diverse
pub mod Turns
pub mod Chosen
pub mod Tests
