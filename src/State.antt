-- ===== src/State.antt =====
-- src/state_manager.rs: the state of the node, of its peers and of its databases.
pub mod App
pub mod Counts
pub mod Tests
