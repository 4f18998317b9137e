-- ===== src/Resources.antt =====
-- src/resource_manager.rs: the limits of a node.
pub mod Connections
pub mod Limit
pub mod Tests
