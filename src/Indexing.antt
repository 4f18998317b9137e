-- ===== src/Indexing.antt =====
-- src/indexing.rs: secondary indexes from the values of a field to the keys that have them.
pub mod Index
pub mod Manager
pub mod Apart
pub mod Relation
pub mod Tests
