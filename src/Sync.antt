-- ===== src/Sync.antt =====
-- src/sync.rs: replication of signed operations between nodes.
pub mod Operation
pub mod Store
pub mod Query
pub mod Blobs
pub mod Manager
pub mod Lww
pub mod Invariant
pub mod Ascending
pub mod Paging
pub mod Ties
pub mod Transfer
pub mod Monotone
pub mod Persist
pub mod Startup
pub mod Tests
pub mod Merge
pub mod Remerge
pub mod Cases
pub mod Replies
pub mod Saved
pub mod TieCase
