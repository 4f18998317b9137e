-- ===== src/Storage.antt =====
-- src/storage.rs: values of nine types under keys, in blobs behind an index and a cache.
pub mod Value
pub mod Core
pub mod Sound
pub mod Read
pub mod Lost
pub mod Typed
pub mod Ops
pub mod Series
pub mod Keys
pub mod Listings
pub mod Entries
pub mod Listed
pub mod ListingTests
pub mod Geo
pub mod Near
pub mod Documents
pub mod Writes
pub mod Slices
pub mod Expiry
pub mod Crates
pub mod Tests
