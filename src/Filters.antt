-- ===== src/Filters.antt =====
-- src/filters.rs: queries over the values of the storage, with conditions, order, pages and buckets.
pub mod Json
pub mod Series
pub mod Plain
pub mod Pages
pub mod Ordered
pub mod Hits
pub mod Rows
pub mod Buckets
pub mod Tests
