-- ===== src/Retry.antt =====
-- src/retry.rs and the errors of src/error.rs: operations that are tried again.
pub mod Executor
pub mod Spec
pub mod Tests
pub mod Breaker
