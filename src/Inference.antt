-- ===== src/Inference.antt =====
-- src/inference.rs: the jobs of a node and the scheduler that hands them out.
pub mod Job
pub mod Scheduler
pub mod Best
pub mod Steps
pub mod Pull
pub mod Timeouts
pub mod Tests
