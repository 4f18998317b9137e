-- ===== src/Resilience.antt =====
-- src/network_resilience.rs: which peers a node talks to.
pub mod Breaker
pub mod Bandwidth
pub mod Reputation
pub mod Ranking
pub mod Scores
pub mod Standing
pub mod Combined
pub mod Tests
