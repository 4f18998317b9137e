-- ===== src/Resilience/Breaker/Invariant.antt =====
-- src/network_resilience.rs, `CircuitBreaker`: what holds of every peer's state.
use cyberfly_rust_node.Common.{ℕ, ◌%◌, ◌^◌, ◌<◌, ◌≡◌, true, arith, length, is_some}
use cyberfly_rust_node.Resilience.Breaker.{
  closed, open_, half_open, CircuitBreakerConfig, PeerCircuitState, allow_open, allow_peer,
  succeed_peer, count_failure, fail_peer,
}

module _ (config : CircuitBreakerConfig) where
  -- A closed circuit is below its threshold, an open one knows when it opened, and one that is half
  -- open still lacks a success.
  pub record IsSound (p : PeerCircuitState) : Type 0 where
    pub below : p.state ≡ closed → p.failure_count < config.failure_threshold
    pub dated : p.state ≡ open_ → is_some p.opened_at ≡ true
    pub testing : p.state ≡ half_open → p.success_count < config.success_threshold
    pub counted : p.failure_count ≡ length p.failure_timestamps % 2 ^ 32

  -- A request, a success or a failure at any time keeps the state of a peer sound, where both
  -- thresholds are positive.
  pub peer-IsSound :
      (now : ℕ) (p : PeerCircuitState)
      → 0 < config.failure_threshold
      → 0 < config.success_threshold
      → IsSound p
      → IsSound (allow_peer config now p).0
        × IsSound (succeed_peer config p)
        × IsSound (fail_peer config now p)
  unfolding allow_peer allow_open succeed_peer fail_peer count_failure
  peer-IsSound now p hf hs s = (ground arith, ground arith, ground arith)
