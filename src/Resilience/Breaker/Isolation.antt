-- ===== src/Resilience/Breaker/Isolation.antt =====
-- src/network_resilience.rs, `CircuitBreaker`: the circuits of different peers.
use cyberfly_rust_node.Common.{ℕ, ◌+◌, ◌≡◌, ◌≢◌, refl, [], ◌∷◌, arith, length}
use cyberfly_rust_node.Common.Assoc.{lookup, lookup-insert, lookup-remove, nat_eq}
use cyberfly_rust_node.Resilience.Breaker.{
  EndpointId, closed, CircuitBreakerConfig, PeerStates, allow_peer, succeed_peer, fail_peer, entry,
  should_allow, record_success, record_failure, get_state, reset, get_summary,
}

-- No request, success, failure or reset of one peer changes the circuit of another, and a reset
-- peer's circuit is closed.
pub peers_apart :
    (config : CircuitBreakerConfig) (now : ℕ) (peer other : EndpointId) (peers : PeerStates)
    → peer ≢ other
    → (lookup other (should_allow config now peer peers).0 ≡ lookup other peers)
      × (lookup other (record_success config peer peers) ≡ lookup other peers)
      × (lookup other (record_failure config now peer peers) ≡ lookup other peers)
      × (lookup other (reset peer peers) ≡ lookup other peers)
      × (get_state peer (reset peer peers) ≡ closed)
unfolding should_allow record_success record_failure reset get_state
peers_apart config now peer other peers ne = (
  ground
      (arith, lookup-insert peer other (allow_peer config now (entry config peer peers)).0 peers),
  ground (arith, lookup-insert peer other (succeed_peer config (entry config peer peers)) peers),
  ground (arith, lookup-insert peer other (fail_peer config now (entry config peer peers)) peers),
  ground (arith, lookup-remove peer other peers),
  ground (arith, lookup-remove peer peer peers),
)

-- The summary counts every peer once, by its state.
pub summary_total :
    (peers : PeerStates)
    → ((get_summary peers).total_peers ≡ length peers)
      × ((get_summary peers).closed_peers
            + (get_summary peers).open_peers
            + (get_summary peers).half_open_peers
          ≡ length peers)
unfolding get_summary
summary_total [] = (refl, refl)
summary_total ((k, p) ∷ peers) = ground (arith, summary_total peers)
