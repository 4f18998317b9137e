-- ===== src/Resilience/Combined.antt =====
-- src/network_resilience.rs, `NetworkResilience`: circuits and reputations together.
use cyberfly_rust_node.Common.{ℕ, Bool, true, false, not, Option, List, [], ◌∷◌, if◌then◌else◌}
use cyberfly_rust_node.Common.Float.{Float}
use cyberfly_rust_node.Resilience.Breaker.{
  EndpointId, CircuitBreakerConfig, CircuitBreakerSummary, PeerCircuitState, should_allow,
  record_success, record_failure, get_summary,
}
use cyberfly_rust_node.Resilience.Reputation.{
  ReputationConfig, PeerReputation, record_sync_success, record_sync_failure,
  record_message_success, record_message_failure, record_bytes_sent, apply_decay, unban,
}
use cyberfly_rust_node.Resilience.Ranking.{ReputationSummary, is_banned, get_reputation_summary}

-- The throttle stands apart: no operation here uses it.
pub record NetworkResilience (F : Type 0) : Type 0 where
  pub circuit_breaker : List (EndpointId × PeerCircuitState)
  pub reputation : List (EndpointId × PeerReputation F)

module _ {F : Type 0} (fl : Float F) (circuit : CircuitBreakerConfig)
    (config : ReputationConfig F) where
  unfoldable pub new_resilience : NetworkResilience F
  new_resilience = record { circuit_breaker = []; reputation = [] }

  -- The circuit's answer comes first, and may move the circuit.
  unfoldable pub should_communicate :
      ℕ → EndpointId → NetworkResilience F → NetworkResilience F × Bool
  should_communicate now peer n =
      let (circuits, allowed) = should_allow circuit now peer n.circuit_breaker in
      let n' = record n { circuit_breaker = circuits } in
      if not allowed
      then (n', false)
      else if is_banned fl peer n.reputation
      then (n', false)
      else (n', true)

  unfoldable pub succeed_with :
      ℕ → EndpointId → Option F → NetworkResilience F → NetworkResilience F
  succeed_with now peer latency n = record n {
    circuit_breaker = record_success circuit peer n.circuit_breaker;
    reputation = record_sync_success fl config now peer latency n.reputation;
  }

  unfoldable pub fail_with : ℕ → EndpointId → NetworkResilience F → NetworkResilience F
  fail_with now peer n = record n {
    circuit_breaker = record_failure circuit now peer n.circuit_breaker;
    reputation = record_sync_failure fl config now peer n.reputation;
  }

  unfoldable pub get_resilience_summary :
      NetworkResilience F → CircuitBreakerSummary × ReputationSummary fl
  get_resilience_summary n = (get_summary n.circuit_breaker, get_reputation_summary fl n.reputation)

  -- What the node does with it: the operations of the parts and of the whole.
  pub data Event : Type 0 where
    ask : ℕ → EndpointId → Event
    success : ℕ → EndpointId → Option F → Event
    failure : ℕ → EndpointId → Event
    message_success : ℕ → EndpointId → ℕ → Event
    message_failure : ℕ → EndpointId → Event
    bytes_sent : ℕ → EndpointId → ℕ → Event
    decay : ℕ → Event
    unban_ : EndpointId → Event

  unfoldable pub happen : Event → NetworkResilience F → NetworkResilience F
  happen (ask now peer) n = (should_communicate now peer n).0
  happen (success now peer latency) n = succeed_with now peer latency n
  happen (failure now peer) n = fail_with now peer n
  happen (message_success now peer bytes) n = record n {
    reputation = record_message_success fl config now peer bytes n.reputation;
  }
  happen (message_failure now peer) n = record n {
    reputation = record_message_failure fl config now peer n.reputation;
  }
  happen (bytes_sent now peer bytes) n = record n {
    reputation = record_bytes_sent fl config now peer bytes n.reputation;
  }
  happen (decay now) n = record n { reputation = apply_decay fl config now n.reputation }
  happen (unban_ peer) n = record n { reputation = unban fl config peer n.reputation }

  unfoldable pub happen_all : List Event → NetworkResilience F → NetworkResilience F
  happen_all [] n = n
  happen_all (e ∷ events) n = happen_all events (happen e n)
