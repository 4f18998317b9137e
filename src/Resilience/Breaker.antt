-- ===== src/Resilience/Breaker.antt =====
-- src/network_resilience.rs, `CircuitBreaker`: a state machine for each peer. Instants and durations
-- are numbers of one unit; `duration_since` of a later instant is zero, as the subtraction here.
pub mod Invariant
pub mod Trips
pub mod Isolation
use cyberfly_rust_node.Common.{
  ℕ, suc, ◌+◌, ◌-◌, ◌%◌, ◌^◌, Bool, true, false, Option, none, some, List, [], ◌∷◌, ◌++◌, ltb, leb,
  if◌then◌else◌, length, filter, unwrap_or,
}
use cyberfly_rust_node.Common.Assoc.{lookup, insert, remove, nat_eq}

pub data CircuitState : Type 0 where
  closed open_ half_open : CircuitState

pub record CircuitBreakerConfig : Type 0 where
  pub failure_threshold : ℕ
  pub recovery_timeout : ℕ
  pub success_threshold : ℕ
  pub failure_window : ℕ

pub record PeerCircuitState : Type 0 where
  pub state : CircuitState
  pub failure_count : ℕ
  pub success_count : ℕ
  pub last_failure : Option ℕ
  pub opened_at : Option ℕ
  pub failure_timestamps : List ℕ

abbrev pub default_state : PeerCircuitState
default_state = record {
  state = closed;
  failure_count = 0;
  success_count = 0;
  last_failure = none;
  opened_at = none;
  failure_timestamps = [];
}

abbrev pub EndpointId : Type 0
EndpointId = ℕ

abbrev pub PeerStates : Type 0
PeerStates = List (EndpointId × PeerCircuitState)

module _ (config : CircuitBreakerConfig) where
  -- Open: blocked until the recovery timeout has passed since the circuit opened.
  unfoldable pub allow_open : ℕ → Option ℕ → PeerCircuitState → PeerCircuitState × Bool
  allow_open now none p = (p, false)
  allow_open now (some opened_at) p =
      if leb config.recovery_timeout (now - opened_at)
      then (record p { state = half_open; success_count = 0 }, true)
      else (p, false)

  unfoldable pub allow_peer : ℕ → PeerCircuitState → PeerCircuitState × Bool
  allow_peer now p = elim p.state [
    | closed ↦ (p, true)
    | open_ ↦ allow_open now p.opened_at p
    | half_open ↦ (p, true)
  ]

  unfoldable pub succeed_peer : PeerCircuitState → PeerCircuitState
  succeed_peer p = elim p.state [
    | closed ↦ record p { failure_count = 0; failure_timestamps = [] }
    | half_open ↦
        if leb config.success_threshold (p.success_count + 1)
        then record p {
          state = closed;
          failure_count = 0;
          success_count = 0;
          opened_at = none;
          failure_timestamps = [];
        }
        else record p { success_count = p.success_count + 1 }
    | open_ ↦ p
  ]

  -- The failures of the window, with the present one.
  unfoldable pub recent_failures : ℕ → List ℕ → List ℕ
  recent_failures now failures =
      filter (λ t. ltb (now - t) config.failure_window) failures ++ now ∷ []

  -- The counters are written first, then the state.
  unfoldable pub count_failure : ℕ → PeerCircuitState → PeerCircuitState
  count_failure now p =
      let recent = recent_failures now p.failure_timestamps in
      record p {
        failure_timestamps = recent;
        failure_count = length recent % 2 ^ 32;
        last_failure = some now;
      }

  unfoldable pub fail_peer : ℕ → PeerCircuitState → PeerCircuitState
  fail_peer now p =
      let q = count_failure now p in
      elim p.state [
        | closed ↦
            if leb config.failure_threshold q.failure_count
            then record q { state = open_; opened_at = some now }
            else q
        | half_open ↦ record q { state = open_; opened_at = some now; success_count = 0 }
        | open_ ↦ record q { opened_at = some now }
      ]

  -- entry(peer_id).or_default()
  abbrev pub entry : EndpointId → PeerStates → PeerCircuitState
  entry peer_id peers = unwrap_or (lookup peer_id peers) default_state

  unfoldable pub should_allow : ℕ → EndpointId → PeerStates → PeerStates × Bool
  should_allow now peer_id peers =
      let (p, allowed) = allow_peer now (entry peer_id peers) in (insert peer_id p peers, allowed)

  unfoldable pub record_success : EndpointId → PeerStates → PeerStates
  record_success peer_id peers = insert peer_id (succeed_peer (entry peer_id peers)) peers

  unfoldable pub record_failure : ℕ → EndpointId → PeerStates → PeerStates
  record_failure now peer_id peers = insert peer_id (fail_peer now (entry peer_id peers)) peers

unfoldable pub get_state : EndpointId → PeerStates → CircuitState
get_state peer_id peers = elim (lookup peer_id peers) [ none ↦ closed | some p ↦ p.state ]

unfoldable pub reset : EndpointId → PeerStates → PeerStates
reset peer_id peers = remove peer_id peers

unfoldable pub clear_all : PeerStates → PeerStates
clear_all peers = []

pub record CircuitBreakerSummary : Type 0 where
  pub total_peers : ℕ
  pub closed_peers : ℕ
  pub open_peers : ℕ
  pub half_open_peers : ℕ

abbrev tally : CircuitState → CircuitBreakerSummary → CircuitBreakerSummary
tally closed s = record s { total_peers = s.total_peers + 1; closed_peers = s.closed_peers + 1 }
tally open_ s = record s { total_peers = s.total_peers + 1; open_peers = s.open_peers + 1 }
tally half_open s = record s {
  total_peers = s.total_peers + 1;
  half_open_peers = s.half_open_peers + 1;
}

unfoldable pub get_summary : PeerStates → CircuitBreakerSummary
get_summary [] = record { total_peers = 0; closed_peers = 0; open_peers = 0; half_open_peers = 0 }
get_summary ((k, p) ∷ peers) = tally p.state (get_summary peers)
