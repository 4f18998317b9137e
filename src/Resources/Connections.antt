-- ===== src/Resources/Connections.antt =====
-- src/resource_manager.rs: the limits, the counters, and `register_connection` with its guards. The
-- counters are atomic, so calls interleave between one access and the next.
use cyberfly_rust_node.Common.{
  ℕ, zero, suc, ◌+◌, ◌-◌, ◌*◌, ◌%◌, ◌^◌, Option, none, some, List, [], ◌∷◌, ltb, leb, if◌then◌else◌,
}
use cyberfly_rust_node.Common.Result.{Result, ok, err}

pub record ResourceLimits : Type 0 where
  pub max_memory_bytes : ℕ
  pub max_concurrent_operations : ℕ
  pub max_peer_connections : ℕ
  pub max_database_size_bytes : ℕ
  pub max_cache_entries : ℕ
  pub max_value_size_bytes : ℕ

abbrev pub default_limits : ResourceLimits
default_limits = record {
  max_memory_bytes = 4 * 1024 * 1024 * 1024;
  max_concurrent_operations = 1000;
  max_peer_connections = 100;
  max_database_size_bytes = 10 * 1024 * 1024 * 1024;
  max_cache_entries = 100000;
  max_value_size_bytes = 10 * 1024 * 1024;
}

pub record ResourceMetrics : Type 0 where
  pub operations_in_flight : ℕ
  pub active_connections : ℕ
  pub cache_entries : ℕ
  pub estimated_memory_bytes : ℕ

pub data LimitError : Type 0 where
  value_too_large connection_limit : LimitError

unfoldable pub check_value_size : ResourceLimits → ℕ → Result LimitError (Unit {0})
check_value_size limits size =
    if ltb limits.max_value_size_bytes size then err value_too_large else ok tt

unfoldable pub update_cache_size : ℕ → ResourceMetrics → ResourceMetrics
update_cache_size entries m = record m { cache_entries = entries }

unfoldable pub update_memory_estimate : ℕ → ResourceMetrics → ResourceMetrics
update_memory_estimate bytes m = record m { estimated_memory_bytes = bytes }

-- active_connections.fetch_add(1) and fetch_sub(1), on a usize.
abbrev fetch_add : ResourceMetrics → ResourceMetrics
fetch_add m = record m { active_connections = suc m.active_connections % 2 ^ 64 }

abbrev fetch_sub : ResourceMetrics → ResourceMetrics
fetch_sub m = record m { active_connections = (m.active_connections + (2 ^ 64 - 1)) % 2 ^ 64 }

-- The counters, the guards that are alive, and the calls of `register_connection` that have read a full
-- counter and not yet taken their addition back.
pub record Connections : Type 0 where
  pub metrics : ResourceMetrics
  pub guards : ℕ
  pub refused : ℕ

-- An access to the counter: the first one of a call, the second one of a call that is refused, and the
-- end of a guard.
pub data Access : Type 0 where
  register_connection take_back drop_guard : Access

unfoldable pub access : ResourceLimits → Access → Connections → Option Connections
access limits register_connection c =
    if leb limits.max_peer_connections c.metrics.active_connections
    then some (record c { metrics = fetch_add c.metrics; refused = suc c.refused })
    else some (record c { metrics = fetch_add c.metrics; guards = suc c.guards })
access limits take_back c = elim c.refused [
  | zero ↦ none
  | suc n ↦ some (record c { metrics = fetch_sub c.metrics; refused = n })
]
access limits drop_guard c = elim c.guards [
  | zero ↦ none
  | suc n ↦ some (record c { metrics = fetch_sub c.metrics; guards = n })
]

-- An interleaving of calls, as the sequence of their accesses; `none` where it cannot happen.
unfoldable pub interleaving : ResourceLimits → List Access → Connections → Option Connections
interleaving limits [] c = some c
interleaving limits (a ∷ accesses) c = elim (access limits a c) [
  | none ↦ none
  | some c' ↦ interleaving limits accesses c'
]

abbrev pub idle : Connections
idle = record {
  metrics = record {
    operations_in_flight = 0;
    active_connections = 0;
    cache_entries = 0;
    estimated_memory_bytes = 0;
  };
  guards = 0;
  refused = 0;
}
