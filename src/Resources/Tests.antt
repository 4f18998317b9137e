-- ===== src/Resources/Tests.antt =====
-- Two calls that meet a limit of one, for src/resource_manager.rs.
use cyberfly_rust_node.Common.{◌+◌, ◌≤◌, ◌≡◌, refl, some, List, [], ◌∷◌, arith}
use cyberfly_rust_node.Resources.Connections.{
  ResourceLimits, default_limits, Connections, Access, register_connection, drop_guard, access,
  interleaving, idle,
}
use cyberfly_rust_node.Resources.Limit.{register_connection_lem}

abbrev one_connection : ResourceLimits
one_connection = record default_limits { max_peer_connections = 1 }

-- The guard of the first call ends while the second call is being refused.
abbrev crossing : List Access
crossing = register_connection ∷ register_connection ∷ drop_guard ∷ []

abbrev crossed : Connections
crossed = record {
  metrics = record idle.metrics { active_connections = 1 };
  guards = 0;
  refused = 1;
}

crossing_ends : interleaving one_connection crossing idle ≡ some crossed
unfolding interleaving access
crossing_ends = refl

register_connection_lem_example :
    (crossed.guards ≤ 1) × (crossed.metrics.active_connections ≡ crossed.guards + crossed.refused)
register_connection_lem_example =
    register_connection_lem one_connection crossing crossed (omega arith) crossing_ends
