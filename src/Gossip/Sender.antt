-- ===== src/Gossip/Sender.antt =====
-- src/gossip_discovery.rs: `GossipDiscoveryBuilder` and `DiscoverySender`. Times are in nanoseconds.
use cyberfly_rust_node.Common.{
  ℕ, suc, ◌+◌, ◌*◌, ◌/◌, ◌%◌, ◌^◌, Bool, Option, none, some, List, [], unwrap_or, if◌then◌else◌,
}
use cyberfly_rust_node.Common.Result.{Result, ok, err, ◌>>=◌}
use cyberfly_rust_node.Gossip.Message.{
  NodeId, Bytes, DiscoveryNode, GossipDiscoveryError, gossip_api, Wire, sign_and_encode,
}

pub record GossipDiscoveryBuilder : Type 0 where
  pub expiration_timeout : Option ℕ
  pub broadcast_interval : Option ℕ
  pub cleanup_interval : Option ℕ

abbrev pub new_builder : GossipDiscoveryBuilder
new_builder = record {
  expiration_timeout = none;
  broadcast_interval = none;
  cleanup_interval = none;
}

abbrev pub with_expiration_timeout : ℕ → GossipDiscoveryBuilder → GossipDiscoveryBuilder
with_expiration_timeout timeout b = record b { expiration_timeout = some timeout }

abbrev pub with_broadcast_interval : ℕ → GossipDiscoveryBuilder → GossipDiscoveryBuilder
with_broadcast_interval interval b = record b { broadcast_interval = some interval }

abbrev pub with_cleanup_interval : ℕ → GossipDiscoveryBuilder → GossipDiscoveryBuilder
with_cleanup_interval interval b = record b { cleanup_interval = some interval }

-- The times that `build` passes on: when a peer expires, the pause between announcements, and the
-- pause between clean-ups.
pub record Intervals : Type 0 where
  pub expiration : ℕ
  pub broadcast : ℕ
  pub cleanup : ℕ

unfoldable pub build : GossipDiscoveryBuilder → Intervals
build b =
    let expiration = unwrap_or b.expiration_timeout (30 * 10 ^ 9) in
    record {
      expiration = expiration;
      broadcast = unwrap_or b.broadcast_interval (5 * 10 ^ 9);
      cleanup = unwrap_or b.cleanup_interval (expiration / 3);
    }

-- `peer_rx` holds the notices of the receiver that were not read yet.
pub record DiscoverySender : Type 0 where
  pub peer_rx : List NodeId
  pub secret_key : Bytes
  pub broadcast_interval : ℕ

module _ (w : Wire) where
  -- `sent` tells whether the network takes the bytes; the answer is what is handed to it.
  unfoldable pub broadcast_once :
      Bool → DiscoveryNode → DiscoverySender → Result GossipDiscoveryError Bytes
  broadcast_once sent node s = do
    bytes ← sign_and_encode w s.secret_key node
    if sent then ok bytes else err gossip_api

  -- One turn of the loop of `run`, whose broadcast may fail without an error: the bytes handed to the
  -- network, the sleep after them, the sender with its notices read and the node of the next turn.
  unfoldable pub broadcast_turn :
      (random : ℕ)
      → DiscoveryNode
      → DiscoverySender
      → Result GossipDiscoveryError (Bytes × ℕ × DiscoverySender × DiscoveryNode)
  broadcast_turn random node s = do
    bytes ← sign_and_encode w s.secret_key node
    let jitter_ms = random % 1001
    ok (
      bytes,
      s.broadcast_interval + jitter_ms * 10 ^ 6,
      record s { peer_rx = [] },
      record node { count = suc node.count % 2 ^ 32 },
    )
