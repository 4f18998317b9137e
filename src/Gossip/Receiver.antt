-- ===== src/Gossip/Receiver.antt =====
-- src/gossip_discovery.rs: `DiscoveryReceiver`. Times are in nanoseconds.
use cyberfly_rust_node.Common.{
  ℕ, suc, ◌+◌, ◌-◌, Bool, not, none, some, List, [], ◌∷◌, ◌++◌, ◌==◌, ltb, if◌then◌else◌, length,
  map, filter, is_some,
}
use cyberfly_rust_node.Common.Text.{Str, str_eq}
use cyberfly_rust_node.Common.Assoc.{lookup, insert, remove, nat_eq}
use cyberfly_rust_node.Common.Result.{Result, ok, err}
use cyberfly_rust_node.Gossip.Message.{
  NodeId, Bytes, DiscoveryNode, PeerInfo, GossipDiscoveryError, channel_send,
  signature_verification, Wire, verify_and_decode,
}

pub record Counters : Type 0 where
  pub connections_total : ℕ
  pub connection_failures : ℕ
  pub announcements_received : ℕ
  pub expirations : ℕ
  pub network_peers : ℕ

-- `peer_tx` is the channel to the sender: what was sent on it, and whether it is open.
pub record DiscoveryReceiver : Type 0 where
  pub neighbor_map : List (NodeId × PeerInfo)
  pub peer_tx : List NodeId
  pub peer_tx_open : Bool
  pub metrics : Counters

-- What the network gives: an error, or an event.
pub data GossipEvent : Type 0 where
  failed : GossipEvent
  received : (content : Bytes) → GossipEvent
  neighbor_up neighbor_down : NodeId → GossipEvent
  lagged : GossipEvent

abbrev pub Outcome : Type 0
Outcome = Result GossipDiscoveryError (Unit {0}) × DiscoveryReceiver

abbrev pub count_failure : DiscoveryReceiver → DiscoveryReceiver
count_failure d = record d {
  metrics = record d.metrics { connection_failures = suc d.metrics.connection_failures };
}

-- The entry that an announcement makes.
abbrev pub info_of : ℕ → DiscoveryNode → PeerInfo
info_of now node = record {
  node_id = node.node_id;
  name = node.name;
  region = node.region;
  capabilities = node.capabilities;
  last_seen = now;
  message_count = node.count;
}

-- The end of `handle_message`: the entry of the map.
abbrev pub keep : ℕ → DiscoveryNode → DiscoveryReceiver → Outcome
keep now node d =
    (ok tt, record d { neighbor_map = insert node.node_id (info_of now node) d.neighbor_map })

abbrev pub count_announcement : NodeId → DiscoveryReceiver → DiscoveryReceiver
count_announcement q d = record d {
  peer_tx = d.peer_tx ++ q ∷ [];
  metrics = record d.metrics { announcements_received = suc d.metrics.announcements_received };
}

-- The part of `handle_message` behind the check for spoofing: notify the sender of a new peer.
unfoldable pub admit : ℕ → DiscoveryNode → DiscoveryReceiver → Outcome
admit now node d =
    if not (is_some (lookup node.node_id d.neighbor_map))
    then (if d.peer_tx_open
        then keep now node (count_announcement node.node_id d)
        else (err channel_send, d))
    else keep now node d

module _ (w : Wire) where
  unfoldable pub handle_message : ℕ → Bytes → DiscoveryReceiver → Outcome
  handle_message now content d = elim (verify_and_decode w content) [
    | err e ↦ (ok tt, count_failure d)
    | ok (key, node) ↦ elim (w.public_key_from_bytes key) [
      | none ↦ (err signature_verification, d)
      | some expected_node_id ↦
          if not (node.node_id == expected_node_id)
          then (ok tt, count_failure d)
          else admit now node d
    ]
  ]

  -- One turn of the loop of `run`.
  unfoldable pub receive : ℕ → GossipEvent → DiscoveryReceiver → Outcome
  receive now (received content) d = handle_message now content d
  receive now (neighbor_up peer) d = (
    ok tt,
    record d { metrics = record d.metrics { connections_total = suc d.metrics.connections_total } },
  )
  receive now failed d = (ok tt, d)
  receive now (neighbor_down peer) d = (ok tt, d)
  receive now lagged d = (ok tt, d)

  -- `run` over what the network gives, each with the reading of the clock; an error ends it.
  unfoldable pub run : List (ℕ × GossipEvent) → DiscoveryReceiver → Outcome
  run [] d = (ok tt, d)
  run ((now, event) ∷ events) d =
      let (r, d') = receive now event d in
      let rest = run events d' in elim r [ ok u ↦ rest | err e ↦ (err e, d') ]

abbrev pub get_peers : DiscoveryReceiver → List (NodeId × PeerInfo)
get_peers d = d.neighbor_map

abbrev pub peer_count : DiscoveryReceiver → ℕ
peer_count d = length d.neighbor_map

abbrev entry_id : NodeId × PeerInfo → NodeId
entry_id (q, info) = q

abbrev pub is_in_region : Str → NodeId × PeerInfo → Bool
is_in_region region (q, info) = str_eq info.region region

unfoldable pub get_peers_by_region : Str → DiscoveryReceiver → List NodeId
get_peers_by_region region d = map entry_id (filter (is_in_region region) d.neighbor_map)

-- `duration_since` stops at 0.
abbrev pub is_overdue : ℕ → ℕ → PeerInfo → Bool
is_overdue now expiration_timeout info = ltb expiration_timeout (now - info.last_seen)

unfoldable pub expired_peers : ℕ → ℕ → List (NodeId × PeerInfo) → List NodeId
expired_peers now timeout [] = []
expired_peers now timeout ((q, info) ∷ m) =
    let rest = expired_peers now timeout m in if is_overdue now timeout info then q ∷ rest else rest

-- The loop of the removals, with the number of them.
unfoldable pub remove_expired :
    List NodeId → List (NodeId × PeerInfo) → ℕ × List (NodeId × PeerInfo)
remove_expired [] m = (0, m)
remove_expired (q ∷ expired) m =
    let rest = remove_expired expired (remove q m) in
    let same = remove_expired expired m in
    elim (lookup q m) [ none ↦ same | some info ↦ (suc rest.0, rest.1) ]

unfoldable pub cleanup_expired : ℕ → ℕ → DiscoveryReceiver → ℕ × DiscoveryReceiver
cleanup_expired now timeout d =
    let (n, m) = remove_expired (expired_peers now timeout d.neighbor_map) d.neighbor_map in
    (
      n,
      record d {
        neighbor_map = m;
        metrics = record d.metrics { expirations = d.metrics.expirations + n };
      },
    )

-- One turn of the loop of the clean-up task, which also sets the gauge of the peers.
unfoldable pub cleanup_turn : ℕ → ℕ → DiscoveryReceiver → DiscoveryReceiver
cleanup_turn now timeout d =
    let (n, d') = cleanup_expired now timeout d in
    record d' { metrics = record d'.metrics { network_peers = length d'.neighbor_map } }
