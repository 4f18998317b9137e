-- ===== src/State/Tests.antt =====
-- Two peers for src/state_manager.rs, and the theorem applied to them.
use cyberfly_rust_node.Common.{◌+◌, ◌≤◌, ◌≡◌, refl, none, some, [], ◌∷◌, if◌then◌else◌}
use cyberfly_rust_node.Common.Int.{pos}
use cyberfly_rust_node.Common.Text.{codes, str_eq}
use cyberfly_rust_node.Common.Assoc.{lookup, str_key}
use cyberfly_rust_node.Common.Unique.{IsUnique}
use cyberfly_rust_node.State.App.{
  PeerState, connected, idle, AppState, running, is_connected, add_peer, remove_peer,
  update_peer_status, get_connected_peer_count, snapshot, new_state,
}
use cyberfly_rust_node.State.Counts.{bit, connected_lem}

abbrev peer : PeerState
peer = record {
  peer_id = codes "p";
  connected_at = pos 5;
  last_sync_at = none;
  operations_synced = 0;
  status = connected;
}

abbrev state : AppState
state = record {
  node_state = running;
  peers = (codes "p", peer) ∷ (codes "q", record peer { status = idle }) ∷ [];
  databases = [];
}

connected_lem_example :
    (get_connected_peer_count (add_peer (codes "q") peer state)
        + bit (lookup (codes "q") state.peers)
      ≡ get_connected_peer_count state + bit (some peer))
    × (get_connected_peer_count (remove_peer (codes "q") state)
          + bit (lookup (codes "q") state.peers)
        ≡ get_connected_peer_count state)
    × (get_connected_peer_count (update_peer_status (codes "q") connected state)
          + bit (lookup (codes "q") state.peers)
        ≡ get_connected_peer_count state + (elim (lookup (codes "q") state.peers) [
          | none ↦ 0
          | some o ↦ if is_connected connected then 1 else 0
        ]))
    × ((snapshot (pos 9) new_state state state new_state).connected_peers
        ≤ (snapshot (pos 9) new_state state state new_state).peer_count)
    × ((snapshot
            (pos 9)
            new_state
            state
            (add_peer (codes "q") peer state)
            new_state).connected_peers
          + bit (lookup (codes "q") state.peers)
        ≡ (snapshot (pos 9) new_state state state new_state).connected_peers + bit (some peer))
unfolding IsUnique lookup str_eq
connected_lem_example =
    connected_lem (codes "q") peer connected (pos 9) state new_state new_state (refl, (refl, tt))
