-- ===== src/State/App.antt =====
-- src/state_manager.rs: AppState. A reading of the clock is in seconds.
use cyberfly_rust_node.Common.{
  ℕ, ◌+◌, ◌%◌, ◌^◌, Bool, true, false, Option, none, some, List, [], map, filter, length,
}
use cyberfly_rust_node.Common.Int.{ℤ}
use cyberfly_rust_node.Common.Text.{Str}
use cyberfly_rust_node.Common.Assoc.{lookup, insert, remove, str_key}

pub data NodeState : Type 0 where
  initializing running shutting_down stopped : NodeState
  syncing : (peer_count : ℕ) → NodeState
  under_pressure : (reason : Str) → NodeState

pub data PeerStatus : Type 0 where
  connecting connected peer_syncing idle disconnected : PeerStatus

pub record PeerState : Type 0 where
  pub peer_id : Str
  pub connected_at : ℤ
  pub last_sync_at : Option ℤ
  pub operations_synced : ℕ
  pub status : PeerStatus

pub record DatabaseState : Type 0 where
  pub name : Str
  pub entry_count : ℕ
  pub last_modified_at : ℤ
  pub size_bytes : ℕ

pub record AppState : Type 0 where
  pub node_state : NodeState
  pub peers : List (Str × PeerState)
  pub databases : List (Str × DatabaseState)

pub record StateSnapshot : Type 0 where
  pub node_state : NodeState
  pub peer_count : ℕ
  pub connected_peers : ℕ
  pub database_count : ℕ
  pub timestamp : ℤ

abbrev pub new_state : AppState
new_state = record { node_state = initializing; peers = []; databases = [] }

abbrev pub get_node_state : AppState → NodeState
get_node_state s = s.node_state

unfoldable pub set_node_state : NodeState → AppState → AppState
set_node_state state s = record s { node_state = state }

abbrev pub runs : NodeState → Bool
runs running = true
runs (syncing n) = true
runs _ = false

unfoldable pub is_running : AppState → Bool
is_running s = runs s.node_state

unfoldable pub add_peer : Str → PeerState → AppState → AppState
add_peer peer_id state s = record s { peers = insert peer_id state s.peers }

unfoldable pub remove_peer : Str → AppState → AppState
remove_peer peer_id s = record s { peers = remove peer_id s.peers }

unfoldable pub update_peer_status : Str → PeerStatus → AppState → AppState
update_peer_status peer_id status s = elim (lookup peer_id s.peers) [
  | none ↦ s
  | some peer ↦ record s { peers = insert peer_id (record peer { status = status }) s.peers }
]

unfoldable pub get_peer : Str → AppState → Option PeerState
get_peer peer_id s = lookup peer_id s.peers

abbrev pub entry_value : {A : Type 0} → Str × A → A
entry_value (k, a) = a

unfoldable pub get_all_peers : AppState → List PeerState
get_all_peers s = map entry_value s.peers

abbrev pub is_connected : PeerStatus → Bool
is_connected connected = true
is_connected peer_syncing = true
is_connected _ = false

abbrev pub counts : PeerState → Bool
counts p = is_connected p.status

unfoldable pub get_connected_peer_count : AppState → ℕ
get_connected_peer_count s = length (filter counts (map entry_value s.peers))

unfoldable pub update_database : Str → DatabaseState → AppState → AppState
update_database name state s = record s { databases = insert name state s.databases }

unfoldable pub get_database : Str → AppState → Option DatabaseState
get_database name s = lookup name s.databases

unfoldable pub get_all_databases : AppState → List DatabaseState
get_all_databases s = map entry_value s.databases

unfoldable pub increment_database_entries : ℤ → Str → ℕ → AppState → AppState
increment_database_entries now name count s = elim (lookup name s.databases) [
  | none ↦ s
  | some db ↦ record s {
    databases =
        insert name
          (record db { entry_count = (db.entry_count + count) % 2 ^ 64; last_modified_at = now })
          s.databases;
  }
]

-- Each part is read under a lock of its own, so other calls may come between the reads: the arguments
-- are the states at the four reads.
unfoldable pub snapshot : ℤ → AppState → AppState → AppState → AppState → StateSnapshot
snapshot now at_node at_peers at_connected at_databases = record {
  node_state = get_node_state at_node;
  peer_count = length at_peers.peers;
  connected_peers = get_connected_peer_count at_connected;
  database_count = length at_databases.databases;
  timestamp = now;
}
