-- ===== src/State/Counts.antt =====
-- src/state_manager.rs: the count of connected peers.
use cyberfly_rust_node.Common.{
  ℕ, ◌+◌, ◌≤◌, ◌≡◌, inl, inr, Option, none, some, List, [], ◌∷◌, arith, if◌then◌else◌, map, filter,
  length, Option-cases,
}
use cyberfly_rust_node.Common.Int.{ℤ}
use cyberfly_rust_node.Common.Text.{Str, str_eq_iff}
use cyberfly_rust_node.Common.Assoc.{lookup, insert, remove, str_key}
use cyberfly_rust_node.Common.Unique.{IsUnique, remove_absent}
use cyberfly_rust_node.State.App.{
  PeerState, PeerStatus, AppState, is_connected, counts, entry_value, add_peer, remove_peer,
  update_peer_status, get_connected_peer_count, snapshot,
}

-- Whether the peer counts as connected now, as a number.
abbrev pub bit : Option PeerState → ℕ
bit none = 0
bit (some p) = if counts p then 1 else 0

abbrev total : List (Str × PeerState) → ℕ
total m = length (filter counts (map entry_value m))

total-insert :
    (q : Str) (p : PeerState) (m : List (Str × PeerState))
    → total (insert q p m) + bit (lookup q m) ≡ total m + bit (some p)
unfolding insert lookup
total-insert q p [] = ground arith
total-insert q p ((k, w) ∷ m) = ground (arith, total-insert q p m)

total-remove :
    (q : Str) (m : List (Str × PeerState))
    → IsUnique m
    → total (remove q m) + bit (lookup q m) ≡ total m
unfolding remove lookup IsUnique
total-remove q [] u = omega arith
total-remove q ((k, w) ∷ m) (absent, u) =
    ground (arith, str_eq_iff k q, remove_absent q m, total-remove q m u)

total-length : (m : List (Str × PeerState)) → total m ≤ length m
total-length [] = omega arith
total-length ((k, w) ∷ m) = ground (arith, total-length m)

-- In a state with one entry for each peer, adding, removing and a change of status move the count of
-- connected peers by exactly what the peer counts for before and after, where the status of a peer that
-- is not there changes nothing. A snapshot whose two reads of the peers see the same state
-- counts no more connected peers than peers; if a peer is added between them, the connected count of the
-- snapshot has it already.
pub connected_lem :
    (q : Str) (p : PeerState) (status : PeerStatus) (now : ℤ) (s t v : AppState)
    → IsUnique s.peers
    → let before = get_connected_peer_count s in
      let old = lookup q s.peers in
      (get_connected_peer_count (add_peer q p s) + bit old ≡ before + bit (some p))
      × (get_connected_peer_count (remove_peer q s) + bit old ≡ before)
      × (get_connected_peer_count (update_peer_status q status s) + bit old
          ≡ before + (elim old [ none ↦ 0 | some o ↦ if is_connected status then 1 else 0 ]))
      × ((snapshot now t s s v).connected_peers ≤ (snapshot now t s s v).peer_count)
      × ((snapshot now t s (add_peer q p s) v).connected_peers + bit old
          ≡ (snapshot now t s s v).connected_peers + bit (some p))
unfolding get_connected_peer_count add_peer remove_peer update_peer_status snapshot
connected_lem q p status now s t v unique = (
  total-insert q p s.peers,
  total-remove q s.peers unique,
  status_lem,
  total-length s.peers,
  total-insert q p s.peers,
)
  where
    status_lem :
        get_connected_peer_count (update_peer_status q status s) + bit (lookup q s.peers)
        ≡ get_connected_peer_count s
          + (elim (lookup q s.peers) [ none ↦ 0 | some o ↦ if is_connected status then 1 else 0 ])
    status_lem = elim (Option-cases (lookup q s.peers)) [
      | inl e ↦ ground arith
      | inr (o, e) ↦ ground (arith, total-insert q (record o { status = status }) s.peers)
    ]
