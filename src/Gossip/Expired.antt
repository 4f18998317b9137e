-- ===== src/Gossip/Expired.antt =====
-- src/gossip_discovery.rs: what a clean-up removes.
use cyberfly_rust_node.Common.{
  ℕ, ◌+◌, ◌≡◌, refl, false, none, some, List, [], ◌∷◌, if◌then◌else◌, length, arith,
}
use cyberfly_rust_node.Common.Assoc.{lookup, remove, lookup-remove, nat_eq, contains}
use cyberfly_rust_node.Common.Unique.{IsUnique, remove-IsUnique, length-remove}
use cyberfly_rust_node.Gossip.Message.{NodeId, PeerInfo}
use cyberfly_rust_node.Gossip.Receiver.{
  DiscoveryReceiver, is_overdue, expired_peers, remove_expired, cleanup_expired,
}

-- The peers to remove are those whose entry is overdue.
contains-expired_peers :
    (now timeout : ℕ) (q : NodeId) (m : List (NodeId × PeerInfo))
    → IsUnique m
    → contains q (expired_peers now timeout m)
      ≡ (elim (lookup q m) [ none ↦ false | some info ↦ is_overdue now timeout info ])
unfolding expired_peers contains lookup IsUnique
contains-expired_peers now timeout q [] u = refl
contains-expired_peers now timeout q ((p, info) ∷ m) (absent, u) =
    ground (arith, contains-expired_peers now timeout q m u)

lookup-remove_expired :
    (q : NodeId) (expired : List NodeId) (m : List (NodeId × PeerInfo))
    → lookup q (remove_expired expired m).1 ≡ (if contains q expired then none else lookup q m)
unfolding remove_expired contains
lookup-remove_expired q [] m = refl
lookup-remove_expired q (p ∷ expired) m = ground (
  arith,
  lookup-remove_expired q expired m,
  lookup-remove_expired q expired (remove p m),
  lookup-remove p q m,
)

length-remove_expired :
    (expired : List NodeId) (m : List (NodeId × PeerInfo))
    → IsUnique m
    → (length m ≡ (remove_expired expired m).0 + length (remove_expired expired m).1)
      × IsUnique (remove_expired expired m).1
unfolding remove_expired
length-remove_expired [] m u = (omega arith, u)
length-remove_expired (p ∷ expired) m u =
    let a = length-remove_expired expired m u in
    let b = length-remove_expired expired (remove p m) (remove-IsUnique p m u) in
    ground (arith, length-remove p m u)

-- A clean-up removes exactly the peers that were last seen longer ago than the timeout and keeps the
-- entry of every other; its answer, which is added to the counter of expirations, is the number of
-- entries that it removed. The map has one entry for each peer, also afterwards.
pub cleanup_lem :
    (now timeout : ℕ) (d : DiscoveryReceiver)
    → IsUnique d.neighbor_map
    → let (n, d') = cleanup_expired now timeout d in
      ((q : NodeId)
        → lookup q d'.neighbor_map ≡ (elim (lookup q d.neighbor_map) [
          | none ↦ none
          | some info ↦ if is_overdue now timeout info then none else some info
        ]))
      × (length d.neighbor_map ≡ n + length d'.neighbor_map)
      × (d'.metrics.expirations ≡ d.metrics.expirations + n)
      × IsUnique d'.neighbor_map
unfolding cleanup_expired
cleanup_lem now timeout d u =
    let m = d.neighbor_map in
    let l = length-remove_expired (expired_peers now timeout m) m u in
    (
      λ q. ground (
        arith,
        lookup-remove_expired q (expired_peers now timeout m) m,
        contains-expired_peers now timeout q m u,
      ),
      l.0,
      refl,
      l.1,
    )
