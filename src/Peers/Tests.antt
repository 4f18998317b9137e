-- ===== src/Peers/Tests.antt =====
-- Three peers, for src/peer_registry.rs, and the theorems applied to them.
use cyberfly_rust_node.Common.{ℕ, ◌*◌, ◌^◌, ◌≡◌, refl, true, false, none, some, [], ◌∷◌}
use cyberfly_rust_node.Common.Text.{codes, str_eq, str_leb}
use cyberfly_rust_node.Common.Assoc.{lookup, insert, str_key}
use cyberfly_rust_node.Common.Lists.{sort_by}
use cyberfly_rust_node.Peers.Meta.{new_meta, touch}
use cyberfly_rust_node.Peers.Registry.{
  PeerRegistry, default_config, new_registry, upsert_peer, set_peer_region,
}
use cyberfly_rust_node.Peers.Invariant.{
  IsWellFormed, Attained, start, then_, upsert, region, Attained-IsWellFormed,
}
use cyberfly_rust_node.Peers.Diverse.{
  get_diverse_peers, take_turns, by_region, push_region, remove_at,
}

abbrev second : ℕ → ℕ
second s = s * 10 ^ 9

abbrev alone : PeerRegistry
alone = new_registry (codes "n") default_config 0

abbrev one_peer : PeerRegistry
one_peer = upsert_peer (second 100) (codes "a") none true alone

abbrev two_peers : PeerRegistry
two_peers = upsert_peer (second 110) (codes "b") (some (codes "addr")) false one_peer

abbrev three_peers : PeerRegistry
three_peers = upsert_peer (second 140) (codes "c") none false two_peers

abbrev placed : PeerRegistry
placed = set_peer_region (codes "b") (codes "eu") three_peers

placed-Attained : Attained placed
placed-Attained =
    then_ three_peers placed
      (then_ two_peers three_peers
        (then_ one_peer two_peers
          (then_ alone one_peer (start (codes "n") default_config) (upsert _ _ _ _))
          (upsert _ _ _ _))
        (upsert _ _ _ _))
      (region (codes "b") (codes "eu"))

Attained-IsWellFormed_example : IsWellFormed placed
Attained-IsWellFormed_example = Attained-IsWellFormed placed placed-Attained

placed-IsWellFormed : IsWellFormed placed
placed-IsWellFormed = Attained-IsWellFormed placed placed-Attained

-- One peer of "eu", then one whose region is not known.
two_regions : get_diverse_peers none 2 placed ≡ some (codes "b" ∷ codes "c" ∷ [])
unfolding get_diverse_peers take_turns by_region push_region remove_at sort_by set_peer_region
    upsert_peer new_registry new_meta touch insert lookup str_eq str_leb
two_regions = refl
