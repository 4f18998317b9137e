-- ===== src/Peers/Diverse.antt =====
-- src/peer_registry.rs, `get_diverse_peers`: peers of different regions in turn.
use cyberfly_rust_node.Common.{
  ℕ, zero, suc, ◌%◌, Bool, true, false, not, Option, none, some, List, [], ◌∷◌, ◌++◌, ltb,
  if◌then◌else◌, length, get_elem?, set, sort_by, unwrap_or,
}
use cyberfly_rust_node.Common.Text.{Str, codes, str_eq, str_leb}
use cyberfly_rust_node.Peers.Meta.{PeerMeta}
use cyberfly_rust_node.Peers.Registry.{PeerRegistry}

-- A region and its peers, the one that `pop` takes first.
abbrev pub Regions : Type 0
Regions = List (Str × List Str)

abbrev pub region_of : PeerMeta → Str
region_of meta = unwrap_or meta.region (codes "unknown")

-- by_region.entry(region).or_default().push(id)
unfoldable pub push_region : Str → Str → List (Str × List Str) → List (Str × List Str)
push_region region id [] = (region, id ∷ []) ∷ []
push_region region id ((name, ids) ∷ rs) =
    if str_eq name region then (name, id ∷ ids) ∷ rs else (name, ids) ∷ push_region region id rs

abbrev pub is_wanted : Option Str → PeerMeta → Bool
is_wanted none meta = true
is_wanted (some excluded) meta = not (str_eq excluded (region_of meta))

unfoldable pub by_region :
    Option Str → List (Str × PeerMeta) → List (Str × List Str) → List (Str × List Str)
by_region exclude [] rs = rs
by_region exclude ((id, meta) ∷ m) rs =
    by_region exclude m (if is_wanted exclude meta then push_region (region_of meta) id rs else rs)

abbrev pub name_le : Str × List Str → Str × List Str → Bool
name_le (a, xs) (b, ys) = str_leb a b

unfoldable pub remove_at : {A : Type 0} → ℕ → List A → List A
remove_at n [] = []
remove_at zero (x ∷ xs) = xs
remove_at (suc n) (x ∷ xs) = x ∷ remove_at n xs

-- The loop, on fuel. `none` is out of fuel or an index out of range.
unfoldable pub take_turns : ℕ → ℕ → ℕ → List (Str × List Str) → List Str → Option (List Str)
take_turns zero limit idx regions result = none
take_turns (suc fuel) limit idx [] result = some result
take_turns (suc fuel) limit idx (r ∷ rs) result = elim (ltb (length result) limit) [
  | false ↦ some result
  | true ↦
      let at = idx % length (r ∷ rs) in
      elim (get_elem? (r ∷ rs) at) [
        | none ↦ none
        | some (name, ids) ↦ elim ids [
          | [] ↦ take_turns fuel limit idx (remove_at at (r ∷ rs)) result
          | id ∷ ids' ↦ elim ids' [
            | [] ↦ take_turns fuel limit idx (remove_at at (r ∷ rs)) (result ++ id ∷ [])
            | next ∷ others ↦
                take_turns fuel limit (suc idx) (set (r ∷ rs) at (name, next ∷ others))
                  (result ++ id ∷ [])
          ]
        ]
      ]
]

-- One turn takes one peer, so that as many turns as there are peers, and one, are enough.
unfoldable pub get_diverse_peers : Option Str → ℕ → PeerRegistry → Option (List Str)
get_diverse_peers exclude limit r =
    take_turns (suc (length r.peers)) limit 0 (sort_by name_le (by_region exclude r.peers [])) []

-- The peers of all regions.
unfoldable pub members : List (Str × List Str) → List Str
members [] = []
members ((name, ids) ∷ rs) = ids ++ members rs

-- No region is without peers.
unfoldable pub are_filled : List (Str × List Str) → Bool
are_filled [] = true
are_filled ((name, ids) ∷ rs) = elim ids [ [] ↦ false | id ∷ others ↦ are_filled rs ]
