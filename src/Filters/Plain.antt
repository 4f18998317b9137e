-- ===== src/Filters/Plain.antt =====
-- src/filters.rs: the filters that pass a query of the storage on.
use cyberfly_rust_node.Common.{
  ℕ, Bool, true, ◌&&◌, Option, none, some, List, ◌∷◌, ◌++◌, filter, map,
}
use cyberfly_rust_node.Common.Int.{ℤ, pos, negsuc}
use cyberfly_rust_node.Common.Float.{Float}
use cyberfly_rust_node.Common.Text.{Str, codes}
use cyberfly_rust_node.Common.Result.{ok, err}
use cyberfly_rust_node.Sync.Operation.{F64}
use cyberfly_rust_node.Storage.Value.{StreamEntry}
use cyberfly_rust_node.Storage.Core.{Backend, BlobStorage, Outcome}
use cyberfly_rust_node.Storage.Series.{xrange, xrevrange, filter_stream}
use cyberfly_rust_node.Storage.Entries.{SortedSetEntry, get_sorted_set_json}
use cyberfly_rust_node.Storage.Geo.{
  Angles, geodist, georadius, georadius_with_coords, georadiusbymember,
  georadiusbymember_with_coords,
}

-- format!("{}:{}", db_addr, stream_name)
abbrev full_key : Str → Str → Str
full_key db_addr stream_name = db_addr ++ (b':' ∷ stream_name)

module _ {J Fs Cache : Type 0} (x : Backend J Fs Cache) (now : ℕ) where
  -- StreamFilter
  unfoldable pub get_stream_entries :
      Str → Str → Str → Str → BlobStorage Fs Cache → Outcome x (List StreamEntry)
  get_stream_entries db_addr stream_name from to s =
      xrange x now (full_key db_addr stream_name) from to none s

  unfoldable pub get_last_n_entries :
      Str → Str → ℕ → BlobStorage Fs Cache → Outcome x (List StreamEntry)
  get_last_n_entries db_addr stream_name count s =
      xrevrange x now (full_key db_addr stream_name) (codes "+") (codes "-") (some count) s

  unfoldable pub filter_by_pattern :
      Str → Str → Str → BlobStorage Fs Cache → Outcome x (List StreamEntry)
  filter_by_pattern db_addr stream_name pattern s =
      filter_stream x now (full_key db_addr stream_name) (codes "-") (codes "+") (some pattern) s

  -- SortedSetFilter
  abbrev pair_of : SortedSetEntry J → J × F64
  pair_of e = (e.doc, e.score)

  abbrev pairs_where :
      (SortedSetEntry J → Bool) → Outcome x (List (SortedSetEntry J)) → Outcome x (List (J × F64))
  pairs_where p (ok entries, s) = (ok (map pair_of (filter p entries)), s)
  pairs_where p (err e, s) = (err e, s)

  abbrev is_within : Float F64 → F64 → F64 → SortedSetEntry J → Bool
  is_within fl lo hi e = fl.leb lo e.score && fl.leb e.score hi

  unfoldable pub get_entries_by_score :
      Float F64 → Str → F64 → F64 → BlobStorage Fs Cache → Outcome x (List (J × F64))
  get_entries_by_score fl key min_score max_score s =
      pairs_where (is_within fl min_score max_score)
        (get_sorted_set_json x now key (pos 0) (negsuc 0) s)

  unfoldable pub get_entries : Str → ℤ → ℤ → BlobStorage Fs Cache → Outcome x (List (J × F64))
  get_entries key start stop s =
      pairs_where (λ e. true) (get_sorted_set_json x now key start stop s)

  -- GeospatialFilter
  module _ (fl : Float F64) (g : Angles F64) (key : Str) where
    unfoldable pub get_distance : Str → Str → Str → BlobStorage Fs Cache → Outcome x (Option F64)
    get_distance member1 member2 unit s = geodist x fl g now key member1 member2 (some unit) s

    unfoldable pub search_radius :
        (longitude latitude radius : F64) → Str → BlobStorage Fs Cache → Outcome x (List Str)
    search_radius longitude latitude radius unit s =
        georadius x fl g now key longitude latitude radius unit s

    unfoldable pub search_radius_with_coords :
        (longitude latitude radius : F64)
        → Str
        → BlobStorage Fs Cache
        → Outcome x (List (Str × F64 × F64))
    search_radius_with_coords longitude latitude radius unit s =
        georadius_with_coords x fl g now key longitude latitude radius unit s

    unfoldable pub search_by_member :
        Str → (radius : F64) → Str → BlobStorage Fs Cache → Outcome x (List Str)
    search_by_member member radius unit s = georadiusbymember x fl g now key member radius unit s

    unfoldable pub search_by_member_with_coords :
        Str → (radius : F64) → Str → BlobStorage Fs Cache → Outcome x (List (Str × F64 × F64))
    search_by_member_with_coords member radius unit s =
        georadiusbymember_with_coords x fl g now key member radius unit s
