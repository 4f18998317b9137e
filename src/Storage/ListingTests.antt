-- ===== src/Storage/ListingTests.antt =====
-- A storage with two keys of a database, and the theorems on listings applied to it.
use cyberfly_rust_node.Common.{ℕ, ◌≡◌, refl, none, some, [], ◌∷◌, map, filter, length}
use cyberfly_rust_node.Common.Text.{Str, codes, str_leb, str_eq, starts_with}
use cyberfly_rust_node.Common.Assoc.{lookup, tree_insert}
use cyberfly_rust_node.Storage.Value.{
  StoreType, geo, type_of, new_ttl, is_expired, get_ttl_metadata, is_value_expired,
}
use cyberfly_rust_node.Storage.Core.{
  BlobStorage, cached, cache_value, load_value, get_value, store_value, index_get,
  index_keys_with_prefix,
}
use cyberfly_rust_node.Storage.Sound.{IsSound, store_value-IsSound}
use cyberfly_rust_node.Storage.Typed.{
  as_string, as_hash, as_list, as_set, as_sorted_set, as_stream, as_time_series, as_geo,
}
use cyberfly_rust_node.Storage.Listings.{
  with_colon, list_loop, row_of, itself, flat, get_all_strings, get_all_hashes, get_all_lists,
  get_all_sets, get_all_sorted_sets, get_all_stream_entries, get_all_timeseries, get_all_geo,
}
use cyberfly_rust_node.Storage.Entries.{JsonBuild, stored_entry, get_all}
use cyberfly_rust_node.Storage.Listed.{listed, shown, get_all_lem, listings_lem}
use cyberfly_rust_node.Storage.Tests.{empty, empty-IsSound, lasting, ending}
use cyberfly_rust_node.Storage.Crates.{Blobs, Slot, test, test-IsReliable, plain}
use cyberfly_rust_node.Common.Whole.{whole}
use cyberfly_rust_node.Common.Result.{ok, err}
use cyberfly_rust_node.Storage.Typed.{read_entry}
use cyberfly_rust_node.Storage.Sound.{live, view}
use cyberfly_rust_node.Storage.Series.{geopos}
use cyberfly_rust_node.Storage.Geo.{
  Angles, is_near, radius_km, member_name, georadius, georadius_with_coords, georadiusbymember,
  georadiusbymember_with_coords,
}
use cyberfly_rust_node.Storage.Near.{names, georadius_lem}

abbrev one : BlobStorage Blobs Slot
one = (store_value test (codes "d:a") lasting StoreType.string empty).1

abbrev two : BlobStorage Blobs Slot
two = (store_value test (codes "d:b") ending StoreType.string one).1

two-IsSound : IsSound test two
unfolding type_of
two-IsSound =
    store_value-IsSound test test-IsReliable (codes "d:b") ending StoreType.string one
      (λ e. absurd (cc)) refl
      (store_value-IsSound test test-IsReliable (codes "d:a") lasting StoreType.string empty
        (λ e. absurd (cc)) refl empty-IsSound)

abbrev counts : JsonBuild ℕ
counts = record {
  text = λ t. length t;
  of_f64 = λ n. n;
  of_i64 = λ z. 0;
  array = λ l. length l;
  object = λ l. length l;
}

-- The second value has expired after 5 s.
strings_ok : (get_all_strings test 5000 (codes "d") two).0 ≡ (codes "d:a", codes "v", none) ∷ []
unfolding get_all_strings list_loop index_keys_with_prefix store_value new_ttl cache_value
    tree_insert str_leb str_eq starts_with index_get lookup get_value cached load_value
    is_value_expired get_ttl_metadata is_expired
strings_ok = refl

get_all_lem_example :
    let (entries, s') = get_all test 5000 (codes "d") counts two in
    (entries
      ≡ listed
          (λ key v. some (stored_entry test 5000 (codes "d") counts key v))
          (shown test 5000 two)
          (index_keys_with_prefix test (with_colon (codes "d")) two))
    × IsSound test s'
    × ((j : Str) → shown test 5000 s' j ≡ shown test 5000 two j)
get_all_lem_example = get_all_lem test test-IsReliable 5000 counts (codes "d") two two-IsSound

listings_lem_example :
    let keys = index_keys_with_prefix test (with_colon (codes "d")) two in
    ((get_all_strings test 5000 (codes "d") two).0
      ≡ listed (row_of test as_string itself) (shown test 5000 two) keys)
    × ((get_all_hashes test 5000 (codes "d") two).0
        ≡ listed (row_of test as_hash itself) (shown test 5000 two) keys)
    × ((get_all_lists test 5000 (codes "d") two).0
        ≡ listed (row_of test as_list itself) (shown test 5000 two) keys)
    × ((get_all_sets test 5000 (codes "d") two).0
        ≡ listed (row_of test as_set itself) (shown test 5000 two) keys)
    × ((get_all_sorted_sets test 5000 (codes "d") two).0
        ≡ listed (row_of test as_sorted_set itself) (shown test 5000 two) keys)
    × ((get_all_stream_entries test 5000 (codes "d") two).0
        ≡ listed (row_of test as_stream itself) (shown test 5000 two) keys)
    × ((get_all_timeseries test 5000 (codes "d") two).0
        ≡ listed (row_of test as_time_series itself) (shown test 5000 two) keys)
    × ((get_all_geo test 5000 (codes "d") two).0
        ≡ listed (row_of test as_geo (map flat)) (shown test 5000 two) keys)
listings_lem_example = listings_lem test test-IsReliable 5000 (codes "d") two two-IsSound

-- A location p at longitude 2 and latitude 5.
abbrev place : BlobStorage Blobs Slot
place =
    (store_value test (codes "g") (geo (plain ((codes "p", (2, 5)) ∷ []) none)) StoreType.geo two).1

place-IsSound : IsSound test place
unfolding type_of
place-IsSound =
    store_value-IsSound test test-IsReliable (codes "g")
      (geo (plain ((codes "p", (2, 5)) ∷ []) none)) StoreType.geo two (λ e. absurd (cc)) refl
      two-IsSound

abbrev flat_angles : Angles ℕ
flat_angles = record {
  to_radians = λ a. a;
  sin = λ a. a;
  cos = λ a. 0;
  squared = λ a. a;
  sqrt = λ a. a;
  atan2 = λ a b. a;
}

georadius_lem_example :
    let near = is_near whole flat_angles 2 4 (radius_km whole flat_angles 9 (codes "km")) in
    ((georadius test whole flat_angles 50 (codes "g") 2 4 9 (codes "km") place).0
      ≡ read_entry as_geo
          (λ l. ok (map member_name (filter near l)))
          []
          (live test 50 (view test place (codes "g"))))
    × ((georadius test whole flat_angles 50 (codes "g") 2 4 9 (codes "km") place).0
        ≡ names
            (georadius_with_coords test whole flat_angles 50
              (codes "g")
              2
              4
              9
              (codes "km")
              place).0)
    × ((georadiusbymember test whole flat_angles 50 (codes "g") (codes "p") 9 (codes "km") place).0
        ≡ (elim (geopos test 50 (codes "g") (codes "p") place).0 [
          | err e ↦ err e
          | ok o ↦ elim o [
            | none ↦ ok []
            | some (lon, lat) ↦
                (georadius test whole flat_angles 50 (codes "g") lon lat 9 (codes "km") place).0
          ]
        ]))
    × ((georadiusbymember_with_coords test whole flat_angles 50
          (codes "g")
          (codes "p")
          9
          (codes "km")
          place).0
        ≡ (elim (geopos test 50 (codes "g") (codes "p") place).0 [
          | err e ↦ err e
          | ok o ↦ elim o [
            | none ↦ ok []
            | some (lon, lat) ↦
                (georadius_with_coords test whole flat_angles 50
                  (codes "g")
                  lon
                  lat
                  9
                  (codes "km")
                  place).0
          ]
        ]))
georadius_lem_example =
    georadius_lem test test-IsReliable 50 (codes "g") whole flat_angles 2 4 9 (codes "km")
      (codes "p") place place-IsSound
