-- ===== src/Storage/Series.antt =====
-- src/storage.rs, the operations of `BlobStorage` on streams, time series and locations.
use cyberfly_rust_node.Common.{
  ℕ, Bool, true, false, ◌&&◌, ◌||◌, Option, none, some, List, [], ◌∷◌, ◌++◌, if◌then◌else◌, length,
  take, filter, get_last?, not,
}
use mathlib.Core.List.{reverse}
use cyberfly_rust_node.Common.Int.{ℤ, ltb_ℤ, eqb_ℤ}
use cyberfly_rust_node.Common.Text.{Str, codes, str_eq, str_leb, str_contains}
use cyberfly_rust_node.Common.Decimal.{show_ℕ}
use cyberfly_rust_node.Common.Assoc.{lookup, insert, str_key}
use cyberfly_rust_node.Common.Result.{Result, ok, err, ◌>>=◌}
use cyberfly_rust_node.Sync.Operation.{F64}
use cyberfly_rust_node.Storage.Value.{
  StoreType, SignatureMetadata, StreamEntry, stream, time_series, geo,
}
use cyberfly_rust_node.Storage.Core.{StorageError, range_panic, Backend, BlobStorage, Outcome}
use cyberfly_rust_node.Storage.Typed.{
  btree_insert, as_stream, as_time_series, as_geo, reading, writing,
}

-- The test on the identifiers of XRANGE and XREVRANGE: `open` stands for no bound.
abbrev from_id : Str → Str → Str → Bool
from_id no_bound start id = str_eq start no_bound || str_leb start id

abbrev upto_id : Str → Str → Str → Bool
upto_id no_bound end id = str_eq end no_bound || str_leb id end

abbrev id_in : Str → Str → StreamEntry → Bool
id_in start end (id, fields) = from_id (codes "-") start id && upto_id (codes "+") end id

abbrev id_in_rev : Str → Str → StreamEntry → Bool
id_in_rev start end (id, fields) = from_id (codes "-") end id && upto_id (codes "+") start id

abbrev take_opt : {A : Type 0} → Option ℕ → List A → List A
take_opt none xs = xs
take_opt (some n) xs = take n xs

-- fields.iter().any(|(_, value)| value.contains(pat))
abbrev any_value_contains : Str → List (Str × Str) → Bool
any_value_contains pat [] = false
any_value_contains pat ((field, value) ∷ fields) =
    str_contains pat value || any_value_contains pat fields

abbrev matches_pattern : Option Str → StreamEntry → Bool
matches_pattern none e = true
matches_pattern (some pat) (id, fields) = any_value_contains pat fields

abbrev pub in_time : ℤ → ℤ → ℤ × F64 → Bool
in_time from to (ts, val) = not (ltb_ℤ ts from) && not (ltb_ℤ to ts)

-- BTreeMap::range, which panics on a map that is not empty where the bounds are the wrong way round.
unfoldable pub ranged : ℤ → ℤ → List (ℤ × F64) → Result StorageError (List (ℤ × F64))
ranged from to [] = ok []
ranged from to (p ∷ points) =
    if ltb_ℤ to from then err range_panic else ok (filter (in_time from to) (p ∷ points))

module _ {J Fs Cache : Type 0} (x : Backend J Fs Cache) where
  abbrev at_least : Option F64 → F64 → Bool
  at_least none val = true
  at_least (some lo) val = x.f64_le lo val

  abbrev at_most : Option F64 → F64 → Bool
  at_most none val = true
  at_most (some hi) val = x.f64_le val hi

  abbrev in_values : Option F64 → Option F64 → ℤ × F64 → Bool
  in_values lo hi (ts, val) = at_least lo val && at_most hi val

  module _ (now : ℕ) (key : Str) where
    -- Streams: the identifier "*" is drawn from the clock.
    abbrev entry_id : Str → Str
    entry_id id = if str_eq id (codes "*") then show_ℕ now ++ codes "-0" else id

    unfoldable pub xadd_with_ttl :
        Str
        → List (Str × Str)
        → Option SignatureMetadata
        → Option ℕ
        → BlobStorage Fs Cache
        → Outcome x Str
    xadd_with_ttl id fields metadata ttl_seconds s =
        let (r, s') =
          writing x as_stream stream StoreType.stream []
            (λ entries. entries ++ (entry_id id, fields) ∷ []) now key metadata ttl_seconds s in
        elim r [ ok _ ↦ (ok (entry_id id), s') | err e ↦ (err e, s') ]

    unfoldable pub xrange :
        Str → Str → Option ℕ → BlobStorage Fs Cache → Outcome x (List StreamEntry)
    xrange start end count s =
        reading x as_stream (λ entries. ok (take_opt count (filter (id_in start end) entries))) []
          now key s

    unfoldable pub xrevrange :
        Str → Str → Option ℕ → BlobStorage Fs Cache → Outcome x (List StreamEntry)
    xrevrange start end count s =
        reading x as_stream
          (λ entries. ok (take_opt count (reverse (filter (id_in_rev start end) entries)))) [] now
          key s

    unfoldable pub xlen : BlobStorage Fs Cache → Outcome x ℕ
    xlen s = reading x as_stream (λ entries. ok (length entries)) 0 now key s

    unfoldable pub filter_stream :
        Str → Str → Option Str → BlobStorage Fs Cache → Outcome x (List StreamEntry)
    filter_stream start end pat s =
        reading x as_stream
          (λ entries. ok (filter (λ e. id_in start end e && matches_pattern pat e) entries)) [] now
          key s

    -- Time series: one value for each timestamp, in their order.
    unfoldable pub ts_add_with_ttl :
        ℤ → F64 → Option SignatureMetadata → Option ℕ → BlobStorage Fs Cache → Outcome x (Unit {0})
    ts_add_with_ttl timestamp value metadata ttl_seconds s =
        writing x as_time_series time_series StoreType.time_series []
          (btree_insert eqb_ℤ ltb_ℤ timestamp value) now key metadata ttl_seconds s

    unfoldable pub ts_range : ℤ → ℤ → BlobStorage Fs Cache → Outcome x (List (ℤ × F64))
    ts_range from to s = reading x as_time_series (λ points. ranged from to points) [] now key s

    unfoldable pub ts_get : BlobStorage Fs Cache → Outcome x (Option (ℤ × F64))
    ts_get s = reading x as_time_series (λ points. ok (get_last? points)) none now key s

    unfoldable pub filter_timeseries :
        ℤ → ℤ → Option F64 → Option F64 → BlobStorage Fs Cache → Outcome x (List (ℤ × F64))
    filter_timeseries from to lo hi s =
        reading x as_time_series
          (λ points. do found ← ranged from to points; ok (filter (in_values lo hi) found)) [] now
          key s

    -- Locations
    unfoldable pub geoadd_with_ttl :
        F64 → F64 → Str → Option SignatureMetadata → Option ℕ → BlobStorage Fs Cache → Outcome x ℕ
    geoadd_with_ttl longitude latitude member metadata ttl_seconds s =
        let (r, s') =
          writing x as_geo geo StoreType.geo [] (insert member (longitude, latitude)) now key
            metadata ttl_seconds s in
        elim r [ ok _ ↦ (ok 1, s') | err e ↦ (err e, s') ]

    unfoldable pub geopos : Str → BlobStorage Fs Cache → Outcome x (Option (F64 × F64))
    geopos member s = reading x as_geo (λ locations. ok (lookup member locations)) none now key s
