-- ===== src/Storage/Listings.antt =====
-- src/storage.rs: the listings over all keys of a prefix or a pattern.
use cyberfly_rust_node.Common.{
  ℕ, Bool, Option, none, some, List, [], ◌∷◌, ◌++◌, ◌==◌, if◌then◌else◌, map,
}
use cyberfly_rust_node.Common.Int.{ℤ}
use cyberfly_rust_node.Common.Text.{Str}
use cyberfly_rust_node.Common.Result.{Result, ok, err}
use cyberfly_rust_node.Sync.Operation.{F64}
use cyberfly_rust_node.Storage.Value.{
  StoreType, SignatureMetadata, Entry, JsonBody, StreamEntry, StoredValue, json,
}
use cyberfly_rust_node.Storage.Core.{
  StorageError, Backend, BlobStorage, Outcome, get_value, index_get, index_keys_with_prefix,
}
use cyberfly_rust_node.Storage.Typed.{
  as_string, as_hash, as_list, as_set, as_sorted_set, as_stream, as_time_series, as_geo,
}
use cyberfly_rust_node.Storage.Documents.{get_json}
use cyberfly_rust_node.Storage.Keys.{discriminant, get_keys_by_type}

abbrev pub is_type : StoreType → StoreType → Bool
is_type t u = discriminant u == discriminant t

-- format!("{}:", db_prefix)
abbrev pub with_colon : Str → Str
with_colon db_prefix = db_prefix ++ b':' ∷ []

abbrev pub as_json : {J : Type 0} → StoredValue J → Option (Entry (JsonBody J))
as_json (json e) = some e
as_json _ = none

abbrev pub itself : {A : Type 0} → A → A
itself a = a

abbrev pub json_doc : {J : Type 0} → JsonBody J → J
json_doc b = b.doc

abbrev pub flat : Str × (F64 × F64) → Str × F64 × F64
flat (m, (lon, lat)) = (m, lon, lat)

module _ {J Fs Cache : Type 0} (x : Backend J Fs Cache) where
  abbrev pub picked :
      {R : Type 0}
      → (StoredValue J → Option R)
      → Result StorageError (Option (StoredValue J))
      → List R
      → List R
  picked pick (ok (some v)) rest = elim (pick v) [ none ↦ rest | some r ↦ r ∷ rest ]
  picked pick (ok none) rest = rest
  picked pick (err e) rest = rest

  -- A key whose type in the index is not wanted is not read.
  abbrev pub read_if :
      (StoreType → Bool) → ℕ → Str → BlobStorage Fs Cache → Outcome x (Option (StoredValue J))
  read_if wanted now key s = elim (index_get x key s) [
    | none ↦ (ok none, s)
    | some (h, t) ↦ if wanted t then get_value x now key s else (ok none, s)
  ]

  -- The loop of every listing: the keys of the wanted types are read, and a failed read is left out.
  unfoldable pub list_loop :
      {R : Type 0}
      → (StoreType → Bool)
      → (Str → StoredValue J → Option R)
      → ℕ
      → List Str
      → BlobStorage Fs Cache
      → List R × BlobStorage Fs Cache
  list_loop wanted pick now [] s = ([], s)
  list_loop wanted pick now (key ∷ keys) s =
      let (r, s') = read_if wanted now key s in
      let (rest, s'') = list_loop wanted pick now keys s' in (picked (pick key) r rest, s'')

  -- A row of a typed listing: the key, the body through `f` and the metadata.
  abbrev pub row_of :
      {A B : Type 0}
      → (StoredValue J → Option (Entry A))
      → (A → B)
      → Str
      → StoredValue J
      → Option (Str × B × Option SignatureMetadata)
  row_of cast f key v = elim (cast v) [ none ↦ none | some e ↦ some (key, f e.body, e.metadata) ]

  abbrev pub list_typed :
      {A B : Type 0}
      → StoreType
      → (StoredValue J → Option (Entry A))
      → (A → B)
      → ℕ
      → Str
      → BlobStorage Fs Cache
      → List (Str × B × Option SignatureMetadata) × BlobStorage Fs Cache
  list_typed t cast f now db_prefix s =
      list_loop (is_type t) (row_of cast f) now (index_keys_with_prefix x (with_colon db_prefix) s)
        s

  module _ (now : ℕ) (db_prefix : Str) where
    unfoldable pub get_all_streams : BlobStorage Fs Cache → List Str
    get_all_streams s = get_keys_by_type x db_prefix StoreType.stream s

    unfoldable pub get_all_json_with_meta :
        BlobStorage Fs Cache → List (Str × J × Option SignatureMetadata) × BlobStorage Fs Cache
    get_all_json_with_meta s = list_typed StoreType.json as_json json_doc now db_prefix s

    unfoldable pub get_all_jsons :
        BlobStorage Fs Cache → List (Str × J × Option SignatureMetadata) × BlobStorage Fs Cache
    get_all_jsons s = get_all_json_with_meta s

    unfoldable pub get_all_strings :
        BlobStorage Fs Cache → List (Str × Str × Option SignatureMetadata) × BlobStorage Fs Cache
    get_all_strings s = list_typed StoreType.string as_string itself now db_prefix s

    unfoldable pub get_all_hashes :
        BlobStorage Fs Cache
        → List (Str × List (Str × Str) × Option SignatureMetadata) × BlobStorage Fs Cache
    get_all_hashes s = list_typed StoreType.hash as_hash itself now db_prefix s

    unfoldable pub get_all_lists :
        BlobStorage Fs Cache
        → List (Str × List Str × Option SignatureMetadata) × BlobStorage Fs Cache
    get_all_lists s = list_typed StoreType.list as_list itself now db_prefix s

    unfoldable pub get_all_sets :
        BlobStorage Fs Cache
        → List (Str × List Str × Option SignatureMetadata) × BlobStorage Fs Cache
    get_all_sets s = list_typed StoreType.set as_set itself now db_prefix s

    unfoldable pub get_all_sorted_sets :
        BlobStorage Fs Cache
        → List (Str × List (Str × F64) × Option SignatureMetadata) × BlobStorage Fs Cache
    get_all_sorted_sets s = list_typed StoreType.sorted_set as_sorted_set itself now db_prefix s

    unfoldable pub get_all_stream_entries :
        BlobStorage Fs Cache
        → List (Str × List StreamEntry × Option SignatureMetadata) × BlobStorage Fs Cache
    get_all_stream_entries s = list_typed StoreType.stream as_stream itself now db_prefix s

    unfoldable pub get_all_timeseries :
        BlobStorage Fs Cache
        → List (Str × List (ℤ × F64) × Option SignatureMetadata) × BlobStorage Fs Cache
    get_all_timeseries s = list_typed StoreType.time_series as_time_series itself now db_prefix s

    unfoldable pub get_all_geo :
        BlobStorage Fs Cache
        → List (Str × List (Str × F64 × F64) × Option SignatureMetadata) × BlobStorage Fs Cache
    get_all_geo s = list_typed StoreType.geo as_geo (map flat) now db_prefix s

    abbrev document_if : Str → BlobStorage Fs Cache → Outcome x (Option Str)
    document_if key s = elim (index_get x key s) [
      | none ↦ (ok none, s)
      | some (h, t) ↦ if is_type StoreType.json t then get_json x now key s else (ok none, s)
    ]

    abbrev pushed : Option Str → Result StorageError (List Str) → Result StorageError (List Str)
    pushed none r = r
    pushed (some d) (ok docs) = ok (d ∷ docs)
    pushed (some d) (err e) = err e

    -- Here a document that cannot be read ends the listing.
    unfoldable pub json_loop : List Str → BlobStorage Fs Cache → Outcome x (List Str)
    json_loop [] s = (ok [], s)
    json_loop (key ∷ keys) s =
        let (r, s') = document_if key s in
        let (rest, s'') = json_loop keys s' in
        elim r [ err e ↦ (err e, s') | ok o ↦ (pushed o rest, s'') ]

    unfoldable pub get_all_json : BlobStorage Fs Cache → Outcome x (List Str)
    get_all_json s = json_loop (index_keys_with_prefix x (with_colon db_prefix) s) s
