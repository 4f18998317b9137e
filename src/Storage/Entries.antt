-- ===== src/Storage/Entries.antt =====
-- src/storage.rs: the entries of all types as JSON, the scan of keys, and sorted sets of documents.
use cyberfly_rust_node.Common.{
  ℕ, Bool, true, Option, none, some, List, [], ◌∷◌, ◌++◌, ◌==◌, if◌then◌else◌, filter, map,
}
use cyberfly_rust_node.Common.Int.{ℤ}
use cyberfly_rust_node.Common.Lists.{sort_by}
use cyberfly_rust_node.Common.Text.{Str, codes}
use cyberfly_rust_node.Common.Result.{Result, ok, err}
use cyberfly_rust_node.Sync.Operation.{F64}
use cyberfly_rust_node.Storage.Value.{
  StoreType, SignatureMetadata, StreamEntry, StoredValue, string, hash, list, set, sorted_set, json,
  stream, time_series, geo, type_of,
}
use cyberfly_rust_node.Storage.Core.{
  StorageError, wrong_type, bad_pattern, Backend, BlobStorage, Outcome, get_value,
  index_keys_with_prefix,
}
use cyberfly_rust_node.Storage.Typed.{as_sorted_set, slice, or_panic}
use cyberfly_rust_node.Storage.Listings.{list_loop, with_colon}
use cyberfly_rust_node.Storage.Keys.{keys_of}

pub record SortedSetEntry (J : Type 0) : Type 0 where
  pub score : F64
  pub doc : J
  pub metadata : Option SignatureMetadata

pub record StoredEntry (J : Type 0) : Type 0 where
  pub key : Str
  pub store_type : StoreType
  pub value : J
  pub metadata : Option SignatureMetadata

-- How serde_json makes documents: `json!` and `to_value` on texts, numbers, lists and maps of texts.
pub record JsonBuild (J : Type 0) : Type 0 where
  pub text : Str → J
  pub of_f64 : F64 → J
  pub of_i64 : ℤ → J
  pub array : List J → J
  pub object : List (Str × J) → J

abbrev replace_char : ℕ → Str → Str → Str
replace_char c by [] = []
replace_char c by (d ∷ s) = (if d == c then by else d ∷ []) ++ replace_char c by s

abbrev pub any_type : StoreType → Bool
any_type t = true

module _ {J Fs Cache : Type 0} (x : Backend J Fs Cache) where
  module _ (now : ℕ) (db_prefix : Str) where
    module _ (b : JsonBuild J) where
      abbrev text_field : Str × Str → Str × J
      text_field (k, v) = (k, b.text v)

      -- A member that is no JSON stands as a text.
      abbrev scored : Str × F64 → J
      scored (member, score) = b.object (
          (codes "score", b.of_f64 score)
          ∷ (codes "data", elim (x.parse_json member) [ none ↦ b.text member | some d ↦ d ])
          ∷ [])

      abbrev stream_doc : StreamEntry → J
      stream_doc (id, fields) =
          b.object
            ((codes "id", b.text id) ∷ (codes "fields", b.object (map text_field fields)) ∷ [])

      abbrev point : ℤ × F64 → J
      point (ts, val) =
          b.object ((codes "timestamp", b.of_i64 ts) ∷ (codes "value", b.of_f64 val) ∷ [])

      abbrev location : Str × (F64 × F64) → J
      location (member, (lon, lat)) = b.object (
          (codes "member", b.text member)
          ∷ (codes "lon", b.of_f64 lon)
          ∷ (codes "lat", b.of_f64 lat)
          ∷ [])

      -- The JSON form of a value.
      unfoldable pub to_json : StoredValue J → J
      to_json (string e) = b.object ((codes "value", b.text e.body) ∷ [])
      to_json (hash e) = b.object (map text_field e.body)
      to_json (list e) = b.array (map b.text e.body)
      to_json (set e) = b.array (map b.text e.body)
      to_json (sorted_set e) = b.array (map scored e.body)
      to_json (json e) = e.body.doc
      to_json (stream e) = b.array (map stream_doc e.body)
      to_json (time_series e) = b.array (map point e.body)
      to_json (geo e) = b.array (map location e.body)

      abbrev metadata_of : StoredValue J → Option SignatureMetadata
      metadata_of (string e) = e.metadata
      metadata_of (hash e) = e.metadata
      metadata_of (list e) = e.metadata
      metadata_of (set e) = e.metadata
      metadata_of (sorted_set e) = e.metadata
      metadata_of (json e) = e.metadata
      metadata_of (stream e) = e.metadata
      metadata_of (time_series e) = e.metadata
      metadata_of (geo e) = e.metadata

      unfoldable pub stored_entry : Str → StoredValue J → StoredEntry J
      stored_entry key v = record {
        key = key;
        store_type = type_of v;
        value = to_json v;
        metadata = metadata_of v;
      }

      unfoldable pub get_all : BlobStorage Fs Cache → List (StoredEntry J) × BlobStorage Fs Cache
      get_all s =
          list_loop x any_type (λ key v. some (stored_entry key v)) now
            (index_keys_with_prefix x (with_colon db_prefix) s) s

  -- `*` and `?` become `.*` and `.`; the expression is not anchored. `regex` is `Regex::new`.
  unfoldable pub scan_keys :
      (regex : Str → Option (Str → Bool))
      → Str
      → BlobStorage Fs Cache
      → Result StorageError (List Str)
  scan_keys regex pattern s =
      elim (regex (replace_char b'?' (codes ".") (replace_char b'*' (codes ".*") pattern))) [
        | none ↦ err bad_pattern
        | some is_match ↦ ok (filter is_match (keys_of s.index_tree))
      ]

  abbrev parsed_entries : Option SignatureMetadata → List (Str × F64) → List (SortedSetEntry J)
  parsed_entries metadata [] = []
  parsed_entries metadata ((member, score) ∷ items) =
      let rest = parsed_entries metadata items in
      elim (x.parse_json member) [
        | none ↦ rest
        | some d ↦ record { score = score; doc = d; metadata = metadata } ∷ rest
      ]

  abbrev score_le : Str × F64 → Str × F64 → Bool
  score_le (_, a) (_, b) = x.score_leb a b

  abbrev sorted_set_json :
      ℤ → ℤ → Option (StoredValue J) → Result StorageError (List (SortedSetEntry J))
  sorted_set_json start stop none = ok []
  sorted_set_json start stop (some v) = elim (as_sorted_set v) [
    | none ↦ err wrong_type
    | some e ↦ elim (or_panic (slice start stop (sort_by score_le e.body))) [
      | err p ↦ err p
      | ok items ↦ ok (parsed_entries e.metadata items)
    ]
  ]

  unfoldable pub get_sorted_set_json :
      ℕ → Str → ℤ → ℤ → BlobStorage Fs Cache → Outcome x (List (SortedSetEntry J))
  get_sorted_set_json now key start stop s =
      let (r, s') = get_value x now key s in
      elim r [ err e ↦ (err e, s') | ok o ↦ (sorted_set_json start stop o, s') ]
