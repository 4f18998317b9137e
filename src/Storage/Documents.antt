-- ===== src/Storage/Documents.antt =====
-- src/storage.rs, JSON documents and sorted sets of them: a write replaces what has the same identifier.
use cyberfly_rust_node.Common.{
  ℕ, Bool, false, Option, none, some, List, [], ◌∷◌, if◌then◌else◌, filter, not,
}
use cyberfly_rust_node.Common.Text.{Str, str_eq}
use cyberfly_rust_node.Common.Assoc.{str_key}
use cyberfly_rust_node.Common.Result.{Result, ok, err}
use cyberfly_rust_node.Sync.Operation.{F64}
use cyberfly_rust_node.Storage.Value.{
  StoreType, SignatureMetadata, new_ttl, StoredValue, json, sorted_set,
}
use cyberfly_rust_node.Storage.Core.{
  StorageError, wrong_type, bad_json, encode_failed, Backend, BlobStorage, Outcome, get_value,
  store_value, invalidate, index_remove, index_keys_with_prefix,
}
use cyberfly_rust_node.Storage.Typed.{btree_insert, str_ltb, as_sorted_set, writing}

abbrev id_is : Str → Option Str → Bool
id_is target none = false
id_is target (some id) = str_eq id target

module _ {J Fs Cache : Type 0} (x : Backend J Fs Cache) where
  -- Documents with the identifier are taken out of the cache and the index.
  abbrev drop_if :
      Str
      → Str
      → Result StorageError (Option (StoredValue J))
      → BlobStorage Fs Cache
      → BlobStorage Fs Cache
  drop_if target key (ok (some (json e))) s =
      if id_is target e.body.id then index_remove x key (invalidate x key s) else s
  drop_if target key _ s = s

  unfoldable pub delete_loop : ℕ → Str → List Str → BlobStorage Fs Cache → BlobStorage Fs Cache
  delete_loop now target [] s = s
  delete_loop now target (key ∷ keys) s =
      let (r, s') = get_value x now key s in delete_loop now target keys (drop_if target key r s')

  unfoldable pub delete_json_by_id : ℕ → Str → Str → BlobStorage Fs Cache → BlobStorage Fs Cache
  delete_json_by_id now key_prefix target s =
      delete_loop now target (index_keys_with_prefix x key_prefix s) s

  abbrev pub deduplicated : ℕ → Str → Option Str → BlobStorage Fs Cache → BlobStorage Fs Cache
  deduplicated now key none s = s
  deduplicated now key (some id) s = delete_json_by_id now key id s

  unfoldable pub set_json_with_ttl :
      ℕ
      → Str
      → Str
      → Option SignatureMetadata
      → Option ℕ
      → BlobStorage Fs Cache
      → Outcome x (Unit {0})
  set_json_with_ttl now key value metadata ttl_seconds s = elim (x.parse_json value) [
    | none ↦ (err bad_json, s)
    | some doc ↦
        store_value x key
          (json (record {
            body = record { doc = doc; id = x.json_id doc };
            metadata = metadata;
            ttl = elim ttl_seconds [ none ↦ none | some ttl ↦ some (new_ttl now (some ttl)) ];
          }))
          StoreType.json (deduplicated now key (x.json_id doc) s)
  ]

  abbrev pub json_text : Option (StoredValue J) → Result StorageError (Option Str)
  json_text none = ok none
  json_text (some (json e)) = elim (x.json_to_string e.body.doc) [
    | none ↦ err encode_failed
    | some t ↦ ok (some t)
  ]
  json_text (some _) = err wrong_type

  unfoldable pub get_json : ℕ → Str → BlobStorage Fs Cache → Outcome x (Option Str)
  get_json now key s =
      let (r, s') = get_value x now key s in
      elim r [ err e ↦ (err e, s') | ok o ↦ (json_text o, s') ]

  -- The members of a sorted set whose JSON has the identifier.
  abbrev member_has_id : Str → Str × F64 → Bool
  member_has_id target (member, score) = elim (x.parse_json member) [
    | none ↦ false
    | some doc ↦ id_is target (x.json_id doc)
  ]

  abbrev without_id : Str → List (Str × F64) → List (Str × F64)
  without_id target members = filter (λ m. not (member_has_id target m)) members

  abbrev prune_set :
      Str
      → Str
      → Result StorageError (Option (StoredValue J))
      → BlobStorage Fs Cache
      → Outcome x (Unit {0})
  prune_set key target (ok (some (sorted_set e))) s =
      store_value x key (sorted_set (record e { body = without_id target e.body }))
        StoreType.sorted_set s
  prune_set key target _ s = (ok tt, s)

  unfoldable pub delete_sorted_set_by_id :
      ℕ → Str → Str → BlobStorage Fs Cache → Outcome x (Unit {0})
  delete_sorted_set_by_id now key target s =
      let (r, s') = get_value x now key s in prune_set key target r s'

  abbrev pruned : ℕ → Str → Option Str → BlobStorage Fs Cache → Outcome x (Unit {0})
  pruned now key none s = (ok tt, s)
  pruned now key (some id) s = delete_sorted_set_by_id now key id s

  unfoldable pub add_sorted_set_json_with_metadata :
      ℕ → Str → F64 → Str → Option SignatureMetadata → BlobStorage Fs Cache → Outcome x (Unit {0})
  add_sorted_set_json_with_metadata now key score text metadata s = elim (x.parse_json text) [
    | none ↦ (err bad_json, s)
    | some doc ↦
        let (r, s') = pruned now key (x.json_id doc) s in
        elim r [
          | err e ↦ (err e, s')
          | ok _ ↦
              writing x as_sorted_set sorted_set StoreType.sorted_set []
                (btree_insert str_eq str_ltb text score) now key metadata none s'
        ]
  ]
