-- ===== src/Storage/Core.antt =====
-- src/storage.rs, `TieredCache` and the parts of `BlobStorage` under its typed operations.
use cyberfly_rust_node.Common.{
  ℕ, Bool, Option, none, some, List, if◌then◌else◌, is_some, map, filter,
}
use cyberfly_rust_node.Common.Text.{Str, str_leb, starts_with}
use cyberfly_rust_node.Common.Assoc.{lookup, tree_insert, remove, str_key}
use cyberfly_rust_node.Common.Result.{Result, ok, err}
use cyberfly_rust_node.Sync.Operation.{F64}
use cyberfly_rust_node.Sync.Store.{Hash}
use cyberfly_rust_node.Storage.Value.{StoreType, StoredValue, is_value_expired}

pub data StorageError : Type 0 where
  encode_failed decode_failed blob_failed wrong_type bad_json slice_panic range_panic bad_pattern :
      StorageError

-- What the crates `bincode`, `iroh_blobs`, `moka` and `serde_json` provide, and how f64 compare.
-- `none` is an error. A cache may drop an entry at any time: `cache_get` takes the moment.
pub record Backend (J Fs Cache : Type 0) : Type 0 where
  pub value_to_bytes : StoredValue J → Option (List ℕ)
  pub value_from_bytes : List ℕ → Option (StoredValue J)
  pub add_bytes : Fs → List ℕ → Option (Hash × Fs)
  pub get_bytes : Fs → Hash → Option (List ℕ)
  pub cache_get : ℕ → Cache → Str → Option (StoredValue J)
  pub cache_insert : Str → StoredValue J → Cache → Cache
  pub cache_invalidate : Str → Cache → Cache
  pub parse_json : Str → Option J
  pub json_to_string : J → Option Str
  -- json.get("_id").and_then(|v| v.as_str())
  pub json_id : J → Option Str
  -- a.partial_cmp(b).unwrap_or(Equal) is not Greater
  pub score_leb : F64 → F64 → Bool
  -- a <= b, which a NaN fails
  pub f64_le : F64 → F64 → Bool

-- The blob store, the sled tree from keys, in their order, to blobs and types, and the two tiers of the cache. Errors
-- of sled itself and of joining threads are left out.
pub record BlobStorage (Fs Cache : Type 0) : Type 0 where
  pub store : Fs
  pub index_tree : List (Str × (Hash × StoreType))
  pub hot : Cache
  pub warm : Cache

module _ {J Fs Cache : Type 0} (x : Backend J Fs Cache) where
  abbrev pub Storage : Type 0
  Storage = BlobStorage Fs Cache

  abbrev pub Outcome : Type 0 → Type 0
  Outcome A = Result StorageError A × Storage

  -- A hit in the warm tier is promoted.
  unfoldable pub cached : ℕ → Str → Storage → Option (StoredValue J) × Storage
  cached now key s = elim (x.cache_get now s.hot key) [
    | some v ↦ (some v, s)
    | none ↦ elim (x.cache_get now s.warm key) [
      | some v ↦ (some v, record s { hot = x.cache_insert key v s.hot })
      | none ↦ (none, s)
    ]
  ]

  unfoldable pub cache_value : Str → StoredValue J → Storage → Storage
  cache_value key v s = record s { hot = x.cache_insert key v s.hot }

  unfoldable pub invalidate : Str → Storage → Storage
  invalidate key s = record s {
    hot = x.cache_invalidate key s.hot;
    warm = x.cache_invalidate key s.warm;
  }

  unfoldable pub index_get : Str → Storage → Option (Hash × StoreType)
  index_get key s = lookup key s.index_tree

  unfoldable pub index_remove : Str → Storage → Storage
  index_remove key s = record s { index_tree = remove key s.index_tree }

  unfoldable pub exists : Str → Storage → Bool
  exists key s = is_some (lookup key s.index_tree)

  -- The keys of the tree that start with the prefix, each once and in the order of the tree.
  abbrev key_of : Str × (Hash × StoreType) → Str
  key_of (k, _) = k

  unfoldable pub index_keys_with_prefix : Str → Storage → List Str
  index_keys_with_prefix prefix s = filter (starts_with prefix) (map key_of s.index_tree)

  unfoldable pub delete : Str → Storage → Storage
  delete key s = invalidate key (index_remove key s)

  unfoldable pub store_value : Str → StoredValue J → StoreType → Storage → Outcome (Unit {0})
  store_value key v store_type s = elim (x.value_to_bytes v) [
    | none ↦ (err encode_failed, s)
    | some bytes ↦ elim (x.add_bytes s.store bytes) [
      | none ↦ (err blob_failed, s)
      | some (hash, store) ↦ (
        ok tt,
        cache_value key v (record s {
          store = store;
          index_tree = tree_insert str_leb key (hash, store_type) s.index_tree;
        }),
      )
    ]
  ]

  -- The path of `get_value` past the cache.
  unfoldable pub load_value : ℕ → Str → Storage → Outcome (Option (StoredValue J))
  load_value now key s = elim (lookup key s.index_tree) [
    | none ↦ (ok none, s)
    | some (hash, store_type) ↦ elim (x.get_bytes s.store hash) [
      | none ↦ (err blob_failed, s)
      | some bytes ↦ elim (x.value_from_bytes bytes) [
        | none ↦ (err decode_failed, s)
        | some v ↦
            if is_value_expired now v
            then (ok none, delete key s)
            else (ok (some v), cache_value key v s)
      ]
    ]
  ]

  -- A cached value that has expired is invalidated, then deleted.
  unfoldable pub get_value : ℕ → Str → Storage → Outcome (Option (StoredValue J))
  get_value now key s =
      let (hit, s') = cached now key s in
      elim hit [
        | some v ↦
            if is_value_expired now v
            then (ok none, delete key (invalidate key s'))
            else (ok (some v), s')
        | none ↦ load_value now key s'
      ]
