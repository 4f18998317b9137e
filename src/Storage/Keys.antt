-- ===== src/Storage/Keys.antt =====
-- src/storage.rs: times to live, the clean-up of expired keys, and the keys of a type.
use cyberfly_rust_node.Common.{
  ℕ, suc, Bool, true, false, Option, none, some, List, [], ◌∷◌, ◌++◌, ◌==◌, filter, is_some,
}
use cyberfly_rust_node.Common.Int.{ℤ, pos}
use cyberfly_rust_node.Common.Text.{Str}
use cyberfly_rust_node.Common.Assoc.{str_key}
use cyberfly_rust_node.Common.Result.{Result, ok, err}
use cyberfly_rust_node.Storage.Value.{
  StoreType, TtlMetadata, new_ttl, remaining_ttl_seconds, StoredValue, type_of, get_ttl_metadata,
  with_ttl,
}
use cyberfly_rust_node.Storage.Core.{
  StorageError, Backend, BlobStorage, Outcome, get_value, store_value, index_get,
  index_keys_with_prefix,
}

pub record TtlInfo : Type 0 where
  pub ttl_seconds : Option ℕ
  pub expires_at : Option ℤ
  pub created_at : ℤ
  pub remaining_seconds : Option ℕ
  pub has_ttl : Bool

abbrev ttl_info : ℕ → Option TtlMetadata → TtlInfo
ttl_info now none = record {
  ttl_seconds = none;
  expires_at = none;
  created_at = pos 0;
  remaining_seconds = none;
  has_ttl = false;
}
ttl_info now (some t) = record {
  ttl_seconds = t.ttl_seconds;
  expires_at = t.expires_at;
  created_at = t.created_at;
  remaining_seconds = remaining_ttl_seconds now t;
  has_ttl = is_some t.ttl_seconds;
}

-- The keys of the tree, which `iter` visits.
abbrev pub keys_of : List (Str × (ℕ × StoreType)) → List Str
keys_of [] = []
keys_of ((k, e) ∷ tree) = k ∷ keys_of tree

-- The discriminant of a type.
abbrev pub discriminant : StoreType → ℕ
discriminant StoreType.string = 0
discriminant StoreType.hash = 1
discriminant StoreType.list = 2
discriminant StoreType.set = 3
discriminant StoreType.sorted_set = 4
discriminant StoreType.json = 5
discriminant StoreType.stream = 6
discriminant StoreType.time_series = 7
discriminant StoreType.geo = 8

module _ {J Fs Cache : Type 0} (x : Backend J Fs Cache) where
  unfoldable pub get_ttl : ℕ → Str → BlobStorage Fs Cache → Outcome x (Option TtlInfo)
  get_ttl now key s =
      let (r, s') = get_value x now key s in
      elim r [
        | err e ↦ (err e, s')
        | ok o ↦ elim o [
          | none ↦ (ok none, s')
          | some v ↦ (ok (some (ttl_info now (get_ttl_metadata v))), s')
        ]
      ]

  -- The value is stored again with another time to live, under its type.
  abbrev restored : Str → Option TtlMetadata → StoredValue J → BlobStorage Fs Cache → Outcome x Bool
  restored key t v s =
      let (r, s') = store_value x key (with_ttl t v) (type_of (with_ttl t v)) s in
      elim r [ ok _ ↦ (ok true, s') | err e ↦ (err e, s') ]

  unfoldable pub set_key_ttl : ℕ → Str → ℕ → BlobStorage Fs Cache → Outcome x Bool
  set_key_ttl now key ttl_seconds s =
      let (r, s') = get_value x now key s in
      elim r [
        | err e ↦ (err e, s')
        | ok o ↦ elim o [
          | none ↦ (ok false, s')
          | some v ↦ restored key (some (new_ttl now (some ttl_seconds))) v s'
        ]
      ]

  unfoldable pub persist_key : ℕ → Str → BlobStorage Fs Cache → Outcome x Bool
  persist_key now key s =
      let (r, s') = get_value x now key s in
      elim r [
        | err e ↦ (err e, s')
        | ok o ↦ elim o [ none ↦ (ok false, s') | some v ↦ restored key none v s' ]
      ]

  -- `if let Ok(None) = … { expired_count += 1 }`
  abbrev counted : Result StorageError (Option (StoredValue J)) → ℕ → ℕ
  counted (ok none) n = suc n
  counted (ok (some v)) n = n
  counted (err e) n = n

  unfoldable pub cleanup_loop : ℕ → List Str → ℕ → BlobStorage Fs Cache → ℕ × BlobStorage Fs Cache
  cleanup_loop now [] n s = (n, s)
  cleanup_loop now (key ∷ keys) n s =
      let (r, s') = get_value x now key s in cleanup_loop now keys (counted r n) s'

  unfoldable pub cleanup_expired_keys : ℕ → BlobStorage Fs Cache → ℕ × BlobStorage Fs Cache
  cleanup_expired_keys now s = cleanup_loop now (keys_of s.index_tree) 0 s

  abbrev has_type : StoreType → BlobStorage Fs Cache → Str → Bool
  has_type t s key = elim (index_get x key s) [
    | none ↦ false
    | some (h, u) ↦ discriminant u == discriminant t
  ]

  unfoldable pub get_keys_by_type : Str → StoreType → BlobStorage Fs Cache → List Str
  get_keys_by_type db_prefix t s =
      filter (has_type t s) (index_keys_with_prefix x (db_prefix ++ b':' ∷ []) s)
