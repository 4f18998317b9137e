-- ===== src/Storage/Ops.antt =====
-- src/storage.rs, the operations of `BlobStorage` on strings, hashes, lists, sets and sorted sets. Each
-- write has three forms in the source, of which two pass `None` for the metadata or the time to live.
use cyberfly_rust_node.Common.{
  ℕ, Bool, ◌&&◌, Option, none, some, List, [], ◌∷◌, ◌++◌, map, filter, sort_by,
}
use cyberfly_rust_node.Common.Int.{ℤ}
use cyberfly_rust_node.Common.Text.{Str, str_eq, str_contains}
use cyberfly_rust_node.Common.Assoc.{lookup, insert, add, str_key}
use cyberfly_rust_node.Common.Result.{ok}
use cyberfly_rust_node.Sync.Operation.{F64}
use cyberfly_rust_node.Storage.Value.{
  StoreType, SignatureMetadata, new_ttl, string, hash, list, set, sorted_set,
}
use cyberfly_rust_node.Storage.Core.{Backend, BlobStorage, Outcome, store_value}
use cyberfly_rust_node.Storage.Typed.{
  btree_insert, str_ltb, slice, or_panic, as_string, as_hash, as_list, as_set, as_sorted_set,
  reading, writing,
}

abbrev field_contains : Str → Str × Str → Bool
field_contains pat (field, value) = str_contains pat field

abbrev member_of : Str × F64 → Str
member_of (member, score) = member

module _ {J Fs Cache : Type 0} (x : Backend J Fs Cache) where
  abbrev score_le : Str × F64 → Str × F64 → Bool
  score_le (a, s) (b, t) = x.score_leb s t

  abbrev within_scores : F64 → F64 → Str × F64 → Bool
  within_scores lo hi (member, score) = x.f64_le lo score && x.f64_le score hi

  module _ (now : ℕ) (key : Str) where
    -- Strings: a write replaces whatever the key holds.
    unfoldable pub set_string_with_ttl :
        Str → Option SignatureMetadata → Option ℕ → BlobStorage Fs Cache → Outcome x (Unit {0})
    set_string_with_ttl value metadata ttl_seconds s =
        store_value x key
          (string (record {
            body = value;
            metadata = metadata;
            ttl = elim ttl_seconds [ none ↦ none | some ttl ↦ some (new_ttl now (some ttl)) ];
          }))
          StoreType.string s

    unfoldable pub get_string : BlobStorage Fs Cache → Outcome x (Option Str)
    get_string s = reading x as_string (λ v. ok (some v)) none now key s

    -- Hashes
    unfoldable pub set_hash_with_ttl :
        Str
        → Str
        → Option SignatureMetadata
        → Option ℕ
        → BlobStorage Fs Cache
        → Outcome x (Unit {0})
    set_hash_with_ttl field value metadata ttl_seconds s =
        writing x as_hash hash StoreType.hash [] (insert field value) now key metadata ttl_seconds s

    unfoldable pub get_hash : Str → BlobStorage Fs Cache → Outcome x (Option Str)
    get_hash field s = reading x as_hash (λ fields. ok (lookup field fields)) none now key s

    unfoldable pub get_all_hash : BlobStorage Fs Cache → Outcome x (List (Str × Str))
    get_all_hash s = reading x as_hash (λ fields. ok fields) [] now key s

    unfoldable pub filter_hash : Str → BlobStorage Fs Cache → Outcome x (List (Str × Str))
    filter_hash pat s =
        reading x as_hash (λ fields. ok (filter (field_contains pat) fields)) [] now key s

    -- Lists
    unfoldable pub push_list_with_ttl :
        Str → Option SignatureMetadata → Option ℕ → BlobStorage Fs Cache → Outcome x (Unit {0})
    push_list_with_ttl value metadata ttl_seconds s =
        writing x as_list list StoreType.list [] (λ items. items ++ value ∷ []) now key metadata
          ttl_seconds s

    unfoldable pub get_list : ℤ → ℤ → BlobStorage Fs Cache → Outcome x (List Str)
    get_list start stop s =
        reading x as_list (λ items. or_panic (slice start stop items)) [] now key s

    unfoldable pub filter_list : Str → BlobStorage Fs Cache → Outcome x (List Str)
    filter_list pat s =
        reading x as_list (λ items. ok (filter (str_contains pat) items)) [] now key s

    -- Sets
    unfoldable pub add_set_with_ttl :
        Str → Option SignatureMetadata → Option ℕ → BlobStorage Fs Cache → Outcome x (Unit {0})
    add_set_with_ttl member metadata ttl_seconds s =
        writing x as_set set StoreType.set [] (add member) now key metadata ttl_seconds s

    unfoldable pub get_set : BlobStorage Fs Cache → Outcome x (List Str)
    get_set s = reading x as_set (λ members. ok members) [] now key s

    unfoldable pub filter_set : Str → BlobStorage Fs Cache → Outcome x (List Str)
    filter_set pat s =
        reading x as_set (λ members. ok (filter (str_contains pat) members)) [] now key s

    -- Sorted sets: a map from members to scores, read in the order of the scores.
    unfoldable pub add_sorted_set_with_ttl :
        F64
        → Str
        → Option SignatureMetadata
        → Option ℕ
        → BlobStorage Fs Cache
        → Outcome x (Unit {0})
    add_sorted_set_with_ttl score member metadata ttl_seconds s =
        writing x as_sorted_set sorted_set StoreType.sorted_set []
          (btree_insert str_eq str_ltb member score) now key metadata ttl_seconds s

    unfoldable pub get_sorted_set_with_scores :
        ℤ → ℤ → BlobStorage Fs Cache → Outcome x (List (Str × F64))
    get_sorted_set_with_scores start stop s =
        reading x as_sorted_set (λ members. or_panic (slice start stop (sort_by score_le members)))
          [] now key s

    abbrev members_in : Option (List (Str × F64)) → Option (List Str)
    members_in none = none
    members_in (some members) = some (map member_of members)

    unfoldable pub get_sorted_set : ℤ → ℤ → BlobStorage Fs Cache → Outcome x (List Str)
    get_sorted_set start stop s =
        reading x as_sorted_set
          (λ members. or_panic (members_in (slice start stop (sort_by score_le members)))) [] now
          key s

    unfoldable pub filter_sorted_set_with_scores :
        F64 → F64 → BlobStorage Fs Cache → Outcome x (List (Str × F64))
    filter_sorted_set_with_scores lo hi s =
        reading x as_sorted_set
          (λ members. ok (sort_by score_le (filter (within_scores lo hi) members))) [] now key s

    unfoldable pub filter_sorted_set : F64 → F64 → BlobStorage Fs Cache → Outcome x (List Str)
    filter_sorted_set lo hi s =
        reading x as_sorted_set
          (λ members. ok (map member_of (sort_by score_le (filter (within_scores lo hi) members))))
          [] now key s
