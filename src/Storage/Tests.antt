-- ===== src/Storage/Tests.antt =====
-- Concrete storages for src/storage.rs, and the theorems applied to them.
use cyberfly_rust_node.Common.{
  ℕ, ◌≡◌, refl, true, false, none, some, List, [], ◌∷◌, arith, ltb, if◌then◌else◌,
}
use cyberfly_rust_node.Common.Int.{pos, negsuc}
use cyberfly_rust_node.Common.Text.{Str, codes, str_leb, str_eq}
use cyberfly_rust_node.Common.Assoc.{lookup, insert, tree_insert, remove, str_key}
use cyberfly_rust_node.Common.Result.{ok, err}
use cyberfly_rust_node.Storage.Value.{
  StoreType, StoredValue, string, type_of, new_ttl, is_expired, get_ttl_metadata, is_value_expired,
  with_ttl,
}
use cyberfly_rust_node.Storage.Core.{
  decode_failed, BlobStorage, cached, cache_value, load_value, get_value, store_value, delete,
  invalidate, index_remove,
}
use cyberfly_rust_node.Storage.Sound.{view, live, IsSound, store_value-IsSound}
use cyberfly_rust_node.Storage.Read.{get_value_lem}
use cyberfly_rust_node.Storage.Documents.{set_json_with_ttl, get_json}
use cyberfly_rust_node.Storage.Lost.{get_json-set_json}
use cyberfly_rust_node.Storage.Typed.{slice, writing}
use cyberfly_rust_node.Storage.Ops.{set_hash_with_ttl}
use cyberfly_rust_node.Storage.Keys.{cleanup_expired_keys, set_key_ttl}
use cyberfly_rust_node.Storage.Writes.{fields_of, set_hash_lem}
use cyberfly_rust_node.Storage.Slices.{select, between, slice_lem}
use cyberfly_rust_node.Storage.Expiry.{cleanup_expired_keys_lem, set_key_ttl_lem}
use cyberfly_rust_node.Storage.Crates.{Blobs, Slot, test, test-IsReliable, plain}

-- An empty storage, and one with a string that stays and one that ends at 4000.
abbrev pub empty : BlobStorage Blobs Slot
empty = record { store = (0, λ i. none); index_tree = []; hot = none; warm = none }

pub empty-IsSound : IsSound test empty
unfolding lookup view
empty-IsSound = record {
  backed = λ k h t e. absurd (cc);
  fresh = λ n k v e. absurd (cc);
  unused = λ n k. refl;
}

abbrev pub lasting : StoredValue ℕ
lasting = string (plain (codes "v") none)

abbrev pub ending : StoredValue ℕ
ending = string (plain (codes "w") (some (new_ttl 3000 (some 1))))

abbrev one_string : BlobStorage Blobs Slot
one_string = (store_value test (codes "a") lasting StoreType.string empty).1

abbrev two_strings : BlobStorage Blobs Slot
two_strings = (store_value test (codes "b") ending StoreType.string one_string).1

two_strings-IsSound : IsSound test two_strings
unfolding type_of
two_strings-IsSound =
    store_value-IsSound test test-IsReliable (codes "b") ending StoreType.string one_string
      (λ e. absurd (cc)) refl
      (store_value-IsSound test test-IsReliable (codes "a") lasting StoreType.string empty
        (λ e. absurd (cc)) refl empty-IsSound)

get_value_lem_example :
    ((get_value test 5000 (codes "b") two_strings).0 ≡ ok none)
    × IsSound test (get_value test 5000 (codes "b") two_strings).1
    × ((j : Str)
        → view test (get_value test 5000 (codes "b") two_strings).1 j ≡ (
            if str_eq (codes "b") j
            then live test 5000 (view test two_strings j)
            else view test two_strings j))
unfolding view store_value cache_value is_value_expired get_ttl_metadata is_expired new_ttl
    tree_insert str_leb lookup str_eq
get_value_lem_example =
    get_value_lem test test-IsReliable 5000 (codes "b") two_strings two_strings-IsSound

cleanup_expired_keys_lem_example :
    IsSound test (cleanup_expired_keys test 5000 two_strings).1
    × ((j : Str)
        → view test (cleanup_expired_keys test 5000 two_strings).1 j
          ≡ live test 5000 (view test two_strings j))
cleanup_expired_keys_lem_example =
    cleanup_expired_keys_lem test test-IsReliable 5000 two_strings two_strings-IsSound

answered : (set_key_ttl test 3500 (codes "a") 2 two_strings).0 ≡ ok true
unfolding set_key_ttl get_value cached load_value store_value cache_value is_value_expired
    get_ttl_metadata is_expired new_ttl tree_insert str_leb lookup with_ttl str_eq
answered = refl

set_key_ttl_lem_example :
    (v : StoredValue ℕ) × (live test 3500 (view test two_strings (codes "a")) ≡ some v)
    × ((later : ℕ)
        → live test later
            (view test (set_key_ttl test 3500 (codes "a") 2 two_strings).1 (codes "a"))
          ≡ (if ltb 5500 later then none else some (with_ttl (some (new_ttl 3500 (some 2))) v)))
    × ((j : Str)
        → str_eq (codes "a") j ≡ false
        → view test (set_key_ttl test 3500 (codes "a") 2 two_strings).1 j ≡ view test two_strings j)
set_key_ttl_lem_example =
    set_key_ttl_lem test test-IsReliable 3500 (codes "a") 2 two_strings two_strings-IsSound answered
      (omega arith)

written_ok :
    (set_hash_with_ttl test 5000 (codes "b") (codes "f") (codes "x") none none two_strings).0
    ≡ ok tt
unfolding set_hash_with_ttl writing get_value cached load_value store_value cache_value delete
    invalidate index_remove is_value_expired get_ttl_metadata is_expired new_ttl insert tree_insert
    str_leb lookup remove str_eq
written_ok = refl

set_hash_lem_example :
    ((f : Str)
      → lookup f (
          fields_of (
            view test
              (set_hash_with_ttl test 5000
                (codes "b")
                (codes "f")
                (codes "x")
                none
                none
                two_strings).1
              (codes "b")))
        ≡ (if str_eq (codes "f") f
            then some (codes "x")
            else lookup f (fields_of (live test 5000 (view test two_strings (codes "b"))))))
    × ((j : Str)
        → str_eq (codes "b") j ≡ false
        → view test
            (set_hash_with_ttl test 5000
              (codes "b")
              (codes "f")
              (codes "x")
              none
              none
              two_strings).1
            j
          ≡ view test two_strings j)
set_hash_lem_example =
    set_hash_lem test test-IsReliable 5000 (codes "b") (codes "f") (codes "x") none none two_strings
      two_strings-IsSound written_ok

abbrev items : List ℕ
items = 5 ∷ 6 ∷ 7 ∷ []

slice_lem_example :
    slice (pos 0) (negsuc 1) items ≡ some (select (between (pos 0) (negsuc 1) 3) 0 items)
slice_lem_example = slice_lem (pos 0) (negsuc 1) items

stored_json : (set_json_with_ttl test 5000 (codes "a") (7 ∷ []) none none two_strings).0 ≡ ok tt
unfolding set_json_with_ttl store_value cache_value
stored_json = refl

get_json-set_json_example :
    get_json test 200000
      (codes "a")
      (set_json_with_ttl test 5000 (codes "a") (7 ∷ []) none none two_strings).1
    ≡ (
      err decode_failed,
      (set_json_with_ttl test 5000 (codes "a") (7 ∷ []) none none two_strings).1,
    )
unfolding set_json_with_ttl store_value cache_value str_eq new_ttl
get_json-set_json_example =
    get_json-set_json test test-IsReliable 5000 200000 (codes "a") (7 ∷ []) none none two_strings
      stored_json refl refl
