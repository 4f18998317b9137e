-- ===== src/Indexing/Manager.antt =====
-- src/indexing.rs: IndexManager, the indexes of all databases by database and name.
use cyberfly_rust_node.Common.{
  ℕ, ◌+◌, ◌/◌, ◌%◌, ◌^◌, Option, none, some, List, [], ◌∷◌, ltb, if◌then◌else◌, filter, map, length,
}
use cyberfly_rust_node.Common.Text.{Str, str_eq}
use cyberfly_rust_node.Common.Assoc.{lookup, insert, remove, str_key, pair_key}
use cyberfly_rust_node.Common.Result.{Result, ok, err}
use cyberfly_rust_node.Indexing.Index.{
  IndexType, SecondaryIndex, QueryOperator, IndexError, Platform, new_index, total_keys,
  remove_entry, memory_usage_bytes, insert_entry, query,
}

abbrev pub Indexes : Type 0
Indexes = List ((Str × Str) × SecondaryIndex)

pub data ManagerError : Type 0 where
  already_exists not_found : (index_name db_name : Str) → ManagerError
  in_index : IndexError → ManagerError

abbrev pub Outcome : Type 0
Outcome = Result ManagerError (Unit {0}) × Indexes

-- `execution_time_ms` is left out.
pub record QueryResult : Type 0 where
  pub keys : List Str
  pub count : ℕ

-- The two fields that only divide the bytes by 2^20 in floating point are left out.
pub record IndexStats : Type 0 where
  pub name : Str
  pub field : Str
  pub index_type : IndexType
  pub keys_total : ℕ
  pub unique_values : ℕ
  pub memory_bytes : ℕ
  pub max_keys : ℕ
  pub memory_limit_mb : Option ℕ

module _ (db_name index_name : Str) where
  unfoldable pub create_index : Str → IndexType → Indexes → Outcome
  create_index field index_type m = elim (lookup (db_name, index_name) m) [
    | some i ↦ (err (already_exists index_name db_name), m)
    | none ↦ (ok tt, insert (db_name, index_name) (new_index index_name db_name field index_type) m)
  ]

  unfoldable pub drop_index : Indexes → Outcome
  drop_index m = elim (lookup (db_name, index_name) m) [
    | some i ↦ (ok tt, remove (db_name, index_name) m)
    | none ↦ (err (not_found index_name db_name), m)
  ]

  abbrev written_back : Result IndexError (Unit {0}) × SecondaryIndex → Indexes → Outcome
  written_back (ok u, i) m = (ok tt, insert (db_name, index_name) i m)
  written_back (err e, i) m = (err (in_index e), insert (db_name, index_name) i m)

  unfoldable pub insert_into_index : Platform → Str → Str → Indexes → Outcome
  insert_into_index p field_value key m = elim (lookup (db_name, index_name) m) [
    | some i ↦ written_back (insert_entry p field_value key i) m
    | none ↦ (err (not_found index_name db_name), m)
  ]

  unfoldable pub remove_from_index : Str → Str → Indexes → Outcome
  remove_from_index field_value key m = elim (lookup (db_name, index_name) m) [
    | some i ↦ (ok tt, insert (db_name, index_name) (remove_entry field_value key i) m)
    | none ↦ (err (not_found index_name db_name), m)
  ]

  unfoldable pub query_index : Platform → QueryOperator → Indexes → Result ManagerError QueryResult
  query_index p operator m = elim (lookup (db_name, index_name) m) [
    | some i ↦ let keys = query p operator i in ok (record { keys = keys; count = length keys })
    | none ↦ err (not_found index_name db_name)
  ]

  unfoldable pub get_index_stats : Platform → Indexes → Result ManagerError IndexStats
  get_index_stats p m = elim (lookup (db_name, index_name) m) [
    | some i ↦ ok (record {
      name = i.name;
      field = i.field;
      index_type = i.index_type;
      keys_total = total_keys i;
      unique_values = length i.data_;
      memory_bytes = memory_usage_bytes p i;
      max_keys = i.max_keys;
      memory_limit_mb =
          if ltb 0 i.memory_limit_bytes then some (i.memory_limit_bytes / 1024 / 1024) else none;
    })
    | none ↦ err (not_found index_name db_name)
  ]

unfoldable pub list_indexes : Str → Indexes → List Str
list_indexes db_name m = map (λ e. e.0.1) (filter (λ e. str_eq e.0.0 db_name) m)

unfoldable pub total_memory_usage : Platform → Indexes → ℕ
total_memory_usage p [] = 0
total_memory_usage p ((k, i) ∷ m) = (memory_usage_bytes p i + total_memory_usage p m) % 2 ^ 64

-- The calls that change the indexes; the pair is the index that a call is about.
pub data Call : Type 0 where
  create : Str × Str → (field : Str) → IndexType → Call
  drop : Str × Str → Call
  insert_key remove_key_ : Str × Str → (field_value key : Str) → Call

unfoldable pub serve : Platform → Call → Indexes → Outcome
serve p (create (db, name) field t) m = create_index db name field t m
serve p (drop (db, name)) m = drop_index db name m
serve p (insert_key (db, name) value key) m = insert_into_index db name p value key m
serve p (remove_key_ (db, name) value key) m = remove_from_index db name value key m

unfoldable pub serve_all : Platform → List Call → Indexes → Indexes
serve_all p [] m = m
serve_all p (c ∷ calls) m = serve_all p calls (serve p c m).1
