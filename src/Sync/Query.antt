-- ===== src/Sync/Query.antt =====
-- src/sync.rs, `SyncStore`: the read-only queries.
use cyberfly_rust_node.Common.{
  ℕ, Bool, ◌&&◌, Option, none, some, List, [], ◌∷◌, if◌then◌else◌, length, take, map, filter,
}
use cyberfly_rust_node.Common.Int.{ℤ, ltb_ℤ}
use cyberfly_rust_node.Common.Text.{Str, str_eq}
use cyberfly_rust_node.Sync.Operation.{SignedOperation}
use cyberfly_rust_node.Sync.Store.{Operations, SyncStore}

-- ops.values()
unfoldable pub values : Operations → List (ℤ × SignedOperation)
values [] = []
values ((k, v) ∷ m) = v ∷ values m

abbrev pub operation_of : ℤ × SignedOperation → SignedOperation
operation_of (ts, op) = op

abbrev pub is_since : ℤ → ℤ × SignedOperation → Bool
is_since timestamp (ts, op) = ltb_ℤ timestamp ts

abbrev pub is_in_db : Str → ℤ × SignedOperation → Bool
is_in_db db_name (ts, op) = str_eq op.db_name db_name

module _ {Doc Fs : Type 0} (s : SyncStore Doc Fs) where
  unfoldable pub get_all_operations : List SignedOperation
  get_all_operations = map operation_of (values s.operations)

  unfoldable pub get_operations_since : ℤ → List SignedOperation
  get_operations_since timestamp =
      map operation_of (filter (is_since timestamp) (values s.operations))

  unfoldable pub get_operations_since_limited : ℤ → ℕ → List SignedOperation
  get_operations_since_limited timestamp limit =
      map operation_of (take limit (filter (is_since timestamp) (values s.operations)))

  unfoldable pub get_operations_since_for_db_limited : ℤ → Str → ℕ → List SignedOperation
  get_operations_since_for_db_limited timestamp db_name limit =
      map operation_of (
        take limit (filter (λ v. is_since timestamp v && is_in_db db_name v) (values s.operations)))

  unfoldable pub get_operations_for_db_limited : Str → ℕ → List SignedOperation
  get_operations_for_db_limited db_name limit =
      map operation_of (take limit (filter (is_in_db db_name) (values s.operations)))

  unfoldable pub get_operations_count_for_db : Str → ℕ
  get_operations_count_for_db db_name = length (filter (is_in_db db_name) (values s.operations))

  unfoldable pub operation_count : ℕ
  operation_count = length s.operations

-- The greatest timestamp of the values, `none` where there is none.
unfoldable pub max_timestamp : List (ℤ × SignedOperation) → Option ℤ
max_timestamp [] = none
max_timestamp ((ts, op) ∷ vs) = elim (max_timestamp vs) [
  | none ↦ some ts
  | some m ↦ if ltb_ℤ ts m then some m else some ts
]

unfoldable pub last_applied_timestamp : {Doc Fs : Type 0} → SyncStore Doc Fs → Option ℤ
unfolding max_timestamp
last_applied_timestamp s = max_timestamp (values s.operations)
