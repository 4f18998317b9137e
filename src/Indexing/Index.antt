-- ===== src/Indexing/Index.antt =====
-- src/indexing.rs: SecondaryIndex.
use cyberfly_rust_node.Common.{
  ℕ, ◌+◌, ◌*◌, ◌%◌, ◌^◌, Bool, false, ◌&&◌, ◌||◌, not, Option, none, some, List, [], ◌∷◌, ltb, leb,
  if◌then◌else◌, length, filter,
}
use cyberfly_rust_node.Common.Text.{Str, str_eq, starts_with, str_contains}
use cyberfly_rust_node.Common.Assoc.{lookup, insert, remove, contains, add, str_key}
use cyberfly_rust_node.Common.Result.{Result, ok, err}
use cyberfly_rust_node.Sync.Operation.{F64}

pub data IndexType : Type 0 where
  exact range full_text geo : IndexType

-- A set of keys is the list of its members.
pub record SecondaryIndex : Type 0 where
  pub name : Str
  pub db_name : Str
  pub field : Str
  pub index_type : IndexType
  pub data_ : List (Str × List Str)
  pub max_keys : ℕ
  pub memory_limit_bytes : ℕ

pub data QueryOperator : Type 0 where
  equals : Str → QueryOperator
  greater_than less_than : F64 → QueryOperator
  between : F64 → F64 → QueryOperator
  in_ : List Str → QueryOperator
  contains_ starts_with_ : Str → QueryOperator

pub data IndexError : Type 0 where
  would_exceed : IndexError

-- Parsing and order of f64, `to_lowercase`, the sizes of the types and the capacity of a string.
pub record Platform : Type 0 where
  pub parse_f64 : Str → Option F64
  pub f64_lt : F64 → F64 → Bool
  pub f64_le : F64 → F64 → Bool
  pub to_lowercase : Str → Str
  pub size_of_index : ℕ
  pub size_of_string : ℕ
  pub size_of_set : ℕ
  pub capacity : Str → ℕ

unfoldable pub new_with_limits : Str → Str → Str → IndexType → ℕ → ℕ → SecondaryIndex
new_with_limits name db_name field index_type max_keys memory_limit_mb = record {
  name = name;
  db_name = db_name;
  field = field;
  index_type = index_type;
  data_ = [];
  max_keys = max_keys;
  memory_limit_bytes = memory_limit_mb * 1024 * 1024 % 2 ^ 64;
}

unfoldable pub new_index : Str → Str → Str → IndexType → SecondaryIndex
new_index name db_name field index_type = new_with_limits name db_name field index_type 0 0

unfoldable pub count_keys : List (Str × List Str) → ℕ
count_keys [] = 0
count_keys ((v, keys) ∷ m) = length keys + count_keys m

unfoldable pub total_keys : SecondaryIndex → ℕ
total_keys i = count_keys i.data_

-- data.get(value), or no keys.
abbrev pub keys_at : Str → List (Str × List Str) → List Str
keys_at value m = elim (lookup value m) [ none ↦ [] | some keys ↦ keys ]

unfoldable pub remove_key : Str → List Str → List Str
remove_key key keys = filter (λ k. not (str_eq key k)) keys

-- keys.remove(key), and the value goes with its last key.
abbrev pub without_key : Str → Str → List Str → List (Str × List Str) → List (Str × List Str)
without_key value key keys m = elim (remove_key key keys) [
  | [] ↦ remove value m
  | k ∷ others ↦ insert value (k ∷ others) m
]

unfoldable pub remove_entry : Str → Str → SecondaryIndex → SecondaryIndex
remove_entry value key i = elim (lookup value i.data_) [
  | none ↦ i
  | some keys ↦ record i { data_ = without_key value key keys i.data_ }
]

-- result.extend(keys)
unfoldable pub extend : List Str → List Str → List Str
extend [] result = result
extend (k ∷ keys) result = extend keys (add k result)

unfoldable pub query_values : (Str → Bool) → List (Str × List Str) → List Str → List Str
query_values predicate [] result = result
query_values predicate ((v, keys) ∷ m) result =
    query_values predicate m (if predicate v then extend keys result else result)

unfoldable pub query_in : List Str → List (Str × List Str) → List Str → List Str
query_in [] m result = result
query_in (v ∷ values) m result = query_in values m (extend (keys_at v m) result)

module _ (p : Platform) where
  unfoldable pub keys_size : List Str → ℕ
  keys_size [] = 0
  keys_size (k ∷ keys) = p.size_of_string + p.capacity k + keys_size keys

  unfoldable pub values_size : List (Str × List Str) → ℕ
  values_size [] = 0
  values_size ((v, keys) ∷ m) =
      p.size_of_string + p.capacity v + p.size_of_set + keys_size keys + values_size m

  unfoldable pub memory_usage_bytes : SecondaryIndex → ℕ
  memory_usage_bytes i = p.size_of_index + values_size i.data_

  unfoldable pub would_exceed_limits : SecondaryIndex → Bool
  would_exceed_limits i =
      (ltb 0 i.max_keys && leb i.max_keys (total_keys i))
      || (ltb 0 i.memory_limit_bytes && leb i.memory_limit_bytes (memory_usage_bytes i))

  unfoldable pub insert_entry :
      Str → Str → SecondaryIndex → Result IndexError (Unit {0}) × SecondaryIndex
  insert_entry value key i =
      if would_exceed_limits i
      then (err would_exceed, i)
      else (ok tt, record i { data_ = insert value (add key (keys_at value i.data_)) i.data_ })

  -- The old entry goes also where there is no room for the new one.
  unfoldable pub update_entry :
      Str → Str → Str → SecondaryIndex → Result IndexError (Unit {0}) × SecondaryIndex
  update_entry old_value new_value key i = insert_entry new_value key (remove_entry old_value key i)

  abbrev numeric : (F64 → Bool) → Str → Bool
  numeric predicate value = elim (p.parse_f64 value) [ none ↦ false | some x ↦ predicate x ]

  -- The test that an operator makes of a value.
  unfoldable pub accepts : QueryOperator → Str → Bool
  accepts (equals v) value = str_eq v value
  accepts (greater_than t) value = numeric (λ x. p.f64_lt t x) value
  accepts (less_than t) value = numeric (λ x. p.f64_lt x t) value
  accepts (between lo hi) value = numeric (λ x. p.f64_le lo x && p.f64_le x hi) value
  accepts (in_ values) value = contains value values
  accepts (contains_ s) value = str_contains (p.to_lowercase s) (p.to_lowercase value)
  accepts (starts_with_ s) value = starts_with (p.to_lowercase s) (p.to_lowercase value)

  unfoldable pub query : QueryOperator → SecondaryIndex → List Str
  query (equals v) i = keys_at v i.data_
  query (in_ values) i = query_in values i.data_ []
  query op i = query_values (accepts op) i.data_ []
