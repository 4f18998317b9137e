-- ===== src/Storage/Value.antt =====
-- src/storage.rs: the stored values, their signatures and their time to live.
use cyberfly_rust_node.Common.{
  ℕ, ◌+◌, ◌*◌, ◌/◌, Bool, false, Option, none, some, List, if◌then◌else◌,
}
use cyberfly_rust_node.Common.Int.{ℤ, pos, wrap_i64, ltb_ℤ, dist_ℤ}
use cyberfly_rust_node.Common.Text.{Str}
use cyberfly_rust_node.Sync.Operation.{F64}

pub data StoreType : Type 0 where
  string hash list set sorted_set json stream time_series geo : StoreType

pub record SignatureMetadata : Type 0 where
  pub public_key : Str
  pub signature : Str
  pub timestamp : ℤ

-- Times in milliseconds.
pub record TtlMetadata : Type 0 where
  pub ttl_seconds : Option ℕ
  pub expires_at : Option ℤ
  pub created_at : ℤ

-- now + (ttl as i64 * 1000)
abbrev expiry : ℕ → ℕ → ℤ
expiry now ttl = wrap_i64 (now + ttl * 1000)

-- TtlMetadata::new, with the clock's reading.
unfoldable pub new_ttl : ℕ → Option ℕ → TtlMetadata
new_ttl now ttl_seconds = record {
  ttl_seconds = ttl_seconds;
  expires_at = elim ttl_seconds [ none ↦ none | some ttl ↦ some (expiry now ttl) ];
  created_at = wrap_i64 now;
}

unfoldable pub is_expired : ℕ → TtlMetadata → Bool
is_expired now t = elim t.expires_at [ none ↦ false | some expires_at ↦ ltb_ℤ expires_at (pos now) ]

unfoldable pub remaining_ttl_seconds : ℕ → TtlMetadata → Option ℕ
remaining_ttl_seconds now t = elim t.expires_at [
  | none ↦ none
  | some expires_at ↦
      if ltb_ℤ (pos now) expires_at then some (dist_ℤ expires_at (pos now) / 1000) else none
]

-- The structs StringValue, HashValue and so on: they differ in their first field, `body`.
pub record Entry (A : Type 0) : Type 0 where
  pub body : A
  pub metadata : Option SignatureMetadata
  pub ttl : Option TtlMetadata

-- The first fields of JsonValue, over the documents of serde_json.
pub record JsonBody (J : Type 0) : Type 0 where
  pub doc : J
  pub id : Option Str

-- An XADD's entry: its identifier and its fields.
abbrev pub StreamEntry : Type 0
StreamEntry = Str × List (Str × Str)

pub data StoredValue (J : Type 0) : Type 0 where
  string : Entry Str → StoredValue J
  hash : Entry (List (Str × Str)) → StoredValue J
  list : Entry (List Str) → StoredValue J
  set : Entry (List Str) → StoredValue J
  sorted_set : Entry (List (Str × F64)) → StoredValue J
  json : Entry (JsonBody J) → StoredValue J
  stream : Entry (List StreamEntry) → StoredValue J
  time_series : Entry (List (ℤ × F64)) → StoredValue J
  geo : Entry (List (Str × (F64 × F64))) → StoredValue J

module _ {J : Type 0} where
  -- The type that goes with a value.
  unfoldable pub type_of : StoredValue J → StoreType
  type_of (string e) = StoreType.string
  type_of (hash e) = StoreType.hash
  type_of (list e) = StoreType.list
  type_of (set e) = StoreType.set
  type_of (sorted_set e) = StoreType.sorted_set
  type_of (json e) = StoreType.json
  type_of (stream e) = StoreType.stream
  type_of (time_series e) = StoreType.time_series
  type_of (geo e) = StoreType.geo

  unfoldable pub get_ttl_metadata : StoredValue J → Option TtlMetadata
  get_ttl_metadata (string e) = e.ttl
  get_ttl_metadata (hash e) = e.ttl
  get_ttl_metadata (list e) = e.ttl
  get_ttl_metadata (set e) = e.ttl
  get_ttl_metadata (sorted_set e) = e.ttl
  get_ttl_metadata (json e) = e.ttl
  get_ttl_metadata (stream e) = e.ttl
  get_ttl_metadata (time_series e) = e.ttl
  get_ttl_metadata (geo e) = e.ttl

  unfoldable pub is_value_expired : ℕ → StoredValue J → Bool
  is_value_expired now v = elim (get_ttl_metadata v) [ none ↦ false | some t ↦ is_expired now t ]

  -- The match that puts another time to live into a value of any type.
  unfoldable pub with_ttl : Option TtlMetadata → StoredValue J → StoredValue J
  with_ttl t (string e) = string (record e { ttl = t })
  with_ttl t (hash e) = hash (record e { ttl = t })
  with_ttl t (list e) = list (record e { ttl = t })
  with_ttl t (set e) = set (record e { ttl = t })
  with_ttl t (sorted_set e) = sorted_set (record e { ttl = t })
  with_ttl t (json e) = json (record e { ttl = t })
  with_ttl t (stream e) = stream (record e { ttl = t })
  with_ttl t (time_series e) = time_series (record e { ttl = t })
  with_ttl t (geo e) = geo (record e { ttl = t })
