-- ===== src/Storage/Typed.antt =====
-- src/storage.rs, the operations of `BlobStorage` on strings, hashes, lists, sets, sorted sets, streams,
-- time series and locations. `now` is the clock in milliseconds.
use cyberfly_rust_node.Common.{
  ℕ, suc, ◌-◌, ◌^◌, Bool, ◌&&◌, Option, none, some, List, [], ◌∷◌, leb, ◌==◌, if◌then◌else◌, not,
  length, take, drop,
}
use Prim.Native.Nat.{min}
use cyberfly_rust_node.Common.Int.{ℤ, pos, negsuc}
use cyberfly_rust_node.Common.Text.{Str, str_eq, str_leb}
use cyberfly_rust_node.Common.Assoc.{str_key}
use cyberfly_rust_node.Common.Result.{Result, ok, err}
use cyberfly_rust_node.Sync.Operation.{F64}
use cyberfly_rust_node.Storage.Value.{
  StoreType, SignatureMetadata, new_ttl, Entry, StreamEntry, StoredValue, string, hash, list, set,
  sorted_set, stream, time_series, geo,
}
use cyberfly_rust_node.Storage.Core.{
  StorageError, wrong_type, slice_panic, Backend, BlobStorage, Outcome, get_value, store_value,
}

-- A BTreeMap: the entries in ascending order of their keys.
unfoldable pub btree_insert :
    {K V : Type 0} → (K → K → Bool) → (K → K → Bool) → K → V → List (K × V) → List (K × V)
btree_insert eq lt k v [] = (k, v) ∷ []
btree_insert eq lt k v ((j, w) ∷ m) =
    if eq j k
    then (k, v) ∷ m
    else if lt k j
    then (k, v) ∷ (j, w) ∷ m
    else (j, w) ∷ btree_insert eq lt k v m

abbrev pub str_ltb : Str → Str → Bool
str_ltb a b = str_leb a b && not (str_eq a b)

-- The bounds of a slice: an index from the end counts from `len`, the end is exclusive. `none` is the
-- end at isize::MAX, where `stop + 1` overflows and the slicing panics.
unfoldable pub slice_start : ℤ → ℕ → ℕ
slice_start (pos n) len = min n len
slice_start (negsuc n) len = len - suc n

unfoldable pub slice_stop : ℤ → ℕ → Option ℕ
slice_stop (pos n) len = if suc n == 2 ^ 63 then none else some (min (suc n) len)
slice_stop (negsuc n) len = some (len - n)

unfoldable pub slice : {A : Type 0} → ℤ → ℤ → List A → Option (List A)
slice start stop items = elim (slice_stop stop (length items)) [
  | none ↦ none
  | some b ↦
      let a = slice_start start (length items) in
      if leb b a then some [] else some (take (b - a) (drop a items))
]

abbrev pub or_panic : {A : Type 0} → Option A → Result StorageError A
or_panic none = err slice_panic
or_panic (some a) = ok a

-- The entry of the type at hand.
module _ {J : Type 0} where
  abbrev pub as_string : StoredValue J → Option (Entry Str)
  as_string (string e) = some e
  as_string _ = none

  abbrev pub as_hash : StoredValue J → Option (Entry (List (Str × Str)))
  as_hash (hash e) = some e
  as_hash _ = none

  abbrev pub as_list : StoredValue J → Option (Entry (List Str))
  as_list (list e) = some e
  as_list _ = none

  abbrev pub as_set : StoredValue J → Option (Entry (List Str))
  as_set (set e) = some e
  as_set _ = none

  abbrev pub as_sorted_set : StoredValue J → Option (Entry (List (Str × F64)))
  as_sorted_set (sorted_set e) = some e
  as_sorted_set _ = none

  abbrev pub as_stream : StoredValue J → Option (Entry (List StreamEntry))
  as_stream (stream e) = some e
  as_stream _ = none

  abbrev pub as_time_series : StoredValue J → Option (Entry (List (ℤ × F64)))
  as_time_series (time_series e) = some e
  as_time_series _ = none

  abbrev pub as_geo : StoredValue J → Option (Entry (List (Str × (F64 × F64))))
  as_geo (geo e) = some e
  as_geo _ = none

-- A read: the value's body through `f`, or `d` where the key is absent.
abbrev pub read_entry :
    {J A B : Type 0}
    → (StoredValue J → Option (Entry A))
    → (A → Result StorageError B)
    → B
    → Option (StoredValue J)
    → Result StorageError B
read_entry cast f d none = ok d
read_entry cast f d (some v) = elim (cast v) [ none ↦ err wrong_type | some e ↦ f e.body ]

-- The entry that a write works on: the one that is there, or a new one with the metadata and the time
-- to live of the call.
abbrev pub opened :
    {J A : Type 0}
    → ℕ
    → (StoredValue J → Option (Entry A))
    → A
    → Option SignatureMetadata
    → Option ℕ
    → Option (StoredValue J)
    → Option (Entry A)
opened now cast empty metadata ttl_seconds none = some (record {
  body = empty;
  metadata = metadata;
  ttl = elim ttl_seconds [ none ↦ none | some ttl ↦ some (new_ttl now (some ttl)) ];
})
opened now cast empty metadata ttl_seconds (some v) = cast v

-- The change to the body; metadata of the call replaces the entry's.
abbrev pub written : {A : Type 0} → (A → A) → Option SignatureMetadata → Entry A → Entry A
written change none e = record e { body = change e.body }
written change (some m) e = record e { body = change e.body; metadata = some m }

module _ {J Fs Cache : Type 0} (x : Backend J Fs Cache) where
  unfoldable pub reading :
      {A B : Type 0}
      → (StoredValue J → Option (Entry A))
      → (A → Result StorageError B)
      → B
      → ℕ
      → Str
      → BlobStorage Fs Cache
      → Outcome x B
  reading cast f d now key s =
      let (r, s') = get_value x now key s in
      elim r [ err e ↦ (err e, s') | ok o ↦ (read_entry cast f d o, s') ]

  -- What every write of a structured type does: open the entry, change it, store it.
  unfoldable pub writing :
      {A : Type 0}
      → (StoredValue J → Option (Entry A))
      → (Entry A → StoredValue J)
      → StoreType
      → A
      → (A → A)
      → ℕ
      → Str
      → Option SignatureMetadata
      → Option ℕ
      → BlobStorage Fs Cache
      → Outcome x (Unit {0})
  writing cast wrap store_type empty change now key metadata ttl_seconds s =
      let (r, s') = get_value x now key s in
      elim r [
        | err e ↦ (err e, s')
        | ok o ↦ elim (opened now cast empty metadata ttl_seconds o) [
          | none ↦ (err wrong_type, s')
          | some e ↦ store_value x key (wrap (written change metadata e)) store_type s'
        ]
      ]
