-- ===== src/Storage/Listed.antt =====
-- src/storage.rs, `get_all` and the typed listings: what they show of a sound storage.
use cyberfly_rust_node.Common.{
  ℕ, ◌≡◌, refl, sym, subst, ap, In, ◌⊎◌, ◌∙◌, inl, inr, Bool, false, Option, none, some, List, [],
  ◌∷◌, map, arith, Option-cases, Bool-cases,
}
use cyberfly_rust_node.Common.Text.{Str}
use cyberfly_rust_node.Common.Assoc.{lookup, str_key}
use cyberfly_rust_node.Storage.Value.{StoreType, Entry, StoredValue, type_of}
use cyberfly_rust_node.Storage.Core.{Backend, BlobStorage, index_get, index_keys_with_prefix}
use cyberfly_rust_node.Storage.Sound.{IsReliable, view, live, IsSound}
use cyberfly_rust_node.Storage.Read.{get_value_lem}
use cyberfly_rust_node.Storage.Expiry.{live-live}
use cyberfly_rust_node.Storage.Typed.{
  as_string, as_hash, as_list, as_set, as_sorted_set, as_stream, as_time_series, as_geo,
}
use cyberfly_rust_node.Storage.Listings.{
  is_type, with_colon, list_loop, read_if, picked, row_of, itself, flat, get_all_strings,
  get_all_hashes, get_all_lists, get_all_sets, get_all_sorted_sets, get_all_stream_entries,
  get_all_timeseries, get_all_geo,
}
use cyberfly_rust_node.Storage.Entries.{JsonBuild, stored_entry, any_type, get_all}

row_In :
    {R : Type 0} (o : Option R) (rest : List R) (r : R)
    → In r (elim o [ none ↦ rest | some q ↦ q ∷ rest ])
    → (o ≡ some r) ⊎ In r rest
row_In none rest r i = inr i
row_In (some q) rest r (inl e) = inl (ap (λ a. some a) (sym e))
row_In (some q) rest r (inr i) = inr i

module _ {J : Type 0} where
  -- What a listing of the keys shows of a map from keys to values.
  abbrev pub listed :
      {R : Type 0}
      → (Str → StoredValue J → Option R)
      → (Str → Option (StoredValue J))
      → List Str
      → List R
  listed pick look [] = []
  listed pick look (key ∷ keys) =
      let rest = listed pick look keys in
      elim (look key) [
        | none ↦ rest
        | some v ↦ elim (pick key v) [ none ↦ rest | some r ↦ r ∷ rest ]
      ]

  pub listed-same :
      {R : Type 0} (pick : Str → StoredValue J → Option R)
      (look seen : Str → Option (StoredValue J)) (keys : List Str)
      → ((k : Str) → look k ≡ seen k)
      → listed pick look keys ≡ listed pick seen keys
  listed-same pick look seen [] h = refl
  listed-same pick look seen (key ∷ keys) h =
      ground (arith, h key, listed-same pick look seen keys h)

  value_In :
      {R : Type 0} (o : Option (StoredValue J)) (pick : StoredValue J → Option R) (rest : List R)
      (r : R)
      → In r (elim o [ none ↦ rest | some v ↦ elim (pick v) [ none ↦ rest | some q ↦ q ∷ rest ] ])
      → ((v : StoredValue J) × (o ≡ some v) × (pick v ≡ some r)) ⊎ In r rest
  value_In none pick rest r i = inr i
  value_In (some v) pick rest r i = elim (row_In (pick v) rest r i) [
    | inl e ↦ inl (v, refl, e)
    | inr m ↦ inr m
  ]

  -- Each row is that of a key and its value.
  pub listed-In :
      {R : Type 0} (pick : Str → StoredValue J → Option R) (look : Str → Option (StoredValue J))
      (keys : List Str) (r : R)
      → In r (listed pick look keys)
      → (key : Str) × (v : StoredValue J) × In key keys
        × (look key ≡ some v)
        × (pick key v ≡ some r)
  listed-In pick look [] r i = absurd i
  listed-In pick look (key ∷ keys) r i =
      elim (value_In (look key) (pick key) (listed pick look keys) r i) [
        | inl (v, e, f) ↦ (key, v, inl refl, e, f)
        | inr m ↦ let (k, v, j, e, f) = listed-In pick look keys r m in (k, v, inr j, e, f)
      ]

-- The values of a storage that have not expired.
abbrev pub shown :
    {J Fs Cache : Type 0}
    → Backend J Fs Cache
    → ℕ
    → BlobStorage Fs Cache
    → Str
    → Option (StoredValue J)
shown x now s key = live x now (view x s key)

module _ {J Fs Cache : Type 0} (x : Backend J Fs Cache) (law : IsReliable x) (now : ℕ) where
  module _ {R : Type 0} (wanted : StoreType → Bool) (pick : Str → StoredValue J → Option R)
      (only : (k : Str) (v : StoredValue J) → wanted (type_of v) ≡ false → pick k v ≡ none) where
    step_lem :
        (key : Str) (s : BlobStorage Fs Cache) (rest : List R)
        → IsSound x s
        → let (r, s') = read_if x wanted now key s in
          (picked x (pick key) r rest ≡ (elim (shown x now s key) [
            | none ↦ rest
            | some v ↦ elim (pick key v) [ none ↦ rest | some r ↦ r ∷ rest ]
          ]))
          × IsSound x s'
          × ((j : Str) → shown x now s' j ≡ shown x now s j)
    unfolding index_get view
    step_lem key s rest i = elim (Option-cases (lookup key s.index_tree)) [
      | inl absent ↦ (ground arith, ground arith, λ j. ground arith)
      | inr ((h, t), present) ↦ elim (Bool-cases (wanted t)) [
        | inl taken ↦
            let (answer, sound, after) = get_value_lem x law now key s i in
            (
              ground arith,
              subst (IsSound x) (sym (ground arith)) sound,
              λ j. ground (arith, after j, live-live x law now (view x s j)),
            )
        | inr left ↦
            let (v, stored, typed) = i.backed key h t present in
            (ground (arith, only key v), ground arith, λ j. ground arith)
      ]
    ]

    list_loop_lem :
        (keys : List Str) (s : BlobStorage Fs Cache)
        → IsSound x s
        → let (rows, s') = list_loop x wanted pick now keys s in
          (rows ≡ listed pick (shown x now s) keys)
          × IsSound x s'
          × ((j : Str) → shown x now s' j ≡ shown x now s j)
    unfolding list_loop
    list_loop_lem [] s i = (refl, i, λ j. refl)
    list_loop_lem (key ∷ keys) s i =
        let s' = (read_if x wanted now key s).1 in
        let (row, sound, after) = step_lem key s (list_loop x wanted pick now keys s').0 i in
        let (rows, sound', after') = list_loop_lem keys s' sound in
        let same = listed-same pick (shown x now s') (shown x now s) keys after in
        (ground (arith, row, rows, same), sound', λ j. after' j ∙ after j)

  -- With reliable crates, `get_all` of a sound storage, which holds no JSON documents, gives for the keys
  -- with the prefix, as the index lists them, the entry of every value that has not expired, of whatever
  -- type, and nothing else. The storage stays sound and shows the same values as before.
  pub get_all_lem :
      (b : JsonBuild J) (db_prefix : Str) (s : BlobStorage Fs Cache)
      → IsSound x s
      → let (entries, s') = get_all x now db_prefix b s in
        (entries
          ≡ listed
              (λ key v. some (stored_entry x now db_prefix b key v))
              (shown x now s)
              (index_keys_with_prefix x (with_colon db_prefix) s))
        × IsSound x s'
        × ((j : Str) → shown x now s' j ≡ shown x now s j)
  unfolding get_all
  get_all_lem b db_prefix s i =
      list_loop_lem any_type (λ key v. some (stored_entry x now db_prefix b key v))
        (λ k v e. absurd (cc)) (index_keys_with_prefix x (with_colon db_prefix) s) s i

  -- A cast that only takes values of the type.
  abbrev IsCast : {A : Type 0} → StoreType → (StoredValue J → Option (Entry A)) → Type 0
  IsCast t cast = (v : StoredValue J) → is_type t (type_of v) ≡ false → cast v ≡ none

  typed_only :
      {A B : Type 0} (t : StoreType) (cast : StoredValue J → Option (Entry A)) (f : A → B)
      → IsCast t cast
      → (k : Str) (v : StoredValue J) → is_type t (type_of v) ≡ false
      → row_of x cast f k v ≡ none
  typed_only t cast f only k v e = ground (arith, only v e)

  -- The typed listings other than that of JSON documents, of a sound storage, which holds no such
  -- documents, and with reliable crates: each gives for the keys with the prefix, as the index lists
  -- them, the key, content and metadata of every value of its type that has not expired, and nothing
  -- else.
  pub listings_lem :
      (db_prefix : Str) (s : BlobStorage Fs Cache)
      → IsSound x s
      → let keys = index_keys_with_prefix x (with_colon db_prefix) s in
        ((get_all_strings x now db_prefix s).0
          ≡ listed (row_of x as_string itself) (shown x now s) keys)
        × ((get_all_hashes x now db_prefix s).0
            ≡ listed (row_of x as_hash itself) (shown x now s) keys)
        × ((get_all_lists x now db_prefix s).0
            ≡ listed (row_of x as_list itself) (shown x now s) keys)
        × ((get_all_sets x now db_prefix s).0
            ≡ listed (row_of x as_set itself) (shown x now s) keys)
        × ((get_all_sorted_sets x now db_prefix s).0
            ≡ listed (row_of x as_sorted_set itself) (shown x now s) keys)
        × ((get_all_stream_entries x now db_prefix s).0
            ≡ listed (row_of x as_stream itself) (shown x now s) keys)
        × ((get_all_timeseries x now db_prefix s).0
            ≡ listed (row_of x as_time_series itself) (shown x now s) keys)
        × ((get_all_geo x now db_prefix s).0
            ≡ listed (row_of x as_geo (map flat)) (shown x now s) keys)
  unfolding type_of get_all_strings get_all_hashes get_all_lists get_all_sets get_all_sorted_sets
      get_all_stream_entries get_all_timeseries get_all_geo
  listings_lem db_prefix s i =
      let keys = index_keys_with_prefix x (with_colon db_prefix) s in
      (
        rows StoreType.string as_string itself (λ v e. ground arith) keys s i,
        rows StoreType.hash as_hash itself (λ v e. ground arith) keys s i,
        rows StoreType.list as_list itself (λ v e. ground arith) keys s i,
        rows StoreType.set as_set itself (λ v e. ground arith) keys s i,
        rows StoreType.sorted_set as_sorted_set itself (λ v e. ground arith) keys s i,
        rows StoreType.stream as_stream itself (λ v e. ground arith) keys s i,
        rows StoreType.time_series as_time_series itself (λ v e. ground arith) keys s i,
        rows StoreType.geo as_geo (map flat) (λ v e. ground arith) keys s i,
      )
    where
      rows :
          {A B : Type 0} (t : StoreType) (cast : StoredValue J → Option (Entry A)) (f : A → B)
          → IsCast t cast
          → (keys : List Str) (s : BlobStorage Fs Cache) → IsSound x s
          → (list_loop x (is_type t) (row_of x cast f) now keys s).0
            ≡ listed (row_of x cast f) (shown x now s) keys
      rows t cast f only keys s i =
          (list_loop_lem (is_type t) (row_of x cast f) (typed_only t cast f only) keys s i).0
