-- ===== src/Storage/Lost.antt =====
-- src/storage.rs, `set_json_with_ttl` and `get_json`: a document that is read past the cache.
use cyberfly_rust_node.Common.{ℕ, ◌≡◌, refl, inl, inr, Option, none, some, arith, Option-cases}
use cyberfly_rust_node.Common.Text.{Str, str_leb, str_eq_iff}
use cyberfly_rust_node.Common.Assoc.{lookup-tree_insert, str_key}
use cyberfly_rust_node.Common.Result.{ok, err}
use cyberfly_rust_node.Storage.Value.{
  StoreType, StoredValue, SignatureMetadata, json, new_ttl, type_of,
}
use cyberfly_rust_node.Storage.Core.{
  decode_failed, Backend, BlobStorage, Outcome, cached, cache_value, load_value, get_value,
  store_value,
}
use cyberfly_rust_node.Storage.Sound.{IsReliable}
use cyberfly_rust_node.Storage.Documents.{deduplicated, set_json_with_ttl, get_json}

module _ {J Fs Cache : Type 0} (x : Backend J Fs Cache) (law : IsReliable x) where
  store-lost :
      (key : Str) (v : StoredValue J) (t : StoreType) (s : BlobStorage Fs Cache) (later : ℕ)
      → type_of v ≡ StoreType.json
      → (store_value x key v t s).0 ≡ ok tt
      → let s' = (store_value x key v t s).1 in
        x.cache_get later s'.hot key ≡ none
        → x.cache_get later s'.warm key ≡ none
        → get_value x later key s' ≡ (err decode_failed, s')
  unfolding store_value cache_value get_value cached load_value
  store-lost key v t s later typed done hot warm = elim (Option-cases (x.value_to_bytes v)) [
    | inl none_b ↦ absurd (ground arith)
    | inr (b, some_b) ↦ elim (Option-cases (x.add_bytes s.store b)) [
      | inl none_h ↦ absurd (ground arith)
      | inr ((h, fs'), added) ↦
          let blob = law.blob s.store fs' b h added in
          let gone = law.json_lost v b typed some_b in
          let at = lookup-tree_insert str_leb key key (h, t) s.index_tree in
          ground (arith, str_eq_iff key key)
    ]
  ]

  lost-by :
      (key : Str) (v : StoredValue J) (s : BlobStorage Fs Cache) (later : ℕ)
      (o : Outcome x (Unit {0}))
      → o ≡ store_value x key v StoreType.json s
      → type_of v ≡ StoreType.json
      → o.0 ≡ ok tt
      → x.cache_get later o.1.hot key ≡ none
      → x.cache_get later o.1.warm key ≡ none
      → get_json x later key o.1 ≡ (err decode_failed, o.1)
  unfolding get_json
  lost-by key v s later o from typed done hot warm =
      let lost =
        store-lost key v StoreType.json s later typed (ground arith) (ground arith)
          (ground arith) in
      ground arith

  -- With reliable crates, a document that was stored with success, whatever the storage held before,
  -- cannot be read once the cache has dropped it: `get_json` then answers that the value does not
  -- decode, and leaves the storage as it is.
  pub get_json-set_json :
      (now later : ℕ) (key value : Str) (metadata : Option SignatureMetadata)
      (ttl_seconds : Option ℕ) (s : BlobStorage Fs Cache)
      → (set_json_with_ttl x now key value metadata ttl_seconds s).0 ≡ ok tt
      → x.cache_get later (set_json_with_ttl x now key value metadata ttl_seconds s).1.hot key
        ≡ none
      → x.cache_get later (set_json_with_ttl x now key value metadata ttl_seconds s).1.warm key
        ≡ none
      → get_json x later key (set_json_with_ttl x now key value metadata ttl_seconds s).1
        ≡ (err decode_failed, (set_json_with_ttl x now key value metadata ttl_seconds s).1)
  unfolding set_json_with_ttl type_of
  get_json-set_json now later key value metadata ttl_seconds s done hot warm =
      elim (Option-cases (x.parse_json value)) [
        | inl bad ↦ absurd (ground arith)
        | inr (doc, parsed) ↦
            let v : StoredValue J = json (record {
              body = record { doc = doc; id = x.json_id doc };
              metadata = metadata;
              ttl = elim ttl_seconds [ none ↦ none | some ttl ↦ some (new_ttl now (some ttl)) ];
            }) in
            lost-by key v (deduplicated x now key (x.json_id doc) s) later
              (set_json_with_ttl x now key value metadata ttl_seconds s)
              (rw (set_json_with_ttl, parsed) refl) refl done hot warm
      ]
