-- ===== src/Storage/Sound.antt =====
-- src/storage.rs: the storage as a map from keys to values, whatever the cache holds or drops. It is about
-- storages without JSON documents, whose bytes bincode does not decode; Storage/Lost is about those. A
-- HashMap is taken to decode with its entries in the order in which they were encoded.
use cyberfly_rust_node.Common.{
  ℕ, ◌≡◌, ◌≢◌, ◌∙◌, ◌⊎◌, inl, inr, Option, none, some, List, arith, if◌then◌else◌, Bool-cases,
  Option-cases,
}
use cyberfly_rust_node.Common.Text.{Str, str_leb, str_eq, str_eq_iff}
use cyberfly_rust_node.Common.Assoc.{lookup, lookup-tree_insert, lookup-remove, str_key}
use cyberfly_rust_node.Common.Result.{ok, err, Result-cases}
use cyberfly_rust_node.Sync.Store.{Hash}
use cyberfly_rust_node.Storage.Value.{StoreType, StoredValue, type_of, is_value_expired}
use cyberfly_rust_node.Storage.Core.{
  StorageError, Backend, BlobStorage, cache_value, invalidate, index_remove, delete, store_value,
}

-- What the crates document: a value's bytes decode to it unless it is a document, since bincode does
-- not support the decoding of serde_json::Value, so that no bytes decode to a document; a blob is found under the hash that adding
-- it gave, also after other blobs were added, and a cache answers with the last value inserted or not
-- at all.
pub record IsReliable {J Fs Cache : Type 0} (x : Backend J Fs Cache) : Type 0 where
  pub codec :
      (v : StoredValue J) (b : List ℕ)
      → type_of v ≢ StoreType.json
      → x.value_to_bytes v ≡ some b
      → x.value_from_bytes b ≡ some v
  pub no_documents :
      (v : StoredValue J) (b : List ℕ) → x.value_from_bytes b ≡ some v → type_of v ≢ StoreType.json
  pub json_lost :
      (v : StoredValue J) (b : List ℕ)
      → type_of v ≡ StoreType.json
      → x.value_to_bytes v ≡ some b
      → x.value_from_bytes b ≡ none
  pub blob :
      (fs fs' : Fs) (b : List ℕ) (h : Hash)
      → x.add_bytes fs b ≡ some (h, fs')
      → x.get_bytes fs' h ≡ some b
  pub kept :
      (fs fs' : Fs) (b c : List ℕ) (h g : Hash)
      → x.add_bytes fs b ≡ some (h, fs')
      → x.get_bytes fs g ≡ some c
      → x.get_bytes fs' g ≡ some c
  pub last_inserted :
      (n : ℕ) (k j : Str) (v w : StoredValue J) (c : Cache)
      → x.cache_get n (x.cache_insert k v c) j ≡ some w
      → ((k ≡ j) × (v ≡ w)) ⊎ ((k ≢ j) × (m : ℕ) × (x.cache_get m c j ≡ some w))
  pub invalidated :
      (n : ℕ) (k j : Str) (w : StoredValue J) (c : Cache)
      → x.cache_get n (x.cache_invalidate k c) j ≡ some w
      → (k ≢ j) × (m : ℕ) × (x.cache_get m c j ≡ some w)

module _ {J Fs Cache : Type 0} (x : Backend J Fs Cache) where
  abbrev pub decoded : Fs → Hash → Option (StoredValue J)
  decoded fs h = elim (x.get_bytes fs h) [ none ↦ none | some b ↦ x.value_from_bytes b ]

  -- The value that the index and the blobs hold for a key.
  unfoldable pub view : BlobStorage Fs Cache → Str → Option (StoredValue J)
  view s key = elim (lookup key s.index_tree) [ none ↦ none | some (h, t) ↦ decoded s.store h ]

  -- A value that has expired counts as absent.
  abbrev pub live : ℕ → Option (StoredValue J) → Option (StoredValue J)
  live now none = none
  live now (some v) = if is_value_expired now v then none else some v

  -- Every entry of the index has a value of its type that its bytes decode to, so it is no document; the hot tier agrees with the index, and the warm
  -- tier is empty.
  pub record IsSound (s : BlobStorage Fs Cache) : Type 0 where
    pub backed :
        (k : Str) (h : Hash) (t : StoreType)
        → lookup k s.index_tree ≡ some (h, t)
        → (v : StoredValue J) × (decoded s.store h ≡ some v) × (type_of v ≡ t)
    pub fresh :
        (n : ℕ) (k : Str) (v : StoredValue J) → x.cache_get n s.hot k ≡ some v → view s k ≡ some v
    pub unused : (n : ℕ) (k : Str) → x.cache_get n s.warm k ≡ none

module _ {J Fs Cache : Type 0} (x : Backend J Fs Cache) (law : IsReliable x) where
  decoded-kept :
      (fs fs' : Fs) (b : List ℕ) (h g : Hash) (v : StoredValue J)
      → x.add_bytes fs b ≡ some (h, fs')
      → decoded x fs g ≡ some v
      → decoded x fs' g ≡ some v
  decoded-kept fs fs' b h g v added e = elim (Option-cases (x.get_bytes fs g)) [
    | inl gone ↦ absurd (ground arith)
    | inr (c, found) ↦ ground (arith, law.kept fs fs' b c h g added found)
  ]

  pub view-delete :
      (key j : Str) (s : BlobStorage Fs Cache)
      → view x (delete x key s) j ≡ (if str_eq key j then none else view x s j)
  unfolding view delete invalidate index_remove
  view-delete key j s = ground (arith, lookup-remove key j s.index_tree, str_eq_iff key j)

  pub delete-IsSound :
      (key : Str) (s : BlobStorage Fs Cache) → IsSound x s → IsSound x (delete x key s)
  unfolding delete invalidate index_remove
  delete-IsSound key s i = record {
    backed = λ k h t e.
        i.backed k h t (ground (arith, lookup-remove key k s.index_tree, str_eq_iff key k));
    fresh = λ n k v e.
        let (other, m, held) = law.invalidated n key k v s.hot e in
        view-delete key k s ∙ ground (arith, i.fresh m k v held, str_eq_iff key k);
    unused = λ n k. elim (Option-cases (x.cache_get n (x.cache_invalidate key s.warm) k)) [
      | inl e ↦ e
      | inr (v, e) ↦
          let (other, m, held) = law.invalidated n key k v s.warm e in
          absurd (cc (i.unused m k, held))
    ];
  }

  -- A sound storage holds no documents.
  pub view_not_json :
      (s : BlobStorage Fs Cache) (k : Str) (v : StoredValue J)
      → view x s k ≡ some v
      → type_of v ≢ StoreType.json
  unfolding view
  view_not_json s k v e = elim (Option-cases (lookup k s.index_tree)) [
    | inl none_k ↦ absurd (ground arith)
    | inr ((h, t), some_k) ↦ elim (Option-cases (x.get_bytes s.store h)) [
      | inl none_b ↦ absurd (ground arith)
      | inr (b, some_b) ↦ law.no_documents v b (ground arith)
    ]
  ]

  module _ (key : Str) (v : StoredValue J) (t : StoreType) (s : BlobStorage Fs Cache)
      (not_json : type_of v ≢ StoreType.json) where
    -- A value other than a document that was stored is the one of its key; no other key's value changes.
    pub view-store_value :
        IsSound x s
        → (store_value x key v t s).0 ≡ ok tt
        → (j : Str)
        → view x (store_value x key v t s).1 j ≡ (if str_eq key j then some v else view x s j)
    unfolding store_value cache_value view
    view-store_value i e j = elim (Option-cases (x.value_to_bytes v)) [
      | inl none_b ↦ absurd (ground arith)
      | inr (b, some_b) ↦ elim (Option-cases (x.add_bytes s.store b)) [
        | inl none_h ↦ absurd (ground arith)
        | inr ((h, fs'), added) ↦
            let at = lookup-tree_insert str_leb key j (h, t) s.index_tree in
            elim (Option-cases (lookup j s.index_tree)) [
              | inl absent ↦ ground (
                arith,
                at,
                law.blob s.store fs' b h added,
                law.codec v b not_json some_b,
                str_eq_iff key j,
              )
              | inr ((g, u), found) ↦
                  let (w, dec, typed) = i.backed j g u found in
                  ground (
                    arith,
                    at,
                    law.blob s.store fs' b h added,
                    law.codec v b not_json some_b,
                    decoded-kept s.store fs' b h g w added dec,
                    str_eq_iff key j,
                  )
            ]
      ]
    ]

    store_value_err :
        (er : StorageError) → (store_value x key v t s).0 ≡ err er → (store_value x key v t s).1 ≡ s
    unfolding store_value
    store_value_err er e = ground arith

    store_value-backed :
        type_of v ≡ t
        → IsSound x s
        → (k : Str) (g : Hash) (u : StoreType)
        → lookup k (store_value x key v t s).1.index_tree ≡ some (g, u)
        → (w : StoredValue J) × (decoded x (store_value x key v t s).1.store g ≡ some w)
          × (type_of w ≡ u)
    unfolding store_value cache_value
    store_value-backed typed i k g u e = elim (Option-cases (x.value_to_bytes v)) [
      | inl none_b ↦
          let (w, dec, wu) = i.backed k g u (ground arith) in (w, ground (arith, dec), wu)
      | inr (b, some_b) ↦ elim (Option-cases (x.add_bytes s.store b)) [
        | inl none_h ↦
            let (w, dec, wu) = i.backed k g u (ground arith) in (w, ground (arith, dec), wu)
        | inr ((h, fs'), added) ↦
            let at = lookup-tree_insert str_leb key k (h, t) s.index_tree in
            elim (Bool-cases (str_eq key k)) [
              | inl same ↦
                  let e' : (h ≡ g) × (t ≡ u) = (ground (arith, at), ground (arith, at)) in
                  (
                    v,
                    ground (
                      arith,
                      e'.0,
                      law.blob s.store fs' b h added,
                      law.codec v b not_json some_b,
                    ),
                    typed ∙ e'.1,
                  )
              | inr other ↦
                  let (w, dec, wu) = i.backed k g u (ground (arith, at)) in
                  (w, ground (arith, decoded-kept s.store fs' b h g w added dec), wu)
            ]
      ]
    ]

    store_value-fresh :
        IsSound x s
        → (store_value x key v t s).0 ≡ ok tt
        → (n : ℕ) (k : Str) (w : StoredValue J)
        → x.cache_get n (x.cache_insert key v s.hot) k ≡ some w
        → view x (store_value x key v t s).1 k ≡ some w
    store_value-fresh i done n k w e = elim (law.last_inserted n key k v w s.hot e) [
      | inl (same, vw) ↦ view-store_value i done k ∙ ground (arith, str_eq_iff key k)
      | inr (other, m, held) ↦
          view-store_value i done k ∙ ground (arith, str_eq_iff key k, i.fresh m k w held)
    ]

    -- Storing a value other than a document under its type keeps the storage sound, also where it fails.
    pub store_value-IsSound : type_of v ≡ t → IsSound x s → IsSound x (store_value x key v t s).1
    store_value-IsSound typed i = elim (Result-cases (store_value x key v t s).0) [
      | inr (er, e) ↦ rw (store_value_err er e) i
      | inl (u, e) ↦ record {
        backed = store_value-backed typed i;
        fresh = λ n k w h.
            store_value-fresh i (ground arith) n k w (rw (stored_hot (ground arith)) at h);
        unused = λ n k. rw stored_warm (i.unused n k);
      }
    ]
      where
        stored_hot :
            (store_value x key v t s).0 ≡ ok tt
            → (store_value x key v t s).1.hot ≡ x.cache_insert key v s.hot
        stored_hot e = unfold store_value in unfold cache_value in ground arith

        stored_warm : (store_value x key v t s).1.warm ≡ s.warm
        stored_warm = unfold store_value in unfold cache_value in ground arith
