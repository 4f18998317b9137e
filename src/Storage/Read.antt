-- ===== src/Storage/Read.antt =====
-- src/storage.rs, `get_value`: what a read answers and what it leaves.
use cyberfly_rust_node.Common.{
  ℕ, ◌≡◌, refl, sym, ap, subst, ◌∙◌, ◌⊎◌, inl, inr, true, false, Option, none, some, arith,
  if◌then◌else◌, Bool-cases, Option-cases,
}
use cyberfly_rust_node.Common.Text.{Str, str_eq, str_eq_iff}
use cyberfly_rust_node.Common.Assoc.{lookup, str_key}
use cyberfly_rust_node.Common.Result.{Result, ok}
use cyberfly_rust_node.Storage.Value.{StoredValue, is_value_expired}
use cyberfly_rust_node.Storage.Core.{
  StorageError, Backend, BlobStorage, cached, cache_value, invalidate, delete, load_value,
  get_value,
}
use cyberfly_rust_node.Storage.Sound.{IsReliable, view, live, IsSound, delete-IsSound, view-delete}

module _ {J Fs Cache : Type 0} (x : Backend J Fs Cache) where
  -- What a read can do: nothing, a deletion of what has expired, or a hit or miss of the cache.
  data Reads (now : ℕ) (key : Str) (s : BlobStorage Fs Cache)
      : Result StorageError (Option (StoredValue J)) → BlobStorage Fs Cache → Type 0 where
    absent : view x s key ≡ none → Reads now key s (ok none) s
    expired :
        (v : StoredValue J) (s' : BlobStorage Fs Cache)
        → view x s key ≡ some v
        → is_value_expired now v ≡ true
        → (s' ≡ s) ⊎ (s' ≡ invalidate x key s)
        → Reads now key s (ok none) (delete x key s')
    found :
        (v : StoredValue J) (s' : BlobStorage Fs Cache)
        → view x s key ≡ some v
        → is_value_expired now v ≡ false
        → (s' ≡ s) ⊎ (s' ≡ cache_value x key v s)
        → Reads now key s (ok (some v)) s'

  cached_lem :
      (now : ℕ) (key : Str) (s : BlobStorage Fs Cache)
      → IsSound x s
      → cached x now key s ≡ (x.cache_get now s.hot key, s)
  unfolding cached
  cached_lem now key s i = ground (arith, i.unused now key)

  Reads-eq :
      {now : ℕ} {key : Str} {s s' : BlobStorage Fs Cache}
      {r : Result StorageError (Option (StoredValue J))}
      (o : Result StorageError (Option (StoredValue J)) × BlobStorage Fs Cache)
      → o ≡ (r, s')
      → Reads now key s r s'
      → Reads now key s o.0 o.1
  Reads-eq o e h = rw e h

  load-Reads :
      (now : ℕ) (key : Str) (s : BlobStorage Fs Cache)
      → IsSound x s
      → Reads now key s (load_value x now key s).0 (load_value x now key s).1
  unfolding load_value view
  load-Reads now key s i = elim (Option-cases (lookup key s.index_tree)) [
    | inl none_k ↦ Reads-eq (load_value x now key s) (ground arith) (absent (ground arith))
    | inr ((h, t), some_k) ↦
        let (v, dec, typed) = i.backed key h t some_k in
        elim (Option-cases (x.get_bytes s.store h)) [
          | inl none_b ↦ absurd (ground arith)
          | inr (b, some_b) ↦
              let from : x.value_from_bytes b ≡ some v = ground arith in
              let seen : view x s key ≡ some v = ground arith in
              elim (Bool-cases (is_value_expired now v)) [
                | inl old ↦
                    Reads-eq (load_value x now key s) (ground arith)
                      (expired v s seen old (inl refl))
                | inr new ↦
                    Reads-eq (load_value x now key s) (ground arith)
                      (found v (cache_value x key v s) seen new (inr refl))
              ]
        ]
  ]

  get_value-Reads :
      (now : ℕ) (key : Str) (s : BlobStorage Fs Cache)
      → IsSound x s
      → Reads now key s (get_value x now key s).0 (get_value x now key s).1
  unfolding get_value
  get_value-Reads now key s i =
      let c = cached_lem now key s i in
      elim (Option-cases (x.cache_get now s.hot key)) [
        | inl miss ↦
            let e : get_value x now key s ≡ load_value x now key s = ground (arith, c) in
            subst (λ o. Reads now key s o.0 o.1) (sym e) (load-Reads now key s i)
        | inr (v, hit) ↦
            let seen = i.fresh now key v hit in
            elim (Bool-cases (is_value_expired now v)) [
              | inl old ↦
                  Reads-eq (get_value x now key s) (ground (arith, c))
                    (expired v (invalidate x key s) seen old (inr refl))
              | inr new ↦
                  Reads-eq (get_value x now key s) (ground (arith, c))
                    (found v s seen new (inl refl))
            ]
      ]

module _ {J Fs Cache : Type 0} (x : Backend J Fs Cache) (law : IsReliable x) where
  cache_value-IsSound :
      (key : Str) (v : StoredValue J) (s : BlobStorage Fs Cache)
      → view x s key ≡ some v
      → IsSound x s
      → IsSound x (cache_value x key v s)
  unfolding cache_value view
  cache_value-IsSound key v s seen i = record {
    backed = i.backed;
    fresh = λ n k w e. elim (law.last_inserted n key k v w s.hot e) [
      | inl (same, vw) ↦ ground arith
      | inr (other, m, held) ↦ i.fresh m k w held
    ];
    unused = i.unused;
  }

  invalidate-IsSound :
      (key : Str) (s : BlobStorage Fs Cache) → IsSound x s → IsSound x (invalidate x key s)
  unfolding invalidate view
  invalidate-IsSound key s i = record {
    backed = i.backed;
    fresh =
        λ n k w e. let (other, m, held) = law.invalidated n key k w s.hot e in i.fresh m k w held;
    unused = λ n k. elim (Option-cases (x.cache_get n (x.cache_invalidate key s.warm) k)) [
      | inl e ↦ e
      | inr (v, e) ↦
          let (other, m, held) = law.invalidated n key k v s.warm e in
          absurd (cc (i.unused m k, held))
    ];
  }

  view-cache_value :
      (key j : Str) (v : StoredValue J) (s : BlobStorage Fs Cache)
      → view x (cache_value x key v s) j ≡ view x s j
  unfolding view cache_value
  view-cache_value key j v s = refl

  view-invalidate :
      (key j : Str) (s : BlobStorage Fs Cache) → view x (invalidate x key s) j ≡ view x s j
  unfolding view invalidate
  view-invalidate key j s = refl

  -- What a read leaves: a sound storage in which the key's value is gone if it has expired.
  record Left (now : ℕ) (key : Str) (s : BlobStorage Fs Cache)
      (r : Result StorageError (Option (StoredValue J))) (s' : BlobStorage Fs Cache) : Type 0 where
    answer : r ≡ ok (live x now (view x s key))
    sound : IsSound x s'
    after : (j : Str) → view x s' j ≡ (if str_eq key j then live x now (view x s j) else view x s j)

  Reads-Left :
      {now : ℕ} {key : Str} {s s' : BlobStorage Fs Cache}
      {r : Result StorageError (Option (StoredValue J))}
      → IsSound x s
      → Reads x now key s r s'
      → Left now key s r s'
  Reads-Left {now} {key} {s} i (absent e) = record {
    answer = ground arith;
    sound = i;
    after = λ j. ground (arith, str_eq_iff key j);
  }
  Reads-Left {now} {key} {s} i (expired v s' seen old same) = record {
    answer = ground arith;
    sound = elim same [
      | inl e ↦ delete-IsSound x law key s' (subst (IsSound x) (sym e) i)
      | inr e ↦ delete-IsSound x law key s' (subst (IsSound x) (sym e) (invalidate-IsSound key s i))
    ];
    after = λ j.
        let before : view x s' j ≡ view x s j = elim same [
          | inl e ↦ ap (λ u. view x u j) e
          | inr e ↦ ap (λ u. view x u j) e ∙ view-invalidate key j s
        ] in
        ground (arith, view-delete x law key j s', str_eq_iff key j);
  }
  Reads-Left {now} {key} {s} i (found v s' seen new same) = record {
    answer = ground arith;
    sound = elim same [
      | inl e ↦ subst (IsSound x) (sym e) i
      | inr e ↦ subst (IsSound x) (sym e) (cache_value-IsSound key v s seen i)
    ];
    after = λ j.
        let before : view x s' j ≡ view x s j = elim same [
          | inl e ↦ ap (λ u. view x u j) e
          | inr e ↦ ap (λ u. view x u j) e ∙ view-cache_value key j v s
        ] in
        ground (arith, str_eq_iff key j);
  }

  -- With crates that are as `IsReliable` says, a read of a sound storage, which holds no JSON documents,
  -- never fails. It answers the value of the key unless that has expired, an expired value is gone
  -- afterwards, every other key's value is as before, and the storage stays sound.
  pub get_value_lem :
      (now : ℕ) (key : Str) (s : BlobStorage Fs Cache)
      → IsSound x s
      → ((get_value x now key s).0 ≡ ok (live x now (view x s key)))
        × IsSound x (get_value x now key s).1
        × ((j : Str)
            → view x (get_value x now key s).1 j
              ≡ (if str_eq key j then live x now (view x s j) else view x s j))
  get_value_lem now key s i =
      let l = Reads-Left i (get_value-Reads x now key s i) in (l.answer, l.sound, l.after)
