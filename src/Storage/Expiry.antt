-- ===== src/Storage/Expiry.antt =====
-- src/storage.rs, `cleanup_expired_keys` and `set_key_ttl`: what becomes of values whose time runs out.
use cyberfly_rust_node.Common.{
  ℕ, ◌+◌, ◌*◌, ◌^◌, ◌<◌, ◌≡◌, ◌≢◌, ◌↔◌, refl, sym, ◌∙◌, inl, inr, true, false, Option, none, some,
  List, [], ◌∷◌, arith, if◌then◌else◌, Option-cases, ltb,
}
use cyberfly_rust_node.Common.Text.{Str, str_eq, str_eq_iff}
use cyberfly_rust_node.Common.Assoc.{lookup, contains, str_key}
use cyberfly_rust_node.Common.Result.{ok}
use cyberfly_rust_node.Storage.Value.{
  StoreType, TtlMetadata, StoredValue, string, hash, list, set, sorted_set, json, stream,
  time_series, geo, new_ttl, is_expired, type_of, get_ttl_metadata, with_ttl, is_value_expired,
}
use cyberfly_rust_node.Storage.Core.{Backend, BlobStorage, get_value, store_value}
use cyberfly_rust_node.Storage.Sound.{
  IsReliable, view, live, IsSound, view-store_value, view_not_json,
}
use cyberfly_rust_node.Storage.Read.{get_value_lem}
use cyberfly_rust_node.Storage.Keys.{cleanup_loop, keys_of, cleanup_expired_keys, set_key_ttl}

lookup-keys_of :
    (j : Str) (tree : List (Str × (ℕ × StoreType)))
    → contains j (keys_of tree) ≡ false
    → lookup j tree ≡ none
unfolding contains lookup
lookup-keys_of j [] h = refl
lookup-keys_of j ((k, e) ∷ tree) h = ground (arith, lookup-keys_of j tree)

module _ {J Fs Cache : Type 0} (x : Backend J Fs Cache) (law : IsReliable x) (now : ℕ) where
  pub live-live : (o : Option (StoredValue J)) → live x now (live x now o) ≡ live x now o
  live-live none = refl
  live-live (some v) = ground arith

  live-some : (o : Option (StoredValue J)) (v : StoredValue J) → live x now o ≡ some v → o ≡ some v
  live-some none v h = absurd (cc)
  live-some (some w) v h = ground arith

  loop-view :
      (keys : List Str) (n : ℕ) (s : BlobStorage Fs Cache)
      → IsSound x s
      → IsSound x (cleanup_loop x now keys n s).1
        × ((j : Str)
            → view x (cleanup_loop x now keys n s).1 j
              ≡ (if contains j keys then live x now (view x s j) else view x s j))
  unfolding cleanup_loop contains
  loop-view [] n s i = (i, λ j. refl)
  loop-view (key ∷ keys) n s i =
      let (answer, sound, after) = get_value_lem x law now key s i in
      let (sound', after') = loop-view keys _ (get_value x now key s).1 sound in
      (sound', λ j. ground (arith, after' j, after j, live-live (view x s j)))

  -- With reliable crates, after a clean-up of a sound storage, which holds no JSON documents, no expired
  -- value is left, all others are as before, and the storage is sound.
  pub cleanup_expired_keys_lem :
      (s : BlobStorage Fs Cache)
      → IsSound x s
      → IsSound x (cleanup_expired_keys x now s).1
        × ((j : Str) → view x (cleanup_expired_keys x now s).1 j ≡ live x now (view x s j))
  unfolding cleanup_expired_keys
  cleanup_expired_keys_lem s i =
      let (sound, after) = loop-view (keys_of s.index_tree) 0 s i in
      (
        sound,
        λ j.
            let absent = lookup-keys_of j s.index_tree in
            after j ∙ unfold view in ground (arith, absent),
      )

  with_ttl-expiry :
      (v : StoredValue J) (ttl later : ℕ)
      → now + ttl * 1000 < 2 ^ 63
      → (is_value_expired later (with_ttl (some (new_ttl now (some ttl))) v) ≡ true)
        ↔ (now + ttl * 1000 < later)
  unfolding is_value_expired get_ttl_metadata with_ttl is_expired new_ttl
  with_ttl-expiry (string e) ttl later h = ground arith
  with_ttl-expiry (hash e) ttl later h = ground arith
  with_ttl-expiry (list e) ttl later h = ground arith
  with_ttl-expiry (set e) ttl later h = ground arith
  with_ttl-expiry (sorted_set e) ttl later h = ground arith
  with_ttl-expiry (json e) ttl later h = ground arith
  with_ttl-expiry (stream e) ttl later h = ground arith
  with_ttl-expiry (time_series e) ttl later h = ground arith
  with_ttl-expiry (geo e) ttl later h = ground arith

  with_ttl-type_of :
      (t : Option TtlMetadata) (v : StoredValue J) → type_of (with_ttl t v) ≡ type_of v
  unfolding type_of with_ttl
  with_ttl-type_of t (string e) = refl
  with_ttl-type_of t (hash e) = refl
  with_ttl-type_of t (list e) = refl
  with_ttl-type_of t (set e) = refl
  with_ttl-type_of t (sorted_set e) = refl
  with_ttl-type_of t (json e) = refl
  with_ttl-type_of t (stream e) = refl
  with_ttl-type_of t (time_series e) = refl
  with_ttl-type_of t (geo e) = refl

  with_ttl-not_json :
      (t : Option TtlMetadata) (v : StoredValue J)
      → type_of v ≢ StoreType.json
      → type_of (with_ttl t v) ≢ StoreType.json
  with_ttl-not_json t v n e = n (sym (with_ttl-type_of t v) ∙ e)

  -- EXPIRE on a sound storage, which holds no JSON documents, with reliable crates: a true answer means
  -- that the key had a value that had not expired. It now has that value again with the new time to live and is absent for exactly the readings of the
  -- clock past the end of that time, if that end is below 2^63; every other key's value is as before.
  pub set_key_ttl_lem :
      (key : Str) (ttl : ℕ) (s : BlobStorage Fs Cache)
      → IsSound x s
      → (set_key_ttl x now key ttl s).0 ≡ ok true
      → now + ttl * 1000 < 2 ^ 63
      → (v : StoredValue J) × (live x now (view x s key) ≡ some v)
        × ((later : ℕ)
            → live x later (view x (set_key_ttl x now key ttl s).1 key) ≡ (
                if ltb (now + ttl * 1000) later
                then none
                else some (with_ttl (some (new_ttl now (some ttl))) v)))
        × ((j : Str) → str_eq key j ≡ false → view x (set_key_ttl x now key ttl s).1 j ≡ view x s j)
  unfolding set_key_ttl
  set_key_ttl_lem key ttl s i done h =
      let (answer, sound, after) = get_value_lem x law now key s i in
      let s' = (get_value x now key s).1 in
      elim (Option-cases (live x now (view x s key))) [
        | inl gone ↦ absurd (ground arith)
        | inr (v, some_v) ↦
            let w = with_ttl (some (new_ttl now (some ttl))) v in
            let stored : (store_value x key w (type_of w) s').0 ≡ ok tt = ground arith in
            let seen = view_not_json x law s key v (live-some (view x s key) v some_v) in
            let not_json = with_ttl-not_json (some (new_ttl now (some ttl))) v seen in
            let at = view-store_value x law key w (type_of w) s' not_json sound stored in
            (
              v,
              some_v,
              λ later.
                  let at_key = at key in
                  let ends = with_ttl-expiry v ttl later h in ground (arith, str_eq_iff key key),
              λ j other. let at_j = at j in let before = after j in ground arith,
            )
      ]
