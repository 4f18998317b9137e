-- ===== src/Storage/Writes.antt =====
-- src/storage.rs: what the writes of structured types make of the values of the keys.
use cyberfly_rust_node.Common.{
  ℕ, ◌≡◌, ◌≢◌, refl, sym, subst, ◌∙◌, inl, inr, false, Option, none, some, List, [], arith,
  if◌then◌else◌, Option-cases,
}
use cyberfly_rust_node.Common.Text.{Str, str_eq, str_eq_iff}
use cyberfly_rust_node.Common.Assoc.{lookup, insert, lookup-insert, str_key}
use cyberfly_rust_node.Common.Result.{ok}
use cyberfly_rust_node.Storage.Value.{
  StoreType, SignatureMetadata, Entry, StoredValue, hash, type_of,
}
use cyberfly_rust_node.Storage.Core.{Backend, BlobStorage, get_value, store_value}
use cyberfly_rust_node.Storage.Sound.{
  IsReliable, view, live, IsSound, view-store_value, store_value-IsSound,
}
use cyberfly_rust_node.Storage.Read.{get_value_lem}
use cyberfly_rust_node.Storage.Typed.{as_hash, opened, written, writing}
use cyberfly_rust_node.Storage.Ops.{set_hash_with_ttl}

module _ {J Fs Cache : Type 0} (x : Backend J Fs Cache) (law : IsReliable x) where
  module _ {A : Type 0} (cast : StoredValue J → Option (Entry A)) (wrap : Entry A → StoredValue J)
      (t : StoreType) (empty : A) (change : A → A) (typed : (e : Entry A) → type_of (wrap e) ≡ t)
      (not_json : t ≢ StoreType.json) (now : ℕ) (key : Str) (metadata : Option SignatureMetadata)
      (ttl_seconds : Option ℕ) (s : BlobStorage Fs Cache) (i : IsSound x s) where
    -- A write of a structured type keeps the storage sound, also where it fails.
    pub writing-IsSound :
        IsSound x (writing x cast wrap t empty change now key metadata ttl_seconds s).1
    unfolding writing
    writing-IsSound =
        let (answer, sound, after) = get_value_lem x law now key s i in
        let s' = (get_value x now key s).1 in
        elim (Option-cases
          (opened now cast empty metadata ttl_seconds (live x now (view x s key)))) [
            | inl none_e ↦ subst (IsSound x) (ground arith) sound
            | inr (e, some_e) ↦
                let v = wrap (written change metadata e) in
                subst (IsSound x) (ground arith) (
                  store_value-IsSound x law key v t s'
                    (λ j. not_json (sym (typed (written change metadata e)) ∙ j))
                    (typed (written change metadata e)) sound)
          ]

    -- A write that succeeds changes the entry of its key, or a new one, and no other key's value.
    pub view-writing :
        (writing x cast wrap t empty change now key metadata ttl_seconds s).0 ≡ ok tt
        → (e : Entry A) × (opened now cast empty metadata ttl_seconds (live x now (view x s key))
            ≡ some e)
          × ((j : Str)
              → view x (writing x cast wrap t empty change now key metadata ttl_seconds s).1 j
                ≡ (if str_eq key j then some (wrap (written change metadata e)) else view x s j))
    unfolding writing
    view-writing done =
        let (answer, sound, after) = get_value_lem x law now key s i in
        let s' = (get_value x now key s).1 in
        elim (Option-cases
          (opened now cast empty metadata ttl_seconds (live x now (view x s key)))) [
            | inl none_e ↦ absurd (ground arith)
            | inr (e, some_e) ↦
                let v = wrap (written change metadata e) in
                let stored : (store_value x key v t s').0 ≡ ok tt = ground arith in
                (
                  e,
                  some_e,
                  λ j.
                      let at =
                        view-store_value x law key v t s'
                          (λ j. not_json (sym (typed (written change metadata e)) ∙ j)) sound stored
                          j in
                      let before = after j in ground arith,
                )
          ]

abbrev pub fields_of : {J : Type 0} → Option (StoredValue J) → List (Str × Str)
fields_of none = []
fields_of (some (hash e)) = e.body
fields_of (some _) = []

opened-fields :
    {J : Type 0} (now : ℕ) (m : Option SignatureMetadata) (ttl : Option ℕ)
    (o : Option (StoredValue J)) (e : Entry (List (Str × Str)))
    → opened now as_hash [] m ttl o ≡ some e
    → e.body ≡ fields_of o
opened-fields now m ttl none e h = ground arith
opened-fields now m ttl (some (hash f)) e h = ground arith
opened-fields now m ttl (some _) e h = absurd (cc)

written-body :
    {A : Type 0} (change : A → A) (m : Option SignatureMetadata) (e : Entry A)
    → (written change m e).body ≡ change e.body
written-body change none e = refl
written-body change (some m) e = refl

module _ {J Fs Cache : Type 0} (x : Backend J Fs Cache) (law : IsReliable x) where
  -- A field that was set reads back; the hash's other fields, as far as it had not expired, and the
  -- values of all other keys are as before. The crates are to be reliable, the storage sound, so that it
  -- holds no JSON documents, and the write to succeed.
  pub set_hash_lem :
      (now : ℕ) (key field value : Str) (metadata : Option SignatureMetadata)
      (ttl_seconds : Option ℕ) (s : BlobStorage Fs Cache)
      → IsSound x s
      → (set_hash_with_ttl x now key field value metadata ttl_seconds s).0 ≡ ok tt
      → ((f : Str)
          → lookup f (
              fields_of
                (view x (set_hash_with_ttl x now key field value metadata ttl_seconds s).1 key))
            ≡ (if str_eq field f
                then some value
                else lookup f (fields_of (live x now (view x s key)))))
        × ((j : Str)
            → str_eq key j ≡ false
            → view x (set_hash_with_ttl x now key field value metadata ttl_seconds s).1 j
              ≡ view x s j)
  unfolding set_hash_with_ttl
  set_hash_lem now key field value metadata ttl_seconds s i done =
      let (e, from, after) =
        view-writing x law as_hash hash StoreType.hash [] (insert field value)
          (λ e. unfold type_of in refl) (λ e. absurd (cc)) now key metadata ttl_seconds s i done in
      (
        λ f.
            let at = after key in
            let body = written-body (insert field value) metadata e in
            ground (
              arith,
              str_eq_iff key key,
              opened-fields now metadata ttl_seconds (live x now (view x s key)) e from,
              lookup-insert field f value e.body,
            ),
        λ j other. after j ∙ rw other,
      )
