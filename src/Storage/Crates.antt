-- ===== src/Storage/Crates.antt =====
-- Small crates for src/storage.rs: blobs, a cache of one value and bytes for some values.
use cyberfly_rust_node.Common.{
  ℕ, zero, suc, ◌≡◌, refl, ◌≢◌, ◌⊎◌, inl, inr, true, ◌&&◌, Option, none, some, List, [], ◌∷◌, arith,
  ltb, ◌==◌, if◌then◌else◌, Bool-cases,
}
use cyberfly_rust_node.Common.Int.{ℤ, pos, negsuc}
use cyberfly_rust_node.Common.Text.{Str, str_eq, str_eq_iff}
use cyberfly_rust_node.Common.Assoc.{str_key}
use cyberfly_rust_node.Storage.Value.{
  StoreType, type_of, SignatureMetadata, TtlMetadata, Entry, StoredValue, string, hash, json, geo,
}
use cyberfly_rust_node.Storage.Core.{Backend}
use cyberfly_rust_node.Storage.Sound.{IsReliable}

-- Blobs are numbered in the order of their arrival.
abbrev pub Blobs : Type 0
Blobs = ℕ × (ℕ → Option (List ℕ))

abbrev add_blob : Blobs → List ℕ → Option (ℕ × Blobs)
add_blob (n, at) b = some (n, (suc n, λ i. if i == n then some b else at i))

abbrev blob_at : Blobs → ℕ → Option (List ℕ)
blob_at (n, at) i = if ltb i n then at i else none

-- A cache with room for one value, which it drops at 100 s.
abbrev pub Slot : Type 0
Slot = Option (Str × StoredValue ℕ)

abbrev slot_get : ℕ → Slot → Str → Option (StoredValue ℕ)
slot_get now none key = none
slot_get now (some (k, v)) key = if str_eq k key && ltb now 100000 then some v else none

abbrev slot_invalidate : Str → Slot → Slot
slot_invalidate key none = none
slot_invalidate key (some (k, v)) = if str_eq k key then none else some (k, v)

-- Strings have bytes, hashes of one field and one location, whose names have one letter, and
-- documents, whose bytes do not decode.
abbrev timed : Str → Option ℕ → Option ℤ → ℤ → Option (List ℕ)
timed body (some ttl) (some (pos e)) (pos c) = some (1 ∷ ttl ∷ e ∷ c ∷ body)
timed body _ _ _ = none

abbrev string_bytes : Str → Option SignatureMetadata → Option TtlMetadata → Option (List ℕ)
string_bytes body none none = some (0 ∷ body)
string_bytes body none (some t) = timed body t.ttl_seconds t.expires_at t.created_at
string_bytes body (some m) t = none

abbrev hash_bytes :
    List (Str × Str) → Option SignatureMetadata → Option TtlMetadata → Option (List ℕ)
hash_bytes ((c ∷ [], v) ∷ []) none none = some (2 ∷ c ∷ v)
hash_bytes _ _ _ = none

abbrev geo_bytes :
    List (Str × (ℕ × ℕ)) → Option SignatureMetadata → Option TtlMetadata → Option (List ℕ)
geo_bytes ((c ∷ [], (lon, lat)) ∷ []) none none = some (3 ∷ c ∷ lon ∷ lat ∷ [])
geo_bytes _ _ _ = none

abbrev json_bytes : ℕ → Option Str → Option SignatureMetadata → Option TtlMetadata → Option (List ℕ)
json_bytes doc none none none = some (3 ∷ doc ∷ [])
json_bytes doc _ _ _ = none

abbrev value_bytes : StoredValue ℕ → Option (List ℕ)
value_bytes (string e) = string_bytes e.body e.metadata e.ttl
value_bytes (hash e) = hash_bytes e.body e.metadata e.ttl
value_bytes (geo e) = geo_bytes e.body e.metadata e.ttl
value_bytes (json e) = json_bytes e.body.doc e.body.id e.metadata e.ttl
value_bytes _ = none

abbrev pub plain : {A : Type 0} → A → Option TtlMetadata → Entry A
plain body ttl = record { body = body; metadata = none; ttl = ttl }

abbrev bytes_value : List ℕ → Option (StoredValue ℕ)
bytes_value (zero ∷ body) = some (string (plain body none))
bytes_value (suc zero ∷ ttl ∷ e ∷ c ∷ body) = some (
    string (
      plain body
        (some (record { ttl_seconds = some ttl; expires_at = some (pos e); created_at = pos c }))))
bytes_value (suc (suc (suc tag)) ∷ c ∷ lon ∷ lat ∷ []) =
    some (geo (plain ((c ∷ [], (lon, lat)) ∷ []) none))
bytes_value (suc (suc zero) ∷ c ∷ v) = some (hash (plain ((c ∷ [], v) ∷ []) none))
bytes_value _ = none

-- A document is a number, and its text has one letter.
abbrev number_of : Str → Option ℕ
number_of (n ∷ []) = some n
number_of _ = none

abbrev pub test : Backend ℕ Blobs Slot
test = record {
  value_to_bytes = value_bytes;
  value_from_bytes = bytes_value;
  add_bytes = add_blob;
  get_bytes = blob_at;
  cache_get = slot_get;
  cache_insert = λ key v c. some (key, v);
  cache_invalidate = slot_invalidate;
  parse_json = number_of;
  json_to_string = λ j. some (j ∷ []);
  json_id = λ j. none;
  score_leb = λ a b. true;
  f64_le = λ a b. true;
}

timed-read :
    (body b : List ℕ) (t : Option ℕ) (e : Option ℤ) (c : ℤ)
    → timed body t e c ≡ some b
    → bytes_value b
      ≡ some
          (string (plain body (some (record { ttl_seconds = t; expires_at = e; created_at = c }))))
timed-read body b (some t) (some (pos e)) (pos c) h = ground arith
timed-read body b (some t) (some (pos e)) (negsuc c) h = absurd (cc)
timed-read body b (some t) (some (negsuc e)) c h = absurd (cc)
timed-read body b (some t) none c h = absurd (cc)
timed-read body b none e c h = absurd (cc)

string-read :
    (body b : List ℕ) (m : Option SignatureMetadata) (t : Option TtlMetadata)
    → string_bytes body m t ≡ some b
    → bytes_value b ≡ some (string (record { body = body; metadata = m; ttl = t }))
string-read body b none none h = ground arith
string-read body b none (some t) h = timed-read body b t.ttl_seconds t.expires_at t.created_at h
string-read body b (some m) t h = absurd (cc)

hash-read :
    (body : List (Str × Str)) (b : List ℕ) (m : Option SignatureMetadata) (t : Option TtlMetadata)
    → hash_bytes body m t ≡ some b
    → bytes_value b ≡ some (hash (record { body = body; metadata = m; ttl = t }))
hash-read ((c ∷ [], v) ∷ []) b none none h = ground arith
hash-read _ b m t h = absurd (cc)

geo-read :
    (body : List (Str × (ℕ × ℕ))) (b : List ℕ) (m : Option SignatureMetadata)
    (t : Option TtlMetadata)
    → geo_bytes body m t ≡ some b
    → bytes_value b ≡ some (geo (record { body = body; metadata = m; ttl = t }))
geo-read ((c ∷ [], (lon, lat)) ∷ []) b none none h = ground arith
geo-read _ b m t h = absurd (cc)

json-read :
    (doc : ℕ) (b : List ℕ) (id : Option Str) (m : Option SignatureMetadata) (t : Option TtlMetadata)
    → json_bytes doc id m t ≡ some b
    → bytes_value b ≡ none
json-read doc b none none none h = ground arith
json-read doc b _ _ _ h = absurd (cc)

value-read :
    (v : StoredValue ℕ) (b : List ℕ)
    → type_of v ≢ StoreType.json
    → value_bytes v ≡ some b
    → bytes_value b ≡ some v
unfolding type_of
value-read (string e) b n h = string-read e.body b e.metadata e.ttl h
value-read (hash e) b n h = hash-read e.body b e.metadata e.ttl h
value-read (geo e) b n h = geo-read e.body b e.metadata e.ttl h
value-read (json e) b n h = absurd (n refl)
value-read _ b n h = absurd (cc)

json-lost :
    (v : StoredValue ℕ) (b : List ℕ)
    → type_of v ≡ StoreType.json
    → value_bytes v ≡ some b
    → bytes_value b ≡ none
unfolding type_of
json-lost (json e) b t h = json-read e.body.doc b e.body.id e.metadata e.ttl h
json-lost _ b t h = absurd (cc)

no-documents :
    (v : StoredValue ℕ) (b : List ℕ) → bytes_value b ≡ some v → type_of v ≢ StoreType.json
unfolding type_of
no-documents (json e) (zero ∷ body) h = absurd (cc)
no-documents (json e) (suc zero ∷ a ∷ b ∷ c ∷ body) h = absurd (cc)
no-documents (json e) (suc (suc (suc tag)) ∷ c ∷ lon ∷ lat ∷ []) h = absurd (cc)
no-documents (json e) (suc (suc zero) ∷ c ∷ v) h = absurd (cc)
no-documents (json e) _ h = absurd (cc)
no-documents _ b h = λ t. absurd (cc)

slot-last :
    (n : ℕ) (k j : Str) (v w : StoredValue ℕ) (c : Slot)
    → slot_get n (some (k, v)) j ≡ some w
    → ((k ≡ j) × (v ≡ w)) ⊎ ((k ≢ j) × (m : ℕ) × (slot_get m c j ≡ some w))
slot-last n k j v w c h = inl (ground (arith, str_eq_iff k j), ground arith)

slot-invalidated :
    (n : ℕ) (k j : Str) (w : StoredValue ℕ) (c : Slot)
    → slot_get n (slot_invalidate k c) j ≡ some w
    → (k ≢ j) × (m : ℕ) × (slot_get m c j ≡ some w)
slot-invalidated n k j w none h = absurd (cc)
slot-invalidated n k j w (some (i, v)) h = elim (Bool-cases (str_eq i k)) [
  | inl same ↦ absurd (ground arith)
  | inr other ↦ (ground (arith, str_eq_iff i k, str_eq_iff i j), n, ground arith)
]

pub test-IsReliable : IsReliable test
test-IsReliable = record {
  codec = value-read;
  no_documents = no-documents;
  json_lost = json-lost;
  blob = λ fs fs' b h e. ground arith;
  kept = λ fs fs' b c h g e f. ground arith;
  last_inserted = slot-last;
  invalidated = slot-invalidated;
}
