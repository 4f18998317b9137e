-- ===== src/Storage/Near.antt =====
-- src/storage.rs: how the queries by radius agree on a sound storage.
use cyberfly_rust_node.Common.{
  ℕ, ◌≡◌, refl, sym, subst, ◌∙◌, ap, inl, inr, Bool, Option, none, some, List, [], ◌∷◌, filter, map,
  arith, Option-cases,
}
use cyberfly_rust_node.Common.Float.{Float}
use cyberfly_rust_node.Common.Text.{Str, str_eq_refl}
use cyberfly_rust_node.Common.Assoc.{str_key}
use cyberfly_rust_node.Common.Result.{Result, ok, err}
use cyberfly_rust_node.Sync.Operation.{F64}
use cyberfly_rust_node.Storage.Value.{StoredValue, Entry}
use cyberfly_rust_node.Storage.Core.{StorageError, Backend, BlobStorage, Outcome}
use cyberfly_rust_node.Storage.Sound.{IsReliable, view, live, IsSound}
use cyberfly_rust_node.Storage.Read.{get_value_lem}
use cyberfly_rust_node.Storage.Expiry.{live-live}
use cyberfly_rust_node.Storage.Typed.{as_geo, read_entry, reading}
use cyberfly_rust_node.Storage.Series.{geopos}
use cyberfly_rust_node.Storage.Geo.{
  Angles, is_near, radius_km, member_name, with_coords, georadius, georadius_with_coords,
  georadiusbymember, georadiusbymember_with_coords,
}

abbrev pub row_name : Str × F64 × F64 → Str
row_name (member, lon, lat) = member

-- The members of the rows.
abbrev pub names : Result StorageError (List (Str × F64 × F64)) → Result StorageError (List Str)
names (ok rows) = ok (map row_name rows)
names (err e) = err e

module _ {J Fs Cache : Type 0} (x : Backend J Fs Cache) (law : IsReliable x) (now : ℕ)
    (key : Str) where
  -- A typed read answers from the value that has not expired, and leaves what a second read answers.
  reading_lem :
      {A B : Type 0} (cast : StoredValue J → Option (Entry A)) (f : A → Result StorageError B)
      (d : B) (s : BlobStorage Fs Cache)
      → IsSound x s
      → ((reading x cast f d now key s).0 ≡ read_entry cast f d (live x now (view x s key)))
        × IsSound x (reading x cast f d now key s).1
        × (live x now (view x (reading x cast f d now key s).1 key) ≡ live x now (view x s key))
  unfolding reading
  reading_lem cast f d s i =
      let (answer, sound, after) = get_value_lem x law now key s i in
      (
        ground arith,
        subst (IsSound x) (sym (ground arith)) sound,
        ground (arith, after key, str_eq_refl key, live-live x law now (view x s key)),
      )

  read_twice :
      {A B C : Type 0} (cast : StoredValue J → Option (Entry A)) (f : A → Result StorageError B)
      (d : B) (h : A → Result StorageError C) (c : C) (s : BlobStorage Fs Cache)
      → IsSound x s
      → (reading x cast f d now key (reading x cast h c now key s).1).0
        ≡ (reading x cast f d now key s).0
  read_twice cast f d h c s i =
      let (first, sound, same) = reading_lem cast h c s i in
      (reading_lem cast f d (reading x cast h c now key s).1 sound).0
      ∙ ap (read_entry cast f d) same
      ∙ sym (reading_lem cast f d s i).0

  -- A query around a place that was read before.
  by_place :
      {R : Type 0} (query : F64 → F64 → BlobStorage Fs Cache → Outcome x R) (empty : R)
      (r : Result StorageError (Option (F64 × F64))) (s s' : BlobStorage Fs Cache)
      → ((lon lat : F64) → (query lon lat s').0 ≡ (query lon lat s).0)
      → (elim r as (λ _. Outcome x R) [
        | err e ↦ (err e, s')
        | ok o ↦ elim o as (λ _. Outcome x R) [
          | none ↦ (ok empty, s')
          | some (lon, lat) ↦ query lon lat s'
        ]
      ]).0
        ≡ (elim r [
          | err e ↦ err e
          | ok o ↦ elim o [ none ↦ ok empty | some (lon, lat) ↦ (query lon lat s).0 ]
        ])
  by_place query empty (err e) s s' h = refl
  by_place query empty (ok none) s s' h = refl
  by_place query empty (ok (some (lon, lat))) s s' h = h lon lat

  module _ (fl : Float F64) (g : Angles F64) where
    map_kept :
        (near : Str × (F64 × F64) → Bool) (l : List (Str × (F64 × F64)))
        → map member_name (filter near l) ≡ map row_name (map with_coords (filter near l))
    map_kept near [] = refl
    map_kept near ((m, (a, b)) ∷ l) = ground (arith, map_kept near l)

    names_lem :
        (near : Str × (F64 × F64) → Bool) (o : Option (StoredValue J))
        → read_entry as_geo (λ l. ok (map member_name (filter near l))) [] o
          ≡ names (read_entry as_geo (λ l. ok (map with_coords (filter near l))) [] o)
    names_lem near none = refl
    names_lem near (some v) = elim (Option-cases (as_geo v)) [
      | inl other ↦ ground arith
      | inr (e, its) ↦ ground (arith, map_kept near e.body)
    ]

    -- With reliable crates, on a sound storage, which holds no JSON documents: `georadius` answers the
    -- members of the value, if that has not expired, whose haversine distance is at most the radius in kilometres; the form with coordinates answers
    -- the same members; and the queries by member answer what the queries around the location that
    -- `geopos` gives answer, and nothing where it gives none.
    pub georadius_lem :
        (longitude latitude radius : F64) (unit member : Str) (s : BlobStorage Fs Cache)
        → IsSound x s
        → let near = is_near fl g longitude latitude (radius_km fl g radius unit) in
          ((georadius x fl g now key longitude latitude radius unit s).0
            ≡ read_entry as_geo
                (λ l. ok (map member_name (filter near l)))
                []
                (live x now (view x s key)))
          × ((georadius x fl g now key longitude latitude radius unit s).0
              ≡ names (georadius_with_coords x fl g now key longitude latitude radius unit s).0)
          × ((georadiusbymember x fl g now key member radius unit s).0
              ≡ (elim (geopos x now key member s).0 [
                | err e ↦ err e
                | ok o ↦ elim o [
                  | none ↦ ok []
                  | some (lon, lat) ↦ (georadius x fl g now key lon lat radius unit s).0
                ]
              ]))
          × ((georadiusbymember_with_coords x fl g now key member radius unit s).0
              ≡ (elim (geopos x now key member s).0 [
                | err e ↦ err e
                | ok o ↦ elim o [
                  | none ↦ ok []
                  | some (lon, lat) ↦ (georadius_with_coords x fl g now key lon lat radius unit s).0
                ]
              ]))
    unfolding georadius georadius_with_coords georadiusbymember georadiusbymember_with_coords geopos
    georadius_lem longitude latitude radius unit member s i =
        let near = is_near fl g longitude latitude (radius_km fl g radius unit) in
        (
          (reading_lem as_geo _ [] s i).0,
          (reading_lem as_geo _ [] s i).0
              ∙ names_lem near (live x now (view x s key))
              ∙ sym (ap names (reading_lem as_geo _ [] s i).0),
          by_place (λ lon lat t. georadius x fl g now key lon lat radius unit t) [] _ s _
              (λ lon lat. read_twice as_geo _ [] _ none s i),
          by_place (λ lon lat t. georadius_with_coords x fl g now key lon lat radius unit t) [] _ s
              _ (λ lon lat. read_twice as_geo _ [] _ none s i),
        )
