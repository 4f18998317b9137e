-- ===== src/Storage/Geo.antt =====
-- src/storage.rs: distances between locations, and the queries by radius.
use cyberfly_rust_node.Common.{
  ℕ, Bool, Option, none, some, List, [], if◌then◌else◌, filter, map, unwrap_or,
}
use cyberfly_rust_node.Common.Float.{Float}
use cyberfly_rust_node.Common.Text.{Str, codes, str_eq}
use cyberfly_rust_node.Common.Assoc.{lookup, str_key}
use cyberfly_rust_node.Common.Result.{ok, err}
use cyberfly_rust_node.Sync.Operation.{F64}
use cyberfly_rust_node.Storage.Core.{Backend, BlobStorage, Outcome}
use cyberfly_rust_node.Storage.Typed.{as_geo, reading}

-- The functions of f64 on angles; `squared` is `powi(2)`.
pub record Angles (F : Type 0) : Type 0 where
  pub to_radians : F → F
  pub sin : F → F
  pub cos : F → F
  pub squared : F → F
  pub sqrt : F → F
  pub atan2 : F → F → F

module _ {F : Type 0} (fl : Float F) (g : Angles F) where
  -- In kilometres.
  unfoldable pub haversine_distance : (lat1 lon1 lat2 lon2 : F) → F
  haversine_distance lat1 lon1 lat2 lon2 =
      let lat1_rad = g.to_radians lat1 in
      let lat2_rad = g.to_radians lat2 in
      let delta_lat = g.to_radians (fl.minus lat2 lat1) in
      let delta_lon = g.to_radians (fl.minus lon2 lon1) in
      let two = fl.decimal 0 2 in
      let a = fl.plus (g.squared (g.sin (fl.divide delta_lat two))) (
        fl.times (fl.times (g.cos lat1_rad) (g.cos lat2_rad))
          (g.squared (g.sin (fl.divide delta_lon two)))) in
      let c = fl.times two (g.atan2 (g.sqrt a) (g.sqrt (fl.minus (fl.decimal 0 1) a))) in
      fl.times (fl.decimal 0 6371) c

  -- The radius in kilometres, also of an unknown unit.
  unfoldable pub radius_km : F → Str → F
  radius_km radius unit =
      if str_eq unit (codes "m")
      then fl.divide radius (fl.decimal 0 1000)
      else if str_eq unit (codes "km")
      then radius
      else if str_eq unit (codes "mi")
      then fl.times radius (fl.decimal 5 160934)
      else if str_eq unit (codes "ft")
      then fl.times radius (fl.decimal 7 3048)
      else radius

  -- A distance in the unit; an unknown one counts as metres.
  unfoldable pub distance_in : Str → F → F
  distance_in unit km =
      if str_eq unit (codes "m")
      then fl.times km (fl.decimal 0 1000)
      else if str_eq unit (codes "km")
      then km
      else if str_eq unit (codes "mi")
      then fl.divide km (fl.decimal 5 160934)
      else if str_eq unit (codes "ft")
      then fl.divide km (fl.decimal 7 3048)
      else fl.times km (fl.decimal 0 1000)

  unfoldable pub is_near : (longitude latitude radius : F) → Str × (F × F) → Bool
  is_near longitude latitude radius (member, (lon, lat)) =
      fl.leb (haversine_distance latitude longitude lat lon) radius

abbrev pub member_name : {F : Type 0} → Str × (F × F) → Str
member_name (member, _) = member

abbrev pub with_coords : {F : Type 0} → Str × (F × F) → Str × F × F
with_coords (member, (lon, lat)) = (member, lon, lat)

module _ {J Fs Cache : Type 0} (x : Backend J Fs Cache) (fl : Float F64) (g : Angles F64) (now : ℕ)
    (key : Str) where
  unfoldable pub georadius :
      (longitude latitude radius : F64) → Str → BlobStorage Fs Cache → Outcome x (List Str)
  georadius longitude latitude radius unit s =
      reading x as_geo
        (λ locations. ok (
          map member_name
            (filter (is_near fl g longitude latitude (radius_km fl g radius unit)) locations)))
        [] now key s

  unfoldable pub filter_geo_by_radius :
      (longitude latitude max_radius : F64) → Str → BlobStorage Fs Cache → Outcome x (List Str)
  filter_geo_by_radius longitude latitude max_radius unit s =
      georadius longitude latitude max_radius unit s

  unfoldable pub georadius_with_coords :
      (longitude latitude radius : F64)
      → Str
      → BlobStorage Fs Cache
      → Outcome x (List (Str × F64 × F64))
  georadius_with_coords longitude latitude radius unit s =
      reading x as_geo
        (λ locations. ok (
          map with_coords
            (filter (is_near fl g longitude latitude (radius_km fl g radius unit)) locations)))
        [] now key s

  -- The location of the member first, in a read of its own.
  abbrev located : Str → BlobStorage Fs Cache → Outcome x (Option (F64 × F64))
  located member s = reading x as_geo (λ locations. ok (lookup member locations)) none now key s

  unfoldable pub georadiusbymember :
      Str → (radius : F64) → Str → BlobStorage Fs Cache → Outcome x (List Str)
  georadiusbymember member radius unit s =
      let (r, s') = located member s in
      elim r [
        | err e ↦ (err e, s')
        | ok o ↦ elim o [ none ↦ (ok [], s') | some (lon, lat) ↦ georadius lon lat radius unit s' ]
      ]

  unfoldable pub georadiusbymember_with_coords :
      Str → (radius : F64) → Str → BlobStorage Fs Cache → Outcome x (List (Str × F64 × F64))
  georadiusbymember_with_coords member radius unit s =
      let (r, s') = located member s in
      elim r [
        | err e ↦ (err e, s')
        | ok o ↦ elim o [
          | none ↦ (ok [], s')
          | some (lon, lat) ↦ georadius_with_coords lon lat radius unit s'
        ]
      ]

  abbrev between : Option Str → Option (F64 × F64) → Option (F64 × F64) → Option F64
  between unit (some (lon1, lat1)) (some (lon2, lat2)) =
      some (
        distance_in fl g (unwrap_or unit (codes "m")) (haversine_distance fl g lat1 lon1 lat2 lon2))
  between unit none _ = none
  between unit (some p) none = none

  unfoldable pub geodist : Str → Str → Option Str → BlobStorage Fs Cache → Outcome x (Option F64)
  geodist member1 member2 unit s =
      reading x as_geo
        (λ locations. ok (between unit (lookup member1 locations) (lookup member2 locations))) none
        now key s
