-- ===== src/Filters/Tests.antt =====
-- A storage with documents that are numbers, and points of a time series, for src/filters.rs.
use cyberfly_rust_node.Common.{
  ℕ, ◌≡◌, refl, Bool, true, Option, none, some, List, [], ◌∷◌, ◌==◌, In,
}
use cyberfly_rust_node.Common.Int.{ℤ, pos, negsuc}
use cyberfly_rust_node.Common.Sort.{IsSorted}
use cyberfly_rust_node.Common.Unique.{IsUnique}
use cyberfly_rust_node.Common.Whole.{whole}
use cyberfly_rust_node.Common.Text.{Str, codes}
use cyberfly_rust_node.Common.Assoc.{int_key}
use cyberfly_rust_node.Storage.Value.{StoreType, StoredValue, json}
use cyberfly_rust_node.Storage.Core.{BlobStorage, store_value}
use cyberfly_rust_node.Storage.Tests.{empty}
use cyberfly_rust_node.Storage.Crates.{Blobs, Slot, test, plain}
use cyberfly_rust_node.Filters.Json.{JsonView, gte, desc, FilterOptions, JsonFilterConditions}
use cyberfly_rust_node.Filters.Series.{
  Aggregation, AggregationType, aggregate_values, aggregate_points, not_later,
}
use cyberfly_rust_node.Filters.Buckets.{values_at, aggregate_points_lem}

-- A number's only field is the number itself.
abbrev numbers : JsonView ℕ ℕ
numbers = record {
  number = λ j. some j;
  text = λ j. none;
  boolean = λ j. none;
  get = λ j field. some j;
  same = λ i j. i == j;
  set_key = λ key j. j;
}

abbrev document : ℕ → StoredValue ℕ
document n = json (plain (record { doc = n; id = none }) none)

abbrev one : BlobStorage Blobs Slot
one = (store_value test (codes "a") (document 4) StoreType.json empty).1

abbrev two : BlobStorage Blobs Slot
two = (store_value test (codes "b") (document 9) StoreType.json one).1

abbrev any_key : Str → Option (Str → Bool)
any_key pattern = some (λ key. true)

abbrev options : FilterOptions
options = record { limit = some 2; offset = none; sort_field = some (codes "n"); sort_order = desc }

abbrev conditions : JsonFilterConditions ℕ
conditions = (codes "n", gte 4) ∷ []

-- Sums over 10 units of time.
abbrev sums : Aggregation
sums = record { agg_type = AggregationType.sum; time_bucket = pos 10 }

abbrev points : List (ℤ × ℕ)
points = (pos 12, 3) ∷ (pos 3, 1) ∷ (negsuc 3, 5) ∷ (pos 19, 4) ∷ []

aggregate_points_lem_example :
    (rows : List (ℤ × ℕ)) × (aggregate_points whole sums points ≡ some rows)
    × IsSorted (not_later whole) rows
    × IsUnique rows
    × ((b : ℤ) (a : ℕ)
        → In (b, a) rows
        → (v : ℕ) × (values : List ℕ) × (values_at whole 10 b points ≡ v ∷ values)
          × (a ≡ aggregate_values whole sums.agg_type (v ∷ values)))
    × ((b : ℤ) (v : ℕ) (values : List ℕ)
        → values_at whole 10 b points ≡ v ∷ values
        → In (b, aggregate_values whole sums.agg_type (v ∷ values)) rows)
aggregate_points_lem_example = aggregate_points_lem whole sums 9 points refl
