-- ===== src/Filters/Series.antt =====
-- src/filters.rs, `TimeSeriesFilter`: points of a time series, filtered and in buckets.
use cyberfly_rust_node.Common.{
  ℕ, ◌+◌, ◌-◌, ◌*◌, ◌^◌, Bool, true, false, not, ◌&&◌, ◌||◌, Option, none, some, List, [], ◌∷◌,
  ◌++◌, ◌==◌, if◌then◌else◌, filter, map, take, length, unwrap_or,
}
use cyberfly_rust_node.Common.Int.{ℤ, pos, negsuc, quot_ℤ, eqb_ℤ, ltb_ℤ}
use cyberfly_rust_node.Common.Float.{Float}
use cyberfly_rust_node.Common.Lists.{sort_by}
use cyberfly_rust_node.Common.Text.{Str}
use cyberfly_rust_node.Common.Assoc.{lookup, insert, int_key}
use cyberfly_rust_node.Common.Result.{ok, err}
use cyberfly_rust_node.Sync.Operation.{F64}
use cyberfly_rust_node.Storage.Core.{Backend, BlobStorage, Outcome}
use cyberfly_rust_node.Storage.Series.{ts_range}

pub data AggregationType : Type 0 where
  avg sum min max count first last : AggregationType

pub record Aggregation : Type 0 where
  pub agg_type : AggregationType
  pub time_bucket : ℤ

pub record TimeSeriesOptions (F : Type 0) : Type 0 where
  pub aggregation : Option Aggregation
  pub count : Option ℕ
  pub filter_by_ts : Option (List ℤ)
  pub min_value : Option F
  pub max_value : Option F

-- -n, and n * d.
abbrev pub neg_ℤ : ℕ → ℤ
neg_ℤ n = if n == 0 then pos 0 else negsuc (n - 1)

abbrev times_ℤ : ℤ → ℕ → ℤ
times_ℤ (pos n) d = pos (n * d)
times_ℤ (negsuc n) d = neg_ℤ ((n + 1) * d)

-- (ts / time_bucket) * time_bucket. The sign of the divisor cancels. `none` is the panic of a division
-- by zero, and of the least i64 by -1.
unfoldable pub bucket_of : ℤ → ℤ → Option ℤ
bucket_of ts (pos d) = if d == 0 then none else some (times_ℤ (quot_ℤ ts d) d)
bucket_of ts (negsuc n) =
    if n == 0 && eqb_ℤ ts (negsuc (2 ^ 63 - 1))
    then none
    else some (times_ℤ (quot_ℤ ts (n + 1)) (n + 1))

abbrev pub push_point : {F : Type 0} → ℤ → F → List (ℤ × List F) → List (ℤ × List F)
push_point bucket val m = insert bucket (unwrap_or (lookup bucket m) [] ++ val ∷ []) m

-- The loop that groups the points, from the first to the last.
unfoldable pub grouped :
    {F : Type 0} → ℤ → List (ℤ × F) → List (ℤ × List F) → Option (List (ℤ × List F))
grouped time_bucket [] m = some m
grouped time_bucket ((ts, val) ∷ points) m = elim (bucket_of ts time_bucket) [
  | none ↦ none
  | some bucket ↦ grouped time_bucket points (push_point bucket val m)
]

abbrev first_of : {F : Type 0} → F → List F → F
first_of d [] = d
first_of d (a ∷ l) = a

abbrev last_of : {F : Type 0} → F → List F → F
last_of d [] = d
last_of d (a ∷ l) = last_of a l

abbrev fold : {F : Type 0} → (F → F → F) → F → List F → F
fold f a [] = a
fold f a (b ∷ l) = fold f (f a b) l

module _ {F : Type 0} (fl : Float F) where
  unfoldable pub aggregate_values : AggregationType → List F → F
  aggregate_values avg values = fl.divide (fl.sum values) (fl.of_u64 (length values))
  aggregate_values sum values = fl.sum values
  aggregate_values min values = fold fl.min fl.infinity values
  aggregate_values max values = fold fl.max fl.neg_infinity values
  aggregate_values count values = fl.of_u64 (length values)
  aggregate_values first values = first_of (fl.decimal 0 0) values
  aggregate_values last values = last_of (fl.decimal 0 0) values

  abbrev pub row_of : AggregationType → ℤ × List F → ℤ × F
  row_of t (ts, values) = (ts, aggregate_values t values)

  abbrev pub not_later : ℤ × F → ℤ × F → Bool
  not_later (a, x) (b, y) = not (ltb_ℤ b a)

  unfoldable pub aggregate_points : Aggregation → List (ℤ × F) → Option (List (ℤ × F))
  aggregate_points agg points = elim (grouped agg.time_bucket points []) [
    | none ↦ none
    | some buckets ↦ some (sort_by not_later (map (row_of agg.agg_type) buckets))
  ]

  abbrev at_least : Option F → ℤ × F → Bool
  at_least none p = true
  at_least (some lo) (ts, val) = fl.leb lo val

  abbrev at_most : Option F → ℤ × F → Bool
  at_most none p = true
  at_most (some hi) (ts, val) = fl.leb val hi

  abbrev is_among : ℤ → List ℤ → Bool
  is_among ts [] = false
  is_among ts (t ∷ l) = eqb_ℤ t ts || is_among ts l

  abbrev is_listed : Option (List ℤ) → ℤ × F → Bool
  is_listed none p = true
  is_listed (some l) (ts, val) = is_among ts l

  -- `retain` for each filter that is there.
  abbrev pub retained : TimeSeriesOptions F → List (ℤ × F) → List (ℤ × F)
  retained o points =
      filter (is_listed o.filter_by_ts)
        (filter (at_most o.max_value) (filter (at_least o.min_value) points))

  abbrev truncated : Option ℕ → List (ℤ × F) → List (ℤ × F)
  truncated none points = points
  truncated (some n) points = take n points

  -- What `query` does with the points of the range; `none` is a panic.
  unfoldable pub refined : TimeSeriesOptions F → List (ℤ × F) → Option (List (ℤ × F))
  refined o points =
      let kept = truncated o.count (retained o points) in
      elim o.aggregation [ none ↦ some kept | some agg ↦ aggregate_points agg kept ]

-- The query, whose answer is `none` for a panic in the aggregation.
unfoldable pub query :
    {J Fs Cache : Type 0} (x : Backend J Fs Cache)
    → Float F64
    → ℕ
    → Str
    → ℤ
    → ℤ
    → TimeSeriesOptions F64
    → BlobStorage Fs Cache
    → Outcome x (Option (List (ℤ × F64)))
query x fl now key from_timestamp to_timestamp options s =
    let (r, s') = ts_range x now key from_timestamp to_timestamp s in
    elim r [ err e ↦ (err e, s') | ok points ↦ (ok (refined fl options points), s') ]
