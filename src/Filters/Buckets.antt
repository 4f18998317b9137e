-- ===== src/Filters/Buckets.antt =====
-- src/filters.rs, `aggregate_points`: each bucket has the aggregate of its own points.
use cyberfly_rust_node.Common.{
  ℕ, suc, ◌≡◌, refl, sym, ◌∙◌, ap, inl, inr, true, false, Option, none, some, List, [], ◌∷◌, ◌++◌,
  In, map, arith, if◌then◌else◌, unwrap_or,
}
use cyberfly_rust_node.Common.Int.{ℤ, pos, eqb_ℤ, eqb_ℤ_iff}
use cyberfly_rust_node.Common.Float.{Float}
use cyberfly_rust_node.Common.Lists.{sort_by}
use cyberfly_rust_node.Common.Sort.{IsSorted, sort_by-IsSorted, sort_by-In, In-sort_by, map-In}
use cyberfly_rust_node.Common.Assoc.{lookup, lookup-insert, int_key}
use cyberfly_rust_node.Common.Unique.{IsUnique, insert-IsUnique, lookup-In, In-lookup}
use cyberfly_rust_node.Filters.Rows.{towards_zero, bucket_of_lem, rows-IsUnique, sort_by-IsUnique}
use cyberfly_rust_node.Filters.Series.{
  Aggregation, AggregationType, push_point, grouped, aggregate_values, row_of, not_later,
  aggregate_points,
}

append_assoc : {A : Type 0} (xs ys zs : List A) → (xs ++ ys) ++ zs ≡ xs ++ (ys ++ zs)
append_assoc [] ys zs = refl
append_assoc (x ∷ xs) ys zs = ap (λ l. x ∷ l) (append_assoc xs ys zs)

In-map : {A B : Type 0} (f : A → B) (a : A) (xs : List A) → In a xs → In (f a) (map f xs)
In-map f a [] i = absurd i
In-map f a (x ∷ xs) (inl e) = inl (ap f e)
In-map f a (x ∷ xs) (inr i) = inr (In-map f a xs i)

module _ {F : Type 0} (fl : Float F) where
  -- The values of the points whose bucket of the width starts at `b`, in their order.
  abbrev pub values_at : ℕ → ℤ → List (ℤ × F) → List F
  values_at width b [] = []
  values_at width b ((ts, val) ∷ points) =
      let rest = values_at width b points in
      if eqb_ℤ (towards_zero width ts) b then val ∷ rest else rest

  abbrev merged : Option (List F) → List F → Option (List F)
  merged o [] = o
  merged o (v ∷ values) = some (unwrap_or o [] ++ v ∷ values)

  merged_lem :
      (u : List F) (v : F) (values : List F)
      → merged (some (u ++ v ∷ [])) values ≡ some (u ++ v ∷ values)
  merged_lem u v [] = refl
  merged_lem u v (w ∷ values) = ap (λ l. some l) (append_assoc u (v ∷ []) (w ∷ values))

  lookup-push_point :
      (c b : ℤ) (val : F) (m : List (ℤ × List F))
      → lookup b (push_point c val m)
        ≡ (if eqb_ℤ c b then some (unwrap_or (lookup b m) [] ++ val ∷ []) else lookup b m)
  lookup-push_point c b val m =
      ground (arith, eqb_ℤ_iff c b, lookup-insert c b (unwrap_or (lookup c m) [] ++ val ∷ []) m)

  grouped_lem :
      (d : ℕ) (points : List (ℤ × F)) (m : List (ℤ × List F))
      → IsUnique m
      → (r : List (ℤ × List F)) × (grouped (pos (suc d)) points m ≡ some r)
        × IsUnique r
        × ((b : ℤ) → lookup b r ≡ merged (lookup b m) (values_at (suc d) b points))
  unfolding grouped
  grouped_lem d [] m u = (m, refl, u, λ b. refl)
  grouped_lem d ((ts, val) ∷ points) m u =
      let c = towards_zero (suc d) ts in
      let e = bucket_of_lem d ts in
      let (r, done, u', at) = grouped_lem d points (push_point c val m) (insert-IsUnique c _ m u) in
      (
        r,
        ground arith,
        u',
        λ b. ground (
          arith,
          at b,
          lookup-push_point c b val m,
          merged_lem (unwrap_or (lookup b m) []) val (values_at (suc d) b points),
        ),
      )

  from_merged :
      (values vs : List F)
      → merged none values ≡ some vs
      → (v : F) × (rest : List F) × (values ≡ v ∷ rest) × (vs ≡ v ∷ rest)
  from_merged [] vs h = absurd (cc)
  from_merged (v ∷ rest) vs h = (v, rest, refl, ground arith)

  row_values :
      (t : AggregationType) (b : ℤ) (a : F) (r : List (ℤ × List F)) (look : (ℤ → List F))
      → IsUnique r
      → ((q : ℤ) → lookup q r ≡ merged none (look q))
      → In (b, a) (map (row_of fl t) r)
      → (v : F) × (values : List F) × (look b ≡ v ∷ values)
        × (a ≡ aggregate_values fl t (v ∷ values))
  row_values t b a r look u at i =
      let (row, e, j) = map-In (row_of fl t) (b, a) r i in
      let (v, values, f, g) =
        from_merged (look row.0) row.1 (sym (at row.0) ∙ In-lookup row.0 row.1 r u j) in
      let same : b ≡ row.0 = ap (λ p. p.0) e in
      (v, values, ap look same ∙ f, ap (λ p. p.1) e ∙ ap (aggregate_values fl t) g)

  later_total : (x y : ℤ × F) → not_later fl x y ≡ false → not_later fl y x ≡ true
  later_total (a, v) (b, w) h = ground arith

  later_trans :
      (x y z : ℤ × F) → not_later fl x y ≡ true → not_later fl y z ≡ true → not_later fl x z ≡ true
  later_trans (a, v) (b, w) (c, u) h k = ground arith

  -- With a bucket of positive width the aggregation of any points gives rows in the order of their
  -- times, at most one for each time. A point falls on the multiple of the width that is next to its
  -- time towards zero: every multiple on which points fall has the row with the aggregate of their
  -- values, in their order, and there are no other rows.
  pub aggregate_points_lem :
      (agg : Aggregation) (d : ℕ) (points : List (ℤ × F))
      → agg.time_bucket ≡ pos (suc d)
      → (rows : List (ℤ × F)) × (aggregate_points fl agg points ≡ some rows)
        × IsSorted (not_later fl) rows
        × IsUnique rows
        × ((b : ℤ) (a : F)
            → In (b, a) rows
            → (v : F) × (values : List F) × (values_at (suc d) b points ≡ v ∷ values)
              × (a ≡ aggregate_values fl agg.agg_type (v ∷ values)))
        × ((b : ℤ) (v : F) (values : List F)
            → values_at (suc d) b points ≡ v ∷ values
            → In (b, aggregate_values fl agg.agg_type (v ∷ values)) rows)
  unfolding aggregate_points IsUnique lookup
  aggregate_points_lem agg d points wide =
      let (r, done, u, at) = grouped_lem d points [] tt in
      (
        sort_by (not_later fl) (map (row_of fl agg.agg_type) r),
        ground arith,
        sort_by-IsSorted (not_later fl) later_total later_trans _,
        sort_by-IsUnique (not_later fl) _ (rows-IsUnique fl agg.agg_type r u),
        λ b a i.
            row_values agg.agg_type b a r (λ q. values_at (suc d) q points) u
              (λ q. ground (arith, at q)) (sort_by-In _ (b, a) _ i),
        λ b v values e. In-sort_by _ _ _ (
            In-map (row_of fl agg.agg_type) (b, v ∷ values) r
              (lookup-In b (v ∷ values) r (ground (arith, at b)))),
      )
