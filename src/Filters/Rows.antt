-- ===== src/Filters/Rows.antt =====
-- src/filters.rs, `aggregate_points`: the rows of the buckets, each once, after sorting.
use cyberfly_rust_node.Common.{
  ℕ, suc, ◌+◌, ◌-◌, ◌*◌, ◌/◌, ◌%◌, ◌≡◌, ◌≢◌, refl, ap, ◌==◌, Bool, none, some, List, [], ◌∷◌, map,
  arith, Bool-cases, inl, inr,
}
use cyberfly_rust_node.Common.Int.{ℤ, pos, negsuc}
use cyberfly_rust_node.Common.Float.{Float}
use cyberfly_rust_node.Common.Lists.{insert_sorted, sort_by}
use cyberfly_rust_node.Common.Assoc.{Eq, lookup, int_key}
use cyberfly_rust_node.Common.Unique.{IsUnique}
use cyberfly_rust_node.Filters.Series.{AggregationType, row_of, bucket_of, neg_ℤ}

module _ {K V : Type 0} ⦃e : Eq K⦄ (le : K × V → K × V → Bool) where
  lookup-insert_sorted :
      (k c : K) (a : V) (m : List (K × V))
      → lookup k ((c, a) ∷ m) ≡ none
      → lookup k (insert_sorted le (c, a) m) ≡ none
  unfolding lookup
  lookup-insert_sorted k c a [] h = h
  lookup-insert_sorted k c a ((j, w) ∷ m) h = ground (arith, lookup-insert_sorted k c a m)

  insert_sorted-IsUnique :
      (c : K) (a : V) (m : List (K × V))
      → lookup c m ≡ none
      → IsUnique m
      → IsUnique (insert_sorted le (c, a) m)
  unfolding lookup IsUnique
  insert_sorted-IsUnique c a [] h u = (refl, tt)
  insert_sorted-IsUnique c a ((j, w) ∷ m) h (absent, u) = ground (
    arith,
    e.beq_iff j c,
    e.beq_iff c j,
    lookup-insert_sorted j c a m,
    insert_sorted-IsUnique c a m,
  )

  lookup-sort_by : (k : K) (m : List (K × V)) → lookup k m ≡ none → lookup k (sort_by le m) ≡ none
  unfolding lookup sort_by
  lookup-sort_by k [] h = refl
  lookup-sort_by k ((c, a) ∷ m) h =
      lookup-insert_sorted k c a (sort_by le m) (ground (arith, lookup-sort_by k m))

  pub sort_by-IsUnique : (m : List (K × V)) → IsUnique m → IsUnique (sort_by le m)
  unfolding IsUnique sort_by
  sort_by-IsUnique [] u = tt
  sort_by-IsUnique ((c, a) ∷ m) (absent, u) =
      insert_sorted-IsUnique c a (sort_by le m) (lookup-sort_by c m absent) (sort_by-IsUnique m u)

module _ {F : Type 0} (fl : Float F) (t : AggregationType) where
  lookup-rows :
      (k : ℤ) (m : List (ℤ × List F)) → lookup k m ≡ none → lookup k (map (row_of fl t) m) ≡ none
  unfolding lookup
  lookup-rows k [] h = refl
  lookup-rows k ((j, w) ∷ m) h = ground (arith, lookup-rows k m)

  pub rows-IsUnique : (m : List (ℤ × List F)) → IsUnique m → IsUnique (map (row_of fl t) m)
  unfolding IsUnique
  rows-IsUnique [] u = tt
  rows-IsUnique ((j, w) ∷ m) (absent, u) = (lookup-rows j m absent, rows-IsUnique m u)

-- The multiple of the width that is next to the time towards zero.
abbrev pub towards_zero : ℕ → ℤ → ℤ
towards_zero width (pos n) = pos (n - n % width)
towards_zero width (negsuc n) = neg_ℤ (suc n - suc n % width)

whole_part : (n d : ℕ) → n / suc d * suc d ≡ n - n % suc d
whole_part n d = grind arith

times_pred : (q d : ℕ) → q ≢ 0 → (q - 1 + 1) * d ≡ q * d
times_pred q d h = ap (λ k. k * d) (omega arith)

pub bucket_of_lem : (d : ℕ) (ts : ℤ) → bucket_of ts (pos (suc d)) ≡ some (towards_zero (suc d) ts)
unfolding bucket_of
bucket_of_lem d (pos n) = ground (arith, whole_part n d)
bucket_of_lem d (negsuc n) = elim (Bool-cases (suc n / suc d == 0)) [
  | inl small ↦ ground (arith, whole_part (suc n) d)
  | inr large ↦ ground (arith, whole_part (suc n) d, times_pred (suc n / suc d) (suc d))
]
