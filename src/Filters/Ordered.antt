-- ===== src/Filters/Ordered.antt =====
-- src/filters.rs, the sort of `filter_across_keys`: when its order is one.
use cyberfly_rust_node.Common.{
  ◌≡◌, refl, inl, inr, Bool, true, false, not, some, List, [], ◌∷◌, In, Bool-cases,
}
use cyberfly_rust_node.Common.Float.{Float}
use cyberfly_rust_node.Common.Lists.{insert_sorted, sort_by}
use cyberfly_rust_node.Common.Sort.{IsSorted, insert_sorted-In, sort_by-In}
use cyberfly_rust_node.Common.Text.{Str}
use cyberfly_rust_node.Filters.Json.{JsonView, FilterOptions, is_greater, compare_values, sorted}

-- Sorting a list by an order of its own elements.
module _ {A : Type 0} (le : A → A → Bool) (docs : List A)
    (total : (x y : A) → In x docs → In y docs → le x y ≡ false → le y x ≡ true)
    (trans : (x y z : A)
      → In x docs
      → In y docs
      → In z docs
      → le x y ≡ true
      → le y z ≡ true
      → le x z ≡ true) where
  insert_sorted-IsSorted_of :
      (x : A) (xs : List A)
      → In x docs
      → ((y : A) → In y xs → In y docs)
      → IsSorted le xs
      → IsSorted le (insert_sorted le x xs)
  insert_sorted-IsSorted_of x [] at all h = ((λ y i. absurd i), tt)
  insert_sorted-IsSorted_of x (y ∷ ys) at all (below, h) = elim (Bool-cases (le x y)) [
    | inl before ↦ rw before (
      (λ z i. elim i [
        | inl e ↦ rw e before
        | inr m ↦ trans x y z at (all y (inl refl)) (all z (inr m)) before (below z m)
      ]),
      (below, h),
    )
    | inr after ↦ rw after (
      (λ z i. elim (insert_sorted-In le z x ys i) [
        | inl e ↦ rw e (total x y at (all y (inl refl)) after)
        | inr m ↦ below z m
      ]),
      insert_sorted-IsSorted_of x ys at (λ z m. all z (inr m)) h,
    )
  ]

  sort_by-IsSorted_of :
      (xs : List A) → ((y : A) → In y xs → In y docs) → IsSorted le (sort_by le xs)
  unfolding sort_by
  sort_by-IsSorted_of [] all = tt
  sort_by-IsSorted_of (x ∷ xs) all =
      insert_sorted-IsSorted_of x (sort_by le xs) (all x (inl refl))
        (λ y i. all y (inr (sort_by-In le y xs i))) (sort_by-IsSorted_of xs (λ y i. all y (inr i)))

module _ {J F : Type 0} (fl : Float F) (v : JsonView J F) (options : FilterOptions) where
  -- `a` may stand before `b` in the order of the field.
  abbrev pub precedes : Str → J → J → Bool
  precedes field a b = not (is_greater (compare_values fl v field options.sort_order a b))

  -- The order of the sort field, if there is one, is total and transitive on the documents.
  pub record IsOrder (docs : List J) : Type 0 where
    pub total :
        (field : Str) (a b : J)
        → options.sort_field ≡ some field
        → In a docs
        → In b docs
        → precedes field a b ≡ false
        → precedes field b a ≡ true
    pub transitive :
        (field : Str) (a b c : J)
        → options.sort_field ≡ some field
        → In a docs
        → In b docs
        → In c docs
        → precedes field a b ≡ true
        → precedes field b c ≡ true
        → precedes field a c ≡ true

  pub sorted-IsSorted :
      (docs : List J)
      → IsOrder docs
      → (field : Str) → options.sort_field ≡ some field
      → IsSorted (precedes field) (sorted fl v options docs)
  unfolding sorted
  sorted-IsSorted docs o field e =
      rw (sorted, e)
        (sort_by-IsSorted_of (precedes field) docs (λ a b i j h. o.total field a b e i j h)
          (λ a b c i j k h g. o.transitive field a b c e i j k h g) docs (λ y i. i))
