-- ===== src/Filters/Pages.antt =====
-- src/filters.rs, `JsonFilter`: what sorting and pages keep of a list of documents.
use cyberfly_rust_node.Common.{
  ℕ, zero, suc, ◌≡◌, ◌≤◌, refl, inl, inr, Option, none, some, List, [], ◌∷◌, In, length,
  length-take, drop, arith, Option-cases, unwrap_or,
}
use cyberfly_rust_node.Common.Float.{Float}
use cyberfly_rust_node.Common.Lists.{sort_by}
use cyberfly_rust_node.Common.Sort.{sort_by-In, In-sort_by, take-In}
use cyberfly_rust_node.Filters.Json.{JsonView, FilterOptions, sorted, at_most, page}

drop-In : {A : Type 0} (n : ℕ) (a : A) (xs : List A) → In a (drop n xs) → In a xs
drop-In zero a xs i = i
drop-In (suc n) a [] i = i
drop-In (suc n) a (x ∷ xs) i = inr (drop-In n a xs i)

at_most-In : {A : Type 0} (o : Option ℕ) (a : A) (xs : List A) → In a (at_most o xs) → In a xs
at_most-In none a xs i = i
at_most-In (some n) a xs i = take-In n a xs i

pub page-In : {A : Type 0} (o : FilterOptions) (a : A) (xs : List A) → In a (page o xs) → In a xs
unfolding page
page-In o a xs i = drop-In (unwrap_or o.offset 0) a xs (at_most-In o.limit a _ i)

pub length-page :
    {A : Type 0} (options : FilterOptions) (n : ℕ) (l : List A)
    → options.limit ≡ some n
    → length (page options l) ≤ n
unfolding page
length-page options n l e =
    let k = length-take n (drop (unwrap_or options.offset 0) l) in ground arith

pub In-page :
    {A : Type 0} (options : FilterOptions) (a : A) (l : List A)
    → options.limit ≡ none
    → options.offset ≡ none
    → In a l
    → In a (page options l)
unfolding page
In-page options a l no_limit no_offset i = rw (page, no_limit, no_offset) i

drop_nil : {A : Type 0} (n : ℕ) → drop {A = A} n [] ≡ []
drop_nil zero = refl
drop_nil (suc n) = refl

at_most_nil : {A : Type 0} (o : Option ℕ) → at_most {A = A} o [] ≡ []
at_most_nil none = refl
at_most_nil (some zero) = refl
at_most_nil (some (suc n)) = refl

module _ {J F : Type 0} (fl : Float F) (v : JsonView J F) where
  pub sorted-In :
      (options : FilterOptions) (d : J) (docs : List J)
      → In d (sorted fl v options docs)
      → In d docs
  unfolding sorted
  sorted-In options d docs i = elim (Option-cases options.sort_field) [
    | inl e ↦ rw (sorted, e) at i
    | inr (f, e) ↦ sort_by-In _ d docs (rw (sorted, e) at i)
  ]

  pub In-sorted :
      (options : FilterOptions) (d : J) (docs : List J)
      → In d docs
      → In d (sorted fl v options docs)
  unfolding sorted
  In-sorted options d docs i = elim (Option-cases options.sort_field) [
    | inl e ↦ rw (sorted, e) i
    | inr (f, e) ↦ rw (sorted, e) (In-sort_by _ d docs i)
  ]

  pub nothing : (options : FilterOptions) → page options (sorted fl v options []) ≡ []
  unfolding page sorted sort_by
  nothing options = elim (Option-cases options.sort_field) [
    | inl e ↦
        ground
          (arith, drop_nil {A = J} (unwrap_or options.offset 0), at_most_nil {A = J} options.limit)
    | inr (f, e) ↦
        ground
          (arith, drop_nil {A = J} (unwrap_or options.offset 0), at_most_nil {A = J} options.limit)
  ]
