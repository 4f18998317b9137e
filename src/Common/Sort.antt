-- ===== src/Common/Sort.antt =====
-- Laws of `filter`, `sort_by`, `take` and membership.
use cyberfly_rust_node.Common.Tests.{if◌then◌else◌, Bool-cases}
use cyberfly_rust_node.Common.Lists.{length, filter, insert_sorted, sort_by, In, take, get_last?}
use Prim.Native.Nat.{ℕ, zero, suc, ◌≤◌}
use mathlib.Core.Path.{◌≡◌, refl, ap}
use mathlib.Core.Logic.{◌⊎◌, inl, inr}
use mathlib.Core.Bool.{Bool, true, false}
use mathlib.Core.Option.{some}
use mathlib.Core.List.{List, [], ◌∷◌, ◌++◌, map}
use native.Mathlib.Omega.{arith}

module _ {A : Type 0} (le : A → A → Bool) where
  pub length-insert_sorted :
      (x : A) (xs : List A) → length (insert_sorted le x xs) ≡ suc (length xs)
  length-insert_sorted x [] = refl
  length-insert_sorted x (y ∷ ys) = ground (arith, length-insert_sorted x ys)

  pub length-sort_by : (xs : List A) → length (sort_by le xs) ≡ length xs
  unfolding sort_by
  length-sort_by [] = refl
  length-sort_by (x ∷ xs) = rw (length-insert_sorted x (sort_by le xs)) (ap suc (length-sort_by xs))

  -- A test that holds of all that is greater than what it holds of.
  module _ (p : A → Bool) (up : (x y : A) → le x y ≡ true → p x ≡ true → p y ≡ true) where
    filter-insert_sorted :
        (x : A) (ys : List A)
        → filter p (insert_sorted le x ys)
          ≡ (if p x then insert_sorted le x (filter p ys) else filter p ys)
    filter-insert_sorted x [] = refl
    filter-insert_sorted x (y ∷ ys) = ground (arith, filter-insert_sorted x ys, up x y)

    pub filter-sort_by : (xs : List A) → filter p (sort_by le xs) ≡ sort_by le (filter p xs)
    unfolding sort_by
    filter-sort_by [] = refl
    filter-sort_by (x ∷ xs) =
        ground (arith, filter-insert_sorted x (sort_by le xs), filter-sort_by xs)

  pub insert_sorted-In : (a x : A) (xs : List A) → In a (insert_sorted le x xs) → (a ≡ x) ⊎ In a xs
  insert_sorted-In a x [] h = h
  insert_sorted-In a x (y ∷ ys) h = elim (Bool-cases (le x y)) [
    | inl first ↦ rw first at h
    | inr later ↦ elim (rw later at h) [
      | inl here ↦ inr (inl here)
      | inr deep ↦ elim (insert_sorted-In a x ys deep) [ inl e ↦ inl e | inr m ↦ inr (inr m) ]
    ]
  ]

  pub sort_by-In : (a : A) (xs : List A) → In a (sort_by le xs) → In a xs
  unfolding sort_by
  sort_by-In a [] h = h
  sort_by-In a (x ∷ xs) h = elim (insert_sorted-In a x (sort_by le xs) h) [
    | inl e ↦ inl e
    | inr m ↦ inr (sort_by-In a xs m)
  ]

  In-insert_sorted : (a x : A) (xs : List A) → (a ≡ x) ⊎ In a xs → In a (insert_sorted le x xs)
  In-insert_sorted a x [] h = h
  In-insert_sorted a x (y ∷ ys) h = elim (Bool-cases (le x y)) [
    | inl first ↦ rw first h
    | inr later ↦ rw later (elim h [
      | inl e ↦ inr (In-insert_sorted a x ys (inl e))
      | inr m ↦ elim m [ inl e ↦ inl e | inr deep ↦ inr (In-insert_sorted a x ys (inr deep)) ]
    ])
  ]

  pub In-sort_by : (a : A) (xs : List A) → In a xs → In a (sort_by le xs)
  unfolding sort_by
  In-sort_by a [] h = h
  In-sort_by a (x ∷ xs) h =
      In-insert_sorted a x (sort_by le xs)
        (elim h [ inl e ↦ inl e | inr m ↦ inr (In-sort_by a xs m) ])

-- Each element may stand before all that follow it.
abbrev pub IsSorted : {A : Type 0} → (A → A → Bool) → List A → Type 0
IsSorted le [] = Unit {0}
IsSorted {A} le (x ∷ xs) = ((y : A) → In y xs → le x y ≡ true) × IsSorted le xs

module _ {A : Type 0} (le : A → A → Bool) (total : (x y : A) → le x y ≡ false → le y x ≡ true)
    (trans : (x y z : A) → le x y ≡ true → le y z ≡ true → le x z ≡ true) where
  insert_sorted-IsSorted :
      (x : A) (xs : List A) → IsSorted le xs → IsSorted le (insert_sorted le x xs)
  insert_sorted-IsSorted x [] h = ((λ y i. absurd i), tt)
  insert_sorted-IsSorted x (y ∷ ys) (below, h) = elim (Bool-cases (le x y)) [
    | inl before ↦ rw before (
      (λ z i. elim i [ inl e ↦ rw e before | inr m ↦ trans x y z before (below z m) ]),
      (below, h),
    )
    | inr after ↦ rw after (
      (λ z i. elim (insert_sorted-In le z x ys i) [
        | inl e ↦ rw e (total x y after)
        | inr m ↦ below z m
      ]),
      insert_sorted-IsSorted x ys h,
    )
  ]

  pub sort_by-IsSorted : (xs : List A) → IsSorted le (sort_by le xs)
  unfolding sort_by
  sort_by-IsSorted [] = tt
  sort_by-IsSorted (x ∷ xs) = insert_sorted-IsSorted x (sort_by le xs) (sort_by-IsSorted xs)

pub filter-In :
    {A : Type 0} (p : A → Bool) (a : A) (xs : List A) → In a (filter p xs) → In a xs × (p a ≡ true)
filter-In p a [] h = absurd h
filter-In p a (x ∷ xs) h = elim (Bool-cases (p x)) [
  | inl kept ↦ elim (rw kept at h) [
    | inl e ↦ (inl e, rw e kept)
    | inr m ↦ let (i, t) = filter-In p a xs m in (inr i, t)
  ]
  | inr gone ↦ let (i, t) = filter-In p a xs (rw gone at h) in (inr i, t)
]

pub map-In :
    {A B : Type 0} (f : A → B) (b : B) (xs : List A)
    → In b (map f xs)
    → (a : A) × (b ≡ f a) × In a xs
map-In f b [] h = absurd h
map-In f b (x ∷ xs) h = elim h [
  | inl e ↦ (x, e, inl refl)
  | inr m ↦ let (a, e, i) = map-In f b xs m in (a, e, inr i)
]

pub take-In : {A : Type 0} (n : ℕ) (a : A) (xs : List A) → In a (take n xs) → In a xs
take-In zero a xs h = absurd h
take-In (suc n) a [] h = absurd h
take-In (suc n) a (x ∷ xs) h = elim h [ inl e ↦ inl e | inr m ↦ inr (take-In n a xs m) ]

pub append-In : {A : Type 0} (a : A) (xs ys : List A) → In a (xs ++ ys) → In a xs ⊎ In a ys
append-In a [] ys h = inr h
append-In a (x ∷ xs) ys h = elim h [
  | inl e ↦ inl (inl e)
  | inr m ↦ elim (append-In a xs ys m) [ inl l ↦ inl (inr l) | inr r ↦ inr r ]
]

pub take_all : {A : Type 0} (n : ℕ) (xs : List A) → length xs ≤ n → take n xs ≡ xs
take_all zero [] h = refl
take_all zero (x ∷ xs) h = absurd (omega arith)
take_all (suc n) [] h = refl
take_all (suc n) (x ∷ xs) h = rw (take_all n xs (omega arith))

pub get_last?-cons :
    {A : Type 0} (x : A) (xs : List A) → (o : A) × (get_last? (x ∷ xs) ≡ some o) × In o (x ∷ xs)
get_last?-cons x [] = (x, refl, inl refl)
get_last?-cons x (y ∷ ys) = let (o, e, m) = get_last?-cons y ys in (o, e, inr m)
