-- ===== src/Storage/Slices.antt =====
-- src/storage.rs, `get_list` and the reads of sorted sets: the elements that a pair of indexes selects.
use cyberfly_rust_node.Common.{
  ℕ, zero, suc, ◌+◌, ◌-◌, ◌^◌, ◌≤◌, ◌<◌, ◌≡◌, refl, ap, ◌∙◌, lt→ltb, ◌==◌, Option-cases, Bool, true,
  false, ◌&&◌, none, some, List, [], ◌∷◌, arith, ltb, leb, if◌then◌else◌, length, take, drop,
  Bool-cases, inl, inr,
}
use cyberfly_rust_node.Common.Int.{ℤ, pos, negsuc}
use cyberfly_rust_node.Storage.Typed.{slice, slice_start, slice_stop}

-- The elements whose positions pass the test, the first of them standing at `p`.
unfoldable pub select : {A : Type 0} → (ℕ → Bool) → ℕ → List A → List A
select q p [] = []
select q p (x ∷ xs) = let rest = select q (suc p) xs in if q p then x ∷ rest else rest

-- Position `p` lies between the two indexes, both included; a negative one counts from the end.
abbrev pub is_from : ℤ → ℕ → ℕ → Bool
is_from (pos n) len p = leb n p
is_from (negsuc n) len p = leb len (p + suc n)

abbrev pub is_upto : ℤ → ℕ → ℕ → Bool
is_upto (pos n) len p = leb p n
is_upto (negsuc n) len p = leb (p + suc n) len

take_nil : {A : Type 0} (n : ℕ) → ◌≡◌ {A = List A} [] (take n [])
take_nil zero = refl
take_nil (suc n) = refl

module _ {A : Type 0} (q : ℕ → Bool) where
  select_none : (p : ℕ) (xs : List A) → ((k : ℕ) → p ≤ k → q k ≡ false) → select q p xs ≡ []
  unfolding select
  select_none p [] h = refl
  select_none p (x ∷ xs) h =
      rw (h p (omega arith)) (select_none (suc p) xs (λ k le. h k (omega arith)))

  select-take :
      (n p b : ℕ) (xs : List A)
      → b ≡ p + n
      → ((k : ℕ) → p ≤ k → q k ≡ ltb k b)
      → select q p xs ≡ take n xs
  unfolding select
  select-take zero p b xs e h = select_none p xs (λ k le. h k le ∙ ground arith)
  select-take (suc n) p b [] e h = refl
  select-take (suc n) p b (x ∷ xs) e h =
      let first : q p ≡ true = h p (omega arith) ∙ lt→ltb p b (omega arith) in
      let rest = select-take n (suc p) b xs (omega arith) (λ k le. h k (omega arith)) in
      rw first (ap (λ (u : List A). x ∷ u) rest)

  select-take-drop :
      (m n p a b : ℕ) (xs : List A)
      → a ≡ p + m
      → b ≡ a + n
      → ((k : ℕ) → p ≤ k → q k ≡ (leb a k && ltb k b))
      → select q p xs ≡ take n (drop m xs)
  unfolding select
  select-take-drop zero n p a b xs e f h =
      select-take n p b xs (omega arith) (λ k le. h k le ∙ ground arith)
  select-take-drop (suc m) n p a b [] e f h = take_nil n
  select-take-drop (suc m) n p a b (x ∷ xs) e f h =
      let first : q p ≡ false = h p (omega arith) ∙ ground arith in
      let rest = select-take-drop m n (suc p) a b xs (omega arith) f (λ k le. h k (omega arith)) in
      rw first rest

-- Positions past the end do not matter.
select-within :
    {A : Type 0} (q r : ℕ → Bool) (p : ℕ) (xs : List A)
    → ((k : ℕ) → p ≤ k → k < p + length xs → q k ≡ r k)
    → select q p xs ≡ select r p xs
unfolding select
select-within q r p [] h = refl
select-within q r p (x ∷ xs) h = ground (
  arith,
  h p (omega arith) (omega arith),
  select-within q r (suc p) xs (λ k le lt. h k (omega arith) (omega arith)),
)

abbrev pub between : ℤ → ℤ → ℕ → ℕ → Bool
between start stop len p = is_from start len p && is_upto stop len p

bounds_agree :
    (start stop : ℤ) (len b k : ℕ)
    → slice_stop stop len ≡ some b
    → k < len
    → between start stop len k ≡ (leb (slice_start start len) k && ltb k b)
unfolding slice_start slice_stop
bounds_agree (pos m) (pos n) len b k e lt = ground arith
bounds_agree (pos m) (negsuc n) len b k e lt = ground arith
bounds_agree (negsuc m) (pos n) len b k e lt = ground arith
bounds_agree (negsuc m) (negsuc n) len b k e lt = ground arith

abbrev pub is_max : ℤ → Bool
is_max (pos n) = suc n == 2 ^ 63
is_max (negsuc n) = false

stop_none : (stop : ℤ) (len : ℕ) → slice_stop stop len ≡ none → is_max stop ≡ true
unfolding slice_stop
stop_none (pos n) len e = ground arith
stop_none (negsuc n) len e = absurd (cc)

stop_some : (stop : ℤ) (len b : ℕ) → slice_stop stop len ≡ some b → is_max stop ≡ false
unfolding slice_stop
stop_some (pos n) len b e = ground arith
stop_some (negsuc n) len b e = refl

-- A slice has the elements whose positions lie between its indexes, both included and counted from the
-- end where they are negative; it panics exactly where the last index is the greatest isize.
pub slice_lem :
    {A : Type 0} (start stop : ℤ) (xs : List A)
    → slice start stop xs
      ≡ (if is_max stop then none else some (select (between start stop (length xs)) 0 xs))
unfolding slice
slice_lem start stop xs =
    let len = length xs in
    let a = slice_start start len in
    elim (Option-cases (slice_stop stop len)) [
      | inl none_b ↦ ground (arith, stop_none stop len none_b)
      | inr (b, some_b) ↦
          let same : select (between start stop len) 0 xs ≡ select (λ k. leb a k && ltb k b) 0 xs =
            select-within (between start stop len) (λ k. leb a k && ltb k b) 0 xs
              (λ k le lt. bounds_agree start stop len b k some_b (omega arith)) in
          elim (Bool-cases (leb b a)) [
            | inl empty ↦ ground (
              arith,
              stop_some stop len b some_b,
              select_none (λ k. leb a k && ltb k b) 0 xs (λ k le. ground arith),
            )
            | inr some_left ↦ ground (
              arith,
              stop_some stop len b some_b,
              select-take-drop (λ k. leb a k && ltb k b) a (b - a) 0 a b xs (omega arith)
                  (ground arith) (λ k le. refl),
            )
          ]
    ]
