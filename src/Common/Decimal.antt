-- ===== src/Common/Decimal.antt =====
-- Decimal text of an i64: what `format!` writes, and `str::parse::<i64>`.
use Prim.Native.Nat.{ℕ, zero, suc, ◌+◌, ◌-◌, ◌*◌, ◌/◌, ◌%◌, ◌^◌, ◌≤◌, ◌<◌}
use mathlib.Core.Path.{◌≡◌, refl, ap}
use mathlib.Core.Bool.{Bool, true, false, ◌&&◌}
use mathlib.Core.Logic.{inl, inr}
use mathlib.Core.Option.{Option, none, some}
use mathlib.Core.List.{[], ◌∷◌, ◌++◌}
use native.Mathlib.Nat.{pow-suc}
use native.Mathlib.Omega.{arith}
use cyberfly_rust_node.Common.Tests.{ltb, leb, ◌==◌, if◌then◌else◌, Bool-cases}
use cyberfly_rust_node.Common.Int.{ℤ, pos, negsuc}
use cyberfly_rust_node.Common.Text.{Str}

unfoldable pub digits : ℕ → ℕ → Str
digits zero n = []
digits (suc f) n =
    let rest = digits f (n / 10) in if ltb n 10 then (48 + n) ∷ [] else rest ++ (48 + n % 10) ∷ []

-- Twenty digits are enough for a u64.
unfoldable pub show_ℕ : ℕ → Str
unfolding digits
show_ℕ n = digits 20 n

unfoldable pub show_ℤ : ℤ → Str
show_ℤ (pos n) = show_ℕ n
show_ℤ (negsuc n) = b'-' ∷ show_ℕ (suc n)

abbrev pub is_digit : ℕ → Bool
is_digit c = leb 48 c && leb c 57

unfoldable pub parse_digits : ℕ → Str → Option ℕ
parse_digits acc [] = some acc
parse_digits acc (c ∷ s) =
    let rest = parse_digits (acc * 10 + (c - 48)) s in if is_digit c then rest else none

-- A magnitude that fits the sign: up to 2^63 - 1, or 2^63 below zero.
abbrev signed : Bool → Option ℕ → Option ℤ
signed negative none = none
signed true (some n) =
    if leb n (2 ^ 63) then (if n == 0 then some (pos 0) else some (negsuc (n - 1))) else none
signed false (some n) = if ltb n (2 ^ 63) then some (pos n) else none

-- The digits after the sign: at least one.
unfoldable pub parse_magnitude : Bool → Str → Option ℤ
unfolding parse_digits
parse_magnitude negative [] = none
parse_magnitude negative (c ∷ s) = signed negative (parse_digits 0 (c ∷ s))

unfoldable pub parse_i64 : Str → Option ℤ
parse_i64 [] = none
parse_i64 (c ∷ s) =
    if c == b'-'
    then parse_magnitude true s
    else if c == b'+'
    then parse_magnitude false s
    else parse_magnitude false (c ∷ s)

abbrev pub IsI64 : ℤ → Type 0
IsI64 (pos n) = n < 2 ^ 63
IsI64 (negsuc n) = n < 2 ^ 63

abbrev continue_digits : Option ℕ → Str → Option ℕ
continue_digits none t = none
continue_digits (some a) t = parse_digits a t

parse_digits-append :
    (acc : ℕ) (s t : Str) → parse_digits acc (s ++ t) ≡ continue_digits (parse_digits acc s) t
unfolding parse_digits
parse_digits-append acc [] t = refl
parse_digits-append acc (c ∷ s) t = ground (arith, parse_digits-append (acc * 10 + (c - 48)) s t)

-- With enough digits the text reads back as the number.
parse-digits : (f n : ℕ) → n < 10 ^ f → parse_digits 0 (digits f n) ≡ some n
unfolding digits parse_digits
parse-digits zero n h = ground arith
parse-digits (suc f) n h = elim (Bool-cases (ltb n 10)) [
  | inl small ↦ rw small (ground arith)
  | inr large ↦
      rw
        (
          large,
          parse_digits-append 0 (digits f (n / 10)) ((48 + n % 10) ∷ []),
          parse-digits f (n / 10) (omega (arith, pow-suc 10 f)),
        )
        (ground arith)
]

digits_snoc :
    (f n : ℕ)
    → (c : ℕ) × (s : Str) × (digits f (n / 10) ++ (48 + n % 10) ∷ [] ≡ c ∷ s) × (48 ≤ c) × (c ≤ 57)
unfolding digits
digits_snoc zero n = (48 + n % 10, [], refl, omega arith, omega arith)
digits_snoc (suc f) n = elim (Bool-cases (ltb (n / 10) 10)) [
  | inl small ↦ (48 + n / 10, (48 + n % 10) ∷ [], rw small, omega arith, ground arith)
  | inr large ↦
      let (c, s, e, lo, hi) = digits_snoc f (n / 10) in
      (c, s ++ (48 + n % 10) ∷ [], rw (large, e), lo, hi)
]

-- The text is not empty, and begins with a digit.
pub digits_head : (f n : ℕ) → (c : ℕ) × (s : Str) × (digits (suc f) n ≡ c ∷ s) × (48 ≤ c) × (c ≤ 57)
unfolding digits
digits_head f n = elim (Bool-cases (ltb n 10)) [
  | inl small ↦ (48 + n, [], rw small, omega arith, ground arith)
  | inr large ↦ rw large (digits_snoc f n)
]

show_ℕ_lem : (n : ℕ) → show_ℕ n ≡ digits (suc 19) n
unfolding show_ℕ
show_ℕ_lem n = refl

parse_magnitude-show_ℕ :
    (negative : Bool) (n : ℕ)
    → n < 10 ^ 20
    → parse_magnitude negative (show_ℕ n) ≡ signed negative (some n)
unfolding parse_magnitude
parse_magnitude-show_ℕ negative n h =
    let (c, s, e, _, _) = digits_head 19 n in
    rw (show_ℕ_lem n, e) (ap (signed negative) (rw e at (parse-digits 20 n h)))

-- Every i64 reads back from its text.
pub parse_i64-show_ℤ : (z : ℤ) → IsI64 z → parse_i64 (show_ℤ z) ≡ some z
unfolding parse_i64 show_ℤ
parse_i64-show_ℤ (negsuc n) h =
    rw (parse_magnitude-show_ℕ true (suc n) (omega arith)) (ground arith)
parse_i64-show_ℤ (pos n) h =
    let (c, s, e, lo, hi) = digits_head 19 n in
    let read : parse_magnitude false (c ∷ s) ≡ some (pos n) =
      rw (← e, ← show_ℕ_lem n, parse_magnitude-show_ℕ false n (omega arith)) (ground arith) in
    rw (show_ℕ_lem n, e) (ground (arith, read))
