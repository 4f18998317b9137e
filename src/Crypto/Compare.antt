-- ===== src/Crypto/Compare.antt =====
-- src/crypto.rs, `constant_time_eq`: the comparison that reads every byte, and equality.
use Prim.Native.Nat.{bit_or, bit_xor}
use native.Mathlib.Decide.{ℕ_discrete}
use cyberfly_rust_node.Common.{
  ℕ, zero, suc, ◌<◌, ◌≡◌, ◌↔◌, refl, Bool, true, false, ◌&&◌, List, [], ◌∷◌, arith, ltb, ◌==◌,
  ==_iff, length, ap, Bool-cases, inl, inr,
}
use cyberfly_rust_node.Crypto.{fold_difference, constant_time_eq}

-- A test on every number under a bound, the least first.
passes : (ℕ → Bool) → ℕ → Bool
passes test zero = true
passes test (suc bound) = passes test bound && test bound

passes-at : (test : ℕ → Bool) (bound i : ℕ) → i < bound → passes test bound ≡ true → test i ≡ true
unfolding passes
passes-at test zero i below _ = absurd (omega arith)
passes-at test (suc bound) i below all = elim (ℕ_discrete i bound) [
  | yes same ↦ rw same (ground arith)
  | no other ↦ passes-at test bound i (omega arith) (ground arith)
]

abbrev agree : Bool → Bool → Bool
agree true b = b
agree false true = false
agree false false = true

abbrev xor_check : ℕ → ℕ → Bool
xor_check x y = ltb (bit_xor x y) 256 && agree (bit_xor x y == 0) (x == y)

abbrev or_check : ℕ → ℕ → Bool
or_check x y = ltb (bit_or x y) 256 && agree (bit_or x y == 0) (x == 0 && y == 0)

xor_table : passes (λ x. passes (xor_check x) 256) 256 ≡ true
unfolding passes
xor_table = refl

or_table : passes (λ x. passes (or_check x) 256) 256 ≡ true
unfolding passes
or_table = refl

byte_pairs :
    (p : ℕ → ℕ → Bool)
    → passes (λ x. passes (p x) 256) 256 ≡ true
    → (x y : ℕ) → x < 256
    → y < 256
    → p x y ≡ true
byte_pairs p h x y hx hy = passes-at (p x) 256 y hy (passes-at (λ x. passes (p x) 256) 256 x hx h)

abbrev pub AllBytes : List ℕ → Type 0
AllBytes [] = Unit
AllBytes (x ∷ xs) = (x < 256) × AllBytes xs

fold_difference_iff :
    (r : ℕ) (a b : List ℕ)
    → r < 256
    → AllBytes a
    → AllBytes b
    → length a ≡ length b
    → ((fold_difference r a b == 0) ≡ true) ↔ ((r ≡ 0) × (a ≡ b))
unfolding fold_difference
fold_difference_iff r [] [] hr ha hb e = ground arith
fold_difference_iff r [] (y ∷ b) hr ha hb e = absurd (omega arith)
fold_difference_iff r (x ∷ a) [] hr ha hb e = absurd (omega arith)
fold_difference_iff r (x ∷ a) (y ∷ b) hr ha hb e =
    let xor = byte_pairs xor_check xor_table x y ha.0 hb.0 in
    let or = byte_pairs or_check or_table r (bit_xor x y) hr (ground arith) in
    ground (arith, fold_difference_iff (bit_or r (bit_xor x y)) a b)

-- Two byte strings compare equal exactly when they are the same.
pub constant_time_eq_iff :
    (a b : List ℕ) → AllBytes a → AllBytes b → (constant_time_eq a b ≡ true) ↔ (a ≡ b)
unfolding constant_time_eq
constant_time_eq_iff a b ha hb = elim (Bool-cases (length a == length b)) [
  | inl same ↦ ground (arith, fold_difference_iff 0 a b (omega arith) ha hb ((==_iff _ _).0 same))
  | inr differ ↦ (ground arith, λ e. ground (arith, ap length e))
]
