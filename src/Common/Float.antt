-- ===== src/Common/Float.antt =====
-- The arithmetic of f64, a parameter of what computes with it.
use Prim.Native.Nat.{ℕ}
use mathlib.Core.Path.{◌≡◌}
use mathlib.Core.List.{List}
use mathlib.Core.Bool.{Bool, true}
use cyberfly_rust_node.Common.Int.{ℤ}

-- `decimal k n` is the literal n / 10^k. A comparison with a NaN is false.
pub record Float (F : Type 0) : Type 0 where
  pub plus : F → F → F
  pub minus : F → F → F
  pub times : F → F → F
  pub divide : F → F → F
  pub min : F → F → F
  pub max : F → F → F
  pub powf : F → F → F
  pub of_u64 : ℕ → F
  pub of_i64 : ℤ → F
  pub decimal : ℕ → ℕ → F
  pub infinity : F
  pub neg_infinity : F
  -- Iterator::sum
  pub sum : List F → F
  pub ltb : F → F → Bool
  pub leb : F → F → Bool

-- Documented: `min` and `max` give their other argument for a NaN. A number is what is at most itself.
pub record IsFloat {F : Type 0} (fl : Float F) : Type 0 where
  pub min_le : (a b : F) → fl.leb b b ≡ true → fl.leb (fl.min a b) b ≡ true
  pub max_ge : (a b : F) → fl.leb b b ≡ true → fl.leb b (fl.max a b) ≡ true
