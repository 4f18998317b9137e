-- ===== src/Common/Whole.antt =====
-- Whole numbers in the place of f64, for the tests.
use Prim.Native.Nat.{ℕ, ◌+◌, ◌-◌, ◌*◌, ◌/◌, ◌^◌}
use mathlib.Core.List.{List, [], ◌∷◌}
use native.Mathlib.Omega.{arith}
use cyberfly_rust_node.Common.Tests.{ltb, leb, if◌then◌else◌}
use cyberfly_rust_node.Common.Int.{pos_part}
use cyberfly_rust_node.Common.Float.{Float, IsFloat}

abbrev total : List ℕ → ℕ
total [] = 0
total (n ∷ l) = n + total l

abbrev pub whole : Float ℕ
whole = record {
  plus = λ a b. a + b;
  minus = λ a b. a - b;
  times = λ a b. a * b;
  divide = λ a b. a / b;
  min = λ a b. if leb a b then a else b;
  max = λ a b. if leb a b then b else a;
  powf = λ a b. a ^ b;
  of_u64 = λ n. n;
  of_i64 = λ z. pos_part z;
  decimal = λ k n. n / 10 ^ k;
  infinity = 2 ^ 64;
  neg_infinity = 0;
  sum = λ l. total l;
  ltb = λ a b. ltb a b;
  leb = λ a b. leb a b;
}

pub whole-IsFloat : IsFloat whole
whole-IsFloat = record { min_le = λ a b h. ground arith; max_ge = λ a b h. ground arith }
