-- ===== src/Common/Int.antt =====
-- i64 values as integers over the native numbers, under the library's names.
use Prim.Native.Nat.{ℕ, suc, ◌+◌, ◌-◌, ◌/◌, ◌%◌, ◌^◌, ◌≤◌, ◌<◌}
use mathlib.Core.Path.{◌≡◌}
use mathlib.Core.Bool.{Bool, true, false}
use mathlib.Core.Logic.{◌↔◌}
use native.Mathlib.Omega.{arith}
use cyberfly_rust_node.Common.Tests.{ltb, ◌==◌, if◌then◌else◌}

-- `negsuc n` is -(n + 1).
pub data ℤ : Type 0 where
  pos : ℕ → ℤ
  negsuc : ℕ → ℤ

abbrev pub pos_part : ℤ → ℕ
pos_part (pos n) = n
pos_part (negsuc n) = 0

abbrev pub neg_part : ℤ → ℕ
neg_part (pos n) = 0
neg_part (negsuc n) = suc n

infix 50 ◌<ℤ◌ ◌≤ℤ◌
abbrev pub ◌<ℤ◌ : ℤ → ℤ → Type 0
a <ℤ b = pos_part a + neg_part b < pos_part b + neg_part a

abbrev pub ◌≤ℤ◌ : ℤ → ℤ → Type 0
a ≤ℤ b = pos_part a + neg_part b ≤ pos_part b + neg_part a

abbrev pub ltb_ℤ : ℤ → ℤ → Bool
ltb_ℤ a b = ltb (pos_part a + neg_part b) (pos_part b + neg_part a)

abbrev pub eqb_ℤ : ℤ → ℤ → Bool
eqb_ℤ a b = (pos_part a + neg_part b) == (pos_part b + neg_part a)

-- |a - b|, the magnitude of a difference.
abbrev pub dist_ℤ : ℤ → ℤ → ℕ
dist_ℤ a b =
    let l = pos_part a + neg_part b in
    let r = pos_part b + neg_part a in if ltb l r then r - l else l - r

-- Division that truncates towards zero, as Rust's `/` does.
abbrev pub quot_ℤ : ℤ → ℕ → ℤ
quot_ℤ (pos n) d = pos (n / d)
quot_ℤ (negsuc n) d = let q = suc n / d in if q == 0 then pos 0 else negsuc (q - 1)

pub eqb_ℤ_iff : (a b : ℤ) → (eqb_ℤ a b ≡ true) ↔ (a ≡ b)
eqb_ℤ_iff a b = ground arith

pub ltb_ℤ_iff : (a b : ℤ) → (ltb_ℤ a b ≡ true) ↔ (a <ℤ b)
ltb_ℤ_iff a b = ground arith

pub ltb_ℤ_irrefl : (a : ℤ) → ltb_ℤ a a ≡ false
ltb_ℤ_irrefl a = ground arith

pub eqb_ℤ_refl : (a : ℤ) → eqb_ℤ a a ≡ true
eqb_ℤ_refl a = ground arith

pub <ℤ_trans : (a b c : ℤ) → a <ℤ b → b <ℤ c → a <ℤ c
<ℤ_trans a b c h k = omega arith

-- A sum or product in i64, from its value without a bound.
abbrev pub wrap_i64 : ℕ → ℤ
wrap_i64 n = let r = n % 2 ^ 64 in if ltb r (2 ^ 63) then pos r else negsuc (2 ^ 64 - 1 - r)

-- a - b, as an integer.
abbrev pub sub_ℤ : ℕ → ℕ → ℤ
sub_ℤ a b = if ltb a b then negsuc (b - a - 1) else pos (a - b)
