-- ===== src/Common/Text.antt =====
-- Texts: a `String` or `&str` is the list of its Unicode scalar values, its `len()` counts the
-- bytes of its UTF-8 form, and its order is lexicographic.
use Prim.Native.Nat.{ℕ, ◌+◌, ◌/◌, ◌%◌}
use Prim.Native.Char.{code}
use Prim.Native.String.{String}
use mathlib.Core.Path.{◌≡◌, refl, ap}
use mathlib.Core.Bool.{Bool, true, false, ◌&&◌, ◌||◌}
use mathlib.Core.Logic.{◌↔◌, inl, inr}
use mathlib.Core.Option.{Option, none, some}
use mathlib.Core.List.{List, [], ◌∷◌, ◌++◌}
use native.Mathlib.Omega.{arith}
use cyberfly_rust_node.Common.Tests.{ltb, leb, ◌==◌, if◌then◌else◌, Bool-cases}

abbrev pub Str : Type 0
Str = List ℕ

-- The characters of a literal.
abbrev pub codes : String → Str
codes String.[] = []
codes (String.◌∷◌ c s) = code c ∷ codes s

-- The bytes that UTF-8 takes for one character.
abbrev pub utf8_len : ℕ → ℕ
utf8_len c = if ltb c 0x80 then 1 else if ltb c 0x800 then 2 else if ltb c 0x10000 then 3 else 4

-- s.len()
unfoldable pub str_len : Str → ℕ
str_len [] = 0
str_len (c ∷ s) = utf8_len c + str_len s

-- The bytes of one character, and s.as_bytes().
abbrev pub utf8_char : ℕ → List ℕ
utf8_char c =
    if ltb c 0x80
    then c ∷ []
    else if ltb c 0x800
    then (0xc0 + c / 64) ∷ (0x80 + c % 64) ∷ []
    else if ltb c 0x10000
    then (0xe0 + c / 4096) ∷ (0x80 + c / 64 % 64) ∷ (0x80 + c % 64) ∷ []
    else (0xf0 + c / 262144) ∷ (0x80 + c / 4096 % 64) ∷ (0x80 + c / 64 % 64) ∷ (0x80 + c % 64) ∷ []

unfoldable pub as_bytes : Str → List ℕ
as_bytes [] = []
as_bytes (c ∷ s) = utf8_char c ++ as_bytes s

-- s.to_lowercase(), on ASCII. No character outside ASCII has a lower case that begins or ends one
-- of the texts that the program compares the result with.
abbrev pub lower_char : ℕ → ℕ
lower_char c = if leb b'A' c && leb c b'Z' then c + 32 else c

unfoldable pub to_lowercase : Str → Str
to_lowercase [] = []
to_lowercase (c ∷ s) = lower_char c ∷ to_lowercase s

-- s.strip_prefix(p)
unfoldable pub strip_prefix : Str → Str → Option Str
strip_prefix [] s = some s
strip_prefix (c ∷ p) [] = none
strip_prefix (c ∷ p) (x ∷ s) = let rest = strip_prefix p s in if c == x then rest else none

pub strip_prefix-append : (p s : Str) → strip_prefix p (p ++ s) ≡ some s
unfolding strip_prefix
strip_prefix-append [] s = refl
strip_prefix-append (c ∷ p) s = ground (arith, strip_prefix-append p s)

-- a == b
unfoldable pub str_eq : Str → Str → Bool
str_eq [] [] = true
str_eq (x ∷ a) (y ∷ b) = x == y && str_eq a b
str_eq _ _ = false

-- s.starts_with(p), with the prefix first.
unfoldable pub starts_with : Str → Str → Bool
starts_with [] s = true
starts_with (c ∷ p) [] = false
starts_with (c ∷ p) (x ∷ s) = c == x && starts_with p s

-- s.contains(p), with the pattern first.
unfoldable pub str_contains : Str → Str → Bool
str_contains p [] = starts_with p []
str_contains p (c ∷ s) = starts_with p (c ∷ s) || str_contains p s

-- a <= b
unfoldable pub str_leb : Str → Str → Bool
str_leb [] b = true
str_leb (x ∷ a) [] = false
str_leb (x ∷ a) (y ∷ b) = ltb x y || (x == y && str_leb a b)

pub str_eq_iff : (a b : Str) → (str_eq a b ≡ true) ↔ (a ≡ b)
unfolding str_eq
str_eq_iff [] [] = ground arith
str_eq_iff [] (y ∷ b) = ground arith
str_eq_iff (x ∷ a) [] = ground arith
str_eq_iff (x ∷ a) (y ∷ b) = ground (arith, str_eq_iff a b)

pub str_eq_refl : (a : Str) → str_eq a a ≡ true
str_eq_refl a = (str_eq_iff a a).1 refl

pub str_leb_refl : (a : Str) → str_leb a a ≡ true
unfolding str_leb
str_leb_refl [] = refl
str_leb_refl (x ∷ a) = ground (arith, str_leb_refl a)

pub str_leb_total : (a b : Str) → str_leb a b ≡ false → str_leb b a ≡ true
unfolding str_leb
str_leb_total [] b h = ground arith
str_leb_total (x ∷ a) [] h = refl
str_leb_total (x ∷ a) (y ∷ b) h = ground (arith, str_leb_total a b)

pub str_leb_antisym : (a b : Str) → str_leb a b ≡ true → str_leb b a ≡ true → a ≡ b
unfolding str_leb
str_leb_antisym [] [] h k = refl
str_leb_antisym [] (y ∷ b) h k = ground arith
str_leb_antisym (x ∷ a) [] h k = ground arith
str_leb_antisym (x ∷ a) (y ∷ b) h k = ground (arith, str_leb_antisym a b)

pub str_leb_trans : (a b c : Str) → str_leb a b ≡ true → str_leb b c ≡ true → str_leb a c ≡ true
unfolding str_leb
str_leb_trans [] b c h k = refl
str_leb_trans (x ∷ a) [] c h k = ground arith
str_leb_trans (x ∷ a) (y ∷ b) [] h k = ground arith
str_leb_trans (x ∷ a) (y ∷ b) (z ∷ c) h k = ground (arith, str_leb_trans a b c)

-- s.ends_with(t): `t` is what is left after some characters are dropped.
unfoldable pub ends_with : Str → Str → Bool
ends_with [] t = str_eq [] t
ends_with (c ∷ s) t = str_eq (c ∷ s) t || ends_with s t

pub ends_with_sound : (s t : Str) → ends_with s t ≡ true → (p : Str) × (s ≡ p ++ t)
unfolding ends_with
ends_with_sound [] t h = ([], (str_eq_iff [] t).0 h)
ends_with_sound (c ∷ s) t h = elim (Bool-cases (str_eq (c ∷ s) t)) [
  | inl whole ↦ ([], (str_eq_iff (c ∷ s) t).0 whole)
  | inr rest ↦ let (p, e) = ends_with_sound s t (ground arith) in (c ∷ p, ap (λ (u : Str). c ∷ u) e)
]

pub ends_with_self : (t : Str) → ends_with t t ≡ true
unfolding ends_with
ends_with_self [] = (str_eq_iff [] []).1 refl
ends_with_self (c ∷ t) = ground (arith, str_eq_refl (c ∷ t))

pub ends_with-append : (p t : Str) → ends_with (p ++ t) t ≡ true
unfolding ends_with
ends_with-append [] t = ends_with_self t
ends_with-append (c ∷ p) t = ground (arith, ends_with-append p t)
