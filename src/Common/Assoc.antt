-- ===== src/Common/Assoc.antt =====
-- A `HashMap` or `DashMap` as an association list. The order of the list stands for the order of
-- iteration, which the program leaves open.
use cyberfly_rust_node.Common.Tests.{◌==◌ as nat_eqb, ==_iff, if◌then◌else◌}
use cyberfly_rust_node.Common.Int.{ℤ, eqb_ℤ, eqb_ℤ_iff}
use cyberfly_rust_node.Common.Text.{Str, str_eq, str_eq_iff}
use Prim.Native.Nat.{ℕ}
use mathlib.Core.Path.{◌≡◌, refl}
use mathlib.Core.Bool.{Bool, true, false, ◌||◌, ◌&&◌}
use mathlib.Core.Logic.{◌↔◌}
use mathlib.Core.Option.{Option, none, some}
use mathlib.Core.List.{List, [], ◌∷◌}
use native.Mathlib.Omega.{arith}

pub record Eq (K : Type 0) : Type 0 where
  pub beq : K → K → Bool
  pub beq_iff : (a b : K) → (beq a b ≡ true) ↔ (a ≡ b)

instance abbrev pub nat_eq : Eq ℕ
nat_eq = record { beq = nat_eqb; beq_iff = ==_iff }

instance abbrev pub str_key : Eq Str
str_key = record { beq = str_eq; beq_iff = str_eq_iff }

instance abbrev pub int_key : Eq ℤ
int_key = record { beq = eqb_ℤ; beq_iff = eqb_ℤ_iff }

-- Pairs of keys, of which both parts are compared.
abbrev pub pair_eqb : {A B : Type 0} ⦃e : Eq A⦄ ⦃f : Eq B⦄ → A × B → A × B → Bool
pair_eqb ⦃e⦄ ⦃f⦄ (a, b) (c, d) = e.beq a c && f.beq b d

pub pair_eqb_iff :
    {A B : Type 0} ⦃e : Eq A⦄ ⦃f : Eq B⦄ (p q : A × B) → (pair_eqb p q ≡ true) ↔ (p ≡ q)
pair_eqb_iff ⦃e⦄ ⦃f⦄ (a, b) (c, d) = ground (arith, e.beq_iff a c, f.beq_iff b d)

instance abbrev pub pair_key : {A B : Type 0} ⦃e : Eq A⦄ ⦃f : Eq B⦄ → Eq (A × B)
pair_key = record { beq = pair_eqb; beq_iff = pair_eqb_iff }

pub beq_refl : {K : Type 0} ⦃e : Eq K⦄ (k : K) → e.beq k k ≡ true
beq_refl ⦃e⦄ k = (e.beq_iff k k).1 refl

module _ {K V : Type 0} ⦃e : Eq K⦄ where
  -- map.get(k)
  unfoldable pub lookup : K → List (K × V) → Option V
  lookup k [] = none
  lookup k ((j, v) ∷ m) = if e.beq j k then some v else lookup k m

  -- map.insert(k, v)
  unfoldable pub insert : K → V → List (K × V) → List (K × V)
  insert k v [] = (k, v) ∷ []
  insert k v ((j, w) ∷ m) = if e.beq j k then (k, v) ∷ m else (j, w) ∷ insert k v m

  -- An insertion into an ordered map, whose keys ascend by `leb`.
  unfoldable pub tree_insert : (K → K → Bool) → K → V → List (K × V) → List (K × V)
  tree_insert leb k v [] = (k, v) ∷ []
  tree_insert leb k v ((j, w) ∷ m) =
      let rest = tree_insert leb k v m in
      if e.beq j k then (k, v) ∷ m else if leb k j then (k, v) ∷ (j, w) ∷ m else (j, w) ∷ rest

  -- map.remove(k), which drops every entry of the key
  unfoldable pub remove : K → List (K × V) → List (K × V)
  remove k [] = []
  remove k ((j, w) ∷ m) = let rest = remove k m in if e.beq j k then rest else (j, w) ∷ rest

  pub lookup-insert :
      (k j : K) (v : V) (m : List (K × V))
      → lookup j (insert k v m) ≡ (if e.beq k j then some v else lookup j m)
  unfolding lookup insert
  lookup-insert k j v [] = refl
  lookup-insert k j v ((i, w) ∷ m) =
      ground (arith, e.beq_iff k j, e.beq_iff i k, e.beq_iff i j, lookup-insert k j v m)

  pub lookup-tree_insert :
      (leb : K → K → Bool) (k j : K) (v : V) (m : List (K × V))
      → lookup j (tree_insert leb k v m) ≡ (if e.beq k j then some v else lookup j m)
  unfolding lookup tree_insert
  lookup-tree_insert leb k j v [] = refl
  lookup-tree_insert leb k j v ((i, w) ∷ m) =
      ground (arith, e.beq_iff k j, e.beq_iff i k, e.beq_iff i j, lookup-tree_insert leb k j v m)

  pub lookup-remove :
      (k j : K) (m : List (K × V))
      → lookup j (remove k m) ≡ (if e.beq k j then none else lookup j m)
  unfolding lookup remove
  lookup-remove k j [] = ground arith
  lookup-remove k j ((i, w) ∷ m) =
      ground (arith, e.beq_iff k j, e.beq_iff i k, e.beq_iff i j, lookup-remove k j m)

-- A `HashSet` as the list of its members.
module _ {K : Type 0} ⦃e : Eq K⦄ where
  unfoldable pub contains : K → List K → Bool
  contains k [] = false
  contains k (j ∷ s) = e.beq j k || contains k s

  unfoldable pub add : K → List K → List K
  add k s = if contains k s then s else k ∷ s

  pub contains-add : (k j : K) (s : List K) → contains j (add k s) ≡ (e.beq k j || contains j s)
  unfolding contains add
  contains-add k j s = ground (arith, e.beq_iff k j)
