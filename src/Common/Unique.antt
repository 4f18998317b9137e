-- ===== src/Common/Unique.antt =====
-- Maps in which every key has one entry, and the number of their entries.
use Prim.Native.Nat.{suc}
use mathlib.Core.Path.{◌≡◌, refl}
use mathlib.Core.Logic.{inl, inr}
use mathlib.Core.Option.{none, some}
use mathlib.Core.List.{List, [], ◌∷◌}
use native.Mathlib.Omega.{arith}
use cyberfly_rust_node.Common.Tests.{if◌then◌else◌, is_some, Bool-cases}
use cyberfly_rust_node.Common.Lists.{length, In}
use cyberfly_rust_node.Common.Assoc.{Eq, lookup, insert, remove, lookup-insert, lookup-remove}

module _ {K V : Type 0} ⦃e : Eq K⦄ where
  unfoldable pub IsUnique : List (K × V) → Type 0
  IsUnique [] = Unit {0}
  IsUnique ((k, v) ∷ m) = (lookup k m ≡ none) × IsUnique m

  pub insert-IsUnique : (k : K) (v : V) (m : List (K × V)) → IsUnique m → IsUnique (insert k v m)
  unfolding IsUnique insert lookup
  insert-IsUnique k v [] u = (refl, tt)
  insert-IsUnique k v ((j, w) ∷ m) (absent, u) =
      ground (arith, e.beq_iff j k, e.beq_iff k j, lookup-insert k j v m, insert-IsUnique k v m u)

  pub remove-IsUnique : (k : K) (m : List (K × V)) → IsUnique m → IsUnique (remove k m)
  unfolding IsUnique remove
  remove-IsUnique k [] u = tt
  remove-IsUnique k ((j, w) ∷ m) (absent, u) =
      ground (arith, lookup-remove k j m, remove-IsUnique k m u)

  pub remove_absent : (k : K) (m : List (K × V)) → lookup k m ≡ none → remove k m ≡ m
  unfolding remove lookup
  remove_absent k [] h = refl
  remove_absent k ((j, w) ∷ m) h = ground (arith, remove_absent k m)

  pub length-insert :
      (k : K) (v : V) (m : List (K × V))
      → length (insert k v m) ≡ (if is_some (lookup k m) then length m else suc (length m))
  unfolding insert lookup
  length-insert k v [] = refl
  length-insert k v ((j, w) ∷ m) = ground (arith, length-insert k v m)

  pub length-remove :
      (k : K) (m : List (K × V))
      → IsUnique m
      → length m ≡ (if is_some (lookup k m) then suc (length (remove k m)) else length (remove k m))
  unfolding IsUnique remove lookup
  length-remove k [] u = refl
  length-remove k ((j, w) ∷ m) (absent, u) =
      ground (arith, e.beq_iff j k, remove_absent k m, length-remove k m u)

  -- The entries of a map are its lookups.
  pub lookup-In : (k : K) (v : V) (m : List (K × V)) → lookup k m ≡ some v → In (k, v) m
  unfolding lookup
  lookup-In k v [] h = absurd (cc)
  lookup-In k v ((j, w) ∷ m) h = elim (Bool-cases (e.beq j k)) [
    | inl same ↦ inl (ground (arith, e.beq_iff j k))
    | inr other ↦ inr (lookup-In k v m (ground arith))
  ]

  pub In-lookup :
      (k : K) (v : V) (m : List (K × V)) → IsUnique m → In (k, v) m → lookup k m ≡ some v
  unfolding lookup IsUnique
  In-lookup k v [] u i = absurd i
  In-lookup k v ((j, w) ∷ m) (absent, u) (inl at) = ground (arith, e.beq_iff j k)
  In-lookup k v ((j, w) ∷ m) (absent, u) (inr later) =
      let found = In-lookup k v m u later in ground (arith, e.beq_iff j k)
