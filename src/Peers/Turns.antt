-- ===== src/Peers/Turns.antt =====
-- src/peer_registry.rs, `get_diverse_peers`: one turn of its loop.
use cyberfly_rust_node.Common.{
  ℕ, zero, suc, ◌+◌, ◌%◌, ◌≡◌, ◌<◌, ◌≤◌, refl, sym, ap, subst, ◌∙◌, ◌⊎◌, inl, inr, true, Option,
  some, List, [], ◌∷◌, ◌++◌, ltb, In, arith, Bool-cases, length, get_elem?, set, length-append,
}
use Prim.Native.Nat.{min}
use cyberfly_rust_node.Common.Text.{Str}
use cyberfly_rust_node.Peers.Diverse.{remove_at, take_turns, members, are_filled}

pub In-append : {A : Type 0} (p : A) (xs ys : List A) → In p (xs ++ ys) → In p xs ⊎ In p ys
In-append p [] ys i = inr i
In-append p (x ∷ xs) ys (inl e) = inl (inl e)
In-append p (x ∷ xs) ys (inr i) = elim (In-append p xs ys i) [ inl a ↦ inl (inr a) | inr b ↦ inr b ]

pub append-In : {A : Type 0} (p : A) (xs ys : List A) → In p xs ⊎ In p ys → In p (xs ++ ys)
append-In p [] ys (inl i) = absurd i
append-In p [] ys (inr i) = i
append-In p (x ∷ xs) ys (inl (inl e)) = inl e
append-In p (x ∷ xs) ys (inl (inr i)) = inr (append-In p xs ys (inl i))
append-In p (x ∷ xs) ys (inr i) = inr (append-In p xs ys (inr i))

-- Taking the region's last peer, with the region.
removed_region :
    (rs : List (Str × List Str)) (at : ℕ) (name id : Str)
    → get_elem? rs at ≡ some (name, id ∷ [])
    → are_filled rs ≡ true
    → (are_filled (remove_at at rs) ≡ true)
      × (length (members rs) ≡ suc (length (members (remove_at at rs))))
      × In id (members rs)
      × ((p : Str) → In p (members (remove_at at rs)) → In p (members rs))
unfolding are_filled members remove_at
removed_region [] at name id e f = absurd (cc)
removed_region ((n, []) ∷ rs) zero name id e f = absurd (cc)
removed_region ((n, i ∷ []) ∷ rs) zero name id e f = (f, refl, inl (ground arith), λ p q. inr q)
removed_region ((n, i ∷ j ∷ ids) ∷ rs) zero name id e f = absurd (ground arith)
removed_region ((n, []) ∷ rs) (suc at) name id e f = absurd (cc)
removed_region ((n, i ∷ ids) ∷ rs) (suc at) name id e f =
    let (filled, size, within, sub) = removed_region rs at name id e f in
    (
      filled,
      ground (arith, length-append ids (members rs), length-append ids (members (remove_at at rs))),
      append-In id (i ∷ ids) (members rs) (inr within),
      λ p q. elim (In-append p (i ∷ ids) (members (remove_at at rs)) q) [
        | inl a ↦ append-In p (i ∷ ids) (members rs) (inl a)
        | inr b ↦ append-In p (i ∷ ids) (members rs) (inr (sub p b))
      ],
    )

-- Taking a peer of a region that has more.
popped_region :
    (rs : List (Str × List Str)) (at : ℕ) (name id next : Str) (others : List Str)
    → get_elem? rs at ≡ some (name, id ∷ next ∷ others)
    → are_filled rs ≡ true
    → (are_filled (set rs at (name, next ∷ others)) ≡ true)
      × (length (members rs) ≡ suc (length (members (set rs at (name, next ∷ others)))))
      × In id (members rs)
      × ((p : Str) → In p (members (set rs at (name, next ∷ others))) → In p (members rs))
unfolding are_filled members
popped_region [] at name id next others e f = absurd (cc)
popped_region ((n, []) ∷ rs) zero name id next others e f = absurd (cc)
popped_region ((n, i ∷ []) ∷ rs) zero name id next others e f = absurd (ground arith)
popped_region ((n, i ∷ j ∷ ids) ∷ rs) zero name id next others e f =
    let same : (i ≡ id) × ((j ≡ next) × (ids ≡ others)) =
      (ground arith, (ground arith, ground arith)) in
    (
      f,
      ap (λ u. suc (suc (length (u ++ members rs)))) same.1.1,
      inl (sym same.0),
      λ p q. elim q [
        | inl a ↦ inr (inl (a ∙ sym same.1.0))
        | inr b ↦ inr (inr (subst (λ u. In p (u ++ members rs)) (sym same.1.1) b))
      ],
    )
popped_region ((n, []) ∷ rs) (suc at) name id next others e f = absurd (cc)
popped_region ((n, i ∷ ids) ∷ rs) (suc at) name id next others e f =
    let rs' = set rs at (name, next ∷ others) in
    let (filled, size, within, sub) = popped_region rs at name id next others e f in
    (
      filled,
      ground (arith, length-append ids (members rs), length-append ids (members rs')),
      append-In id (i ∷ ids) (members rs) (inr within),
      λ p q. elim (In-append p (i ∷ ids) (members rs') q) [
        | inl a ↦ append-In p (i ∷ ids) (members rs) (inl a)
        | inr b ↦ append-In p (i ∷ ids) (members rs) (inr (sub p b))
      ],
    )

filled_at :
    (rs : List (Str × List Str)) (at : ℕ)
    → are_filled rs ≡ true
    → at < length rs
    → (name id : Str) × (ids : List Str) × (get_elem? rs at ≡ some (name, id ∷ ids))
unfolding are_filled
filled_at [] at f h = absurd (omega arith)
filled_at ((n, []) ∷ rs) at f h = absurd (cc)
filled_at ((n, i ∷ ids) ∷ rs) zero f h = (n, i, ids, refl)
filled_at ((n, i ∷ ids) ∷ rs) (suc at) f h = filled_at rs at f (omega arith)

-- What the loop gives for its arguments.
abbrev pub Gives : ℕ → List (Str × List Str) → List Str → Option (List Str) → Type 0
Gives limit rs result o =
    (out : List Str) × (o ≡ some out)
    × (length out ≡ min limit (length result + length (members rs)))
    × ((p : Str) → In p out → In p result ⊎ In p (members rs))

add_taken :
    (limit : ℕ) (rs rs' : List (Str × List Str)) (result : List Str) (id : Str)
    (o o' : Option (List Str))
    → o ≡ o'
    → length (members rs) ≡ suc (length (members rs'))
    → In id (members rs)
    → ((p : Str) → In p (members rs') → In p (members rs))
    → Gives limit rs' (result ++ id ∷ []) o'
    → Gives limit rs result o
add_taken limit rs rs' result id o o' e size within sub (out, some_out, len, from) = (
  out,
  e ∙ some_out,
  len ∙ ap (min limit) (ground (arith, length-append result (id ∷ []))),
  λ p q. elim (from p q) [
    | inl a ↦ elim (In-append p result (id ∷ []) a) [
      | inl b ↦ inl b
      | inr b ↦ elim b [
        | inl c ↦ inr (subst (λ u. In u (members rs)) (sym c) within)
        | inr c ↦ absurd c
      ]
    ]
    | inr a ↦ inr (sub p a)
  ],
)

one_turn :
    (fuel limit idx : ℕ)
    (later : (i : ℕ) (rs : List (Str × List Str)) (result : List Str)
      → are_filled rs ≡ true
      → length (members rs) < fuel
      → length result ≤ limit
      → Gives limit rs result (take_turns fuel limit i rs result))
    (r : Str × List Str) (rs : List (Str × List Str)) (result : List Str)
    → are_filled (r ∷ rs) ≡ true
    → length (members (r ∷ rs)) < suc fuel
    → length result ≤ limit
    → (name id : Str) (ids : List Str)
    → get_elem? (r ∷ rs) (idx % length (r ∷ rs)) ≡ some (name, id ∷ ids)
    → ltb (length result) limit ≡ true
    → Gives limit (r ∷ rs) result (take_turns (suc fuel) limit idx (r ∷ rs) result)
unfolding take_turns
one_turn fuel limit idx later r rs result f h l name id [] e room =
    let at = idx % length (r ∷ rs) in
    let (filled, size, within, sub) = removed_region (r ∷ rs) at name id e f in
    let rest =
      later idx (remove_at at (r ∷ rs)) (result ++ id ∷ []) filled (omega (arith, size))
        (ground (arith, length-append result (id ∷ []))) in
    add_taken limit (r ∷ rs) (remove_at at (r ∷ rs)) result id
      (take_turns (suc fuel) limit idx (r ∷ rs) result)
      (take_turns fuel limit idx (remove_at at (r ∷ rs)) (result ++ id ∷ [])) (ground arith) size
      within sub rest
one_turn fuel limit idx later r rs result f h l name id (next ∷ others) e room =
    let at = idx % length (r ∷ rs) in
    let rs' = set (r ∷ rs) at (name, next ∷ others) in
    let (filled, size, within, sub) = popped_region (r ∷ rs) at name id next others e f in
    let rest =
      later (suc idx) rs' (result ++ id ∷ []) filled (omega (arith, size))
        (ground (arith, length-append result (id ∷ []))) in
    add_taken limit (r ∷ rs) rs' result id (take_turns (suc fuel) limit idx (r ∷ rs) result)
      (take_turns fuel limit (suc idx) rs' (result ++ id ∷ [])) (ground arith) size within sub rest

pub take_turns_lem :
    (fuel limit idx : ℕ) (rs : List (Str × List Str)) (result : List Str)
    → are_filled rs ≡ true
    → length (members rs) < fuel
    → length result ≤ limit
    → Gives limit rs result (take_turns fuel limit idx rs result)
unfolding take_turns
take_turns_lem zero limit idx rs result f h l = absurd (omega arith)
take_turns_lem (suc fuel) limit idx [] result f h l =
    (result, refl, unfold members in ground arith, λ p q. inl q)
take_turns_lem (suc fuel) limit idx (r ∷ rs) result f h l =
    elim (Bool-cases (ltb (length result) limit)) [
      | inr full ↦ (result, ground arith, ground arith, λ p q. inl q)
      | inl room ↦
          let at = idx % length (r ∷ rs) in
          let (name, id, ids, e) = filled_at (r ∷ rs) at f (omega arith) in
          one_turn fuel limit idx (take_turns_lem fuel limit) r rs result f h l name id ids e room
    ]
