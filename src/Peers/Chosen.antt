-- ===== src/Peers/Chosen.antt =====
-- src/peer_registry.rs, `get_diverse_peers` as a whole.
use cyberfly_rust_node.Common.{
  ℕ, suc, ◌+◌, ◌≡◌, ◌≤◌, refl, ap, ◌∙◌, ◌⊎◌, inl, inr, true, Option, some, List, [], ◌∷◌, In, arith,
  if◌then◌else◌, Bool-cases, length, insert_sorted, length-append,
}
use Prim.Native.Nat.{min}
use cyberfly_rust_node.Common.Lists.{sort_by}
use cyberfly_rust_node.Common.Text.{Str, str_eq, str_leb}
use cyberfly_rust_node.Peers.Meta.{PeerMeta}
use cyberfly_rust_node.Peers.Registry.{PeerRegistry}
use cyberfly_rust_node.Peers.Diverse.{
  region_of, is_wanted, push_region, by_region, name_le, get_diverse_peers, members, are_filled,
}
use cyberfly_rust_node.Peers.Turns.{In-append, append-In, take_turns_lem}

-- The peers of the regions that are not excluded.
unfoldable pub wanted : Option Str → List (Str × PeerMeta) → List Str
wanted exclude [] = []
wanted exclude ((id, meta) ∷ m) =
    let rest = wanted exclude m in if is_wanted exclude meta then id ∷ rest else rest

-- Regions with the peers of others and one more.
abbrev Adds : List Str → List (Str × List Str) → List (Str × List Str) → Type 0
Adds ids rs rs' =
    (are_filled rs ≡ true → are_filled rs' ≡ true)
    × (length (members rs') ≡ length ids + length (members rs))
    × ((p : Str) → In p (members rs') → In p ids ⊎ In p (members rs))

tail_filled :
    (name : Str) (ids : List Str) (rs : List (Str × List Str))
    → are_filled ((name, ids) ∷ rs) ≡ true
    → are_filled rs ≡ true
unfolding are_filled
tail_filled name [] rs f = absurd (cc)
tail_filled name (id ∷ ids) rs f = f

cons_filled :
    (name : Str) (ids : List Str) (rs rs' : List (Str × List Str))
    → (are_filled rs ≡ true → are_filled rs' ≡ true)
    → are_filled ((name, ids) ∷ rs) ≡ true
    → are_filled ((name, ids) ∷ rs') ≡ true
unfolding are_filled
cons_filled name [] rs rs' h f = absurd (cc)
cons_filled name (id ∷ ids) rs rs' h f = h f

head-Adds :
    (name id : Str) (ids : List Str) (rs : List (Str × List Str))
    → Adds (id ∷ ids) rs ((name, id ∷ ids) ∷ rs)
unfolding are_filled members
head-Adds name id ids rs =
    (λ f. f, length-append (id ∷ ids) (members rs), λ p q. In-append p (id ∷ ids) (members rs) q)

cons-Adds :
    (new : List Str) (name : Str) (ids : List Str) (rs rs' : List (Str × List Str))
    → Adds new rs rs'
    → Adds new ((name, ids) ∷ rs) ((name, ids) ∷ rs')
unfolding members
cons-Adds new name ids rs rs' (filled, size, sub) = (
  cons_filled name ids rs rs' filled,
  ground (arith, length-append ids (members rs), length-append ids (members rs')),
  λ p q. elim (In-append p ids (members rs') q) [
    | inl a ↦ inr (append-In p ids (members rs) (inl a))
    | inr b ↦ elim (sub p b) [ inl c ↦ inl c | inr c ↦ inr (append-In p ids (members rs) (inr c)) ]
  ],
)

push-Adds :
    (region id : Str) (rs : List (Str × List Str)) → Adds (id ∷ []) rs (push_region region id rs)
unfolding push_region are_filled members
push-Adds region id [] = (λ f. refl, ground arith, λ p q. inl q)
push-Adds region id ((name, ids) ∷ rs) = elim (Bool-cases (str_eq name region)) [
  | inl same ↦
      rw same (
        tail_filled name ids rs,
        omega arith,
        λ p q. elim q [ inl a ↦ inl (inl a) | inr b ↦ inr b ],
      )
  | inr other ↦
      rw other (cons-Adds (id ∷ []) name ids rs (push_region region id rs) (push-Adds region id rs))
]

insert-Adds :
    (name id : Str) (ids : List Str) (rs : List (Str × List Str))
    → Adds (id ∷ ids) rs (insert_sorted name_le (name, id ∷ ids) rs)
insert-Adds name id ids [] = head-Adds name id ids []
insert-Adds name id ids ((n, is) ∷ rs) = elim (Bool-cases (str_leb name n)) [
  | inl first ↦ rw first (head-Adds name id ids ((n, is) ∷ rs))
  | inr later ↦ rw later (
      cons-Adds (id ∷ ids) n is rs (insert_sorted name_le (name, id ∷ ids) rs)
        (insert-Adds name id ids rs))
]

by_region-Adds :
    (exclude : Option Str) (m : List (Str × PeerMeta)) (rs : List (Str × List Str))
    → Adds (wanted exclude m) rs (by_region exclude m rs)
unfolding wanted by_region
by_region-Adds exclude [] rs = (λ f. f, omega arith, λ p q. inr q)
by_region-Adds exclude ((id, meta) ∷ m) rs = elim (Bool-cases (is_wanted exclude meta)) [
  | inr left ↦ rw left (by_region-Adds exclude m rs)
  | inl taken ↦
      let (filled, size, sub) = push-Adds (region_of meta) id rs in
      let (filled', size', sub') = by_region-Adds exclude m (push_region (region_of meta) id rs) in
      rw taken (
        λ f. filled' (filled f),
        ground arith,
        λ p q. elim (sub' p q) [
          | inl a ↦ inl (inr a)
          | inr b ↦ elim (sub p b) [
            | inl c ↦ elim c [ inl d ↦ inl (inl d) | inr d ↦ absurd d ]
            | inr c ↦ inr c
          ]
        ],
      )
]

sorted-Adds :
    (rs : List (Str × List Str))
    → are_filled rs ≡ true
    → (are_filled (sort_by name_le rs) ≡ true)
      × (length (members (sort_by name_le rs)) ≡ length (members rs))
      × ((p : Str) → In p (members (sort_by name_le rs)) → In p (members rs))
unfolding sort_by are_filled members
sorted-Adds [] f = (refl, refl, λ p q. q)
sorted-Adds ((name, []) ∷ rs) f = absurd (cc)
sorted-Adds ((name, id ∷ ids) ∷ rs) f =
    let (filled, size, sub) = sorted-Adds rs f in
    let (filled', size', sub') = insert-Adds name id ids (sort_by name_le rs) in
    (
      filled' filled,
      ground (arith, length-append ids (members rs)),
      λ p q. elim (sub' p q) [
        | inl a ↦ append-In p (id ∷ ids) (members rs) (inl a)
        | inr b ↦ append-In p (id ∷ ids) (members rs) (inr (sub p b))
      ],
    )

wanted_size :
    (exclude : Option Str) (m : List (Str × PeerMeta)) → length (wanted exclude m) ≤ length m
unfolding wanted
wanted_size exclude [] = omega arith
wanted_size exclude ((id, meta) ∷ m) = ground (arith, wanted_size exclude m)

-- The selection always ends within the turns that the model gives it. It has as many entries as the
-- limit allows of the peers whose region is not the excluded one, and each entry is one of those peers;
-- that the entries differ and take turns by region is not stated.
pub get_diverse_peers_lem :
    (exclude : Option Str) (limit : ℕ) (r : PeerRegistry)
    → (out : List Str) × (get_diverse_peers exclude limit r ≡ some out)
      × (length out ≡ min limit (length (wanted exclude r.peers)))
      × ((p : Str) → In p out → In p (wanted exclude r.peers))
unfolding get_diverse_peers
get_diverse_peers_lem exclude limit r =
    let regions = by_region exclude r.peers [] in
    let (filled, size, sub) = by_region-Adds exclude r.peers [] in
    let (filled', size', sub') = sorted-Adds regions (filled (unfold are_filled in refl)) in
    let few = wanted_size exclude r.peers in
    let none_yet : length (members []) ≡ 0 = unfold members in refl in
    let (out, ends, len, from) =
      take_turns_lem (suc (length r.peers)) limit 0 (sort_by name_le regions) [] filled'
        (omega arith) (omega arith) in
    (
      out,
      ends,
      len ∙ ap (min limit) (omega arith),
      λ p q. elim (from p q) [
        | inl a ↦ absurd a
        | inr b ↦ elim (sub p (sub' p b)) [ inl c ↦ c | inr c ↦ absurd (unfold members in c) ]
      ],
    )
