-- ===== src/Sync/Ascending.antt =====
-- Operations in the order in which src/sync.rs sends them, and what a lower bound on the timestamp
-- leaves of them.
use cyberfly_rust_node.Common.{
  ℕ, suc, ◌<◌, ◌≡◌, refl, sym, Bool, true, Option, none, some, List, [], ◌∷◌, ◌++◌, arith, length,
  take, map, filter, get_last?, sort_by, In, inl, inr, Bool-cases,
}
use cyberfly_rust_node.Common.Int.{ℤ, ltb_ℤ, ◌<ℤ◌}
use cyberfly_rust_node.Common.Sort.{filter-sort_by, get_last?-cons, take-In}
use cyberfly_rust_node.Sync.Operation.{SignedOperation}
use cyberfly_rust_node.Sync.Store.{Operations, SyncStore}
use cyberfly_rust_node.Sync.Query.{
  values, operation_of, is_since, get_all_operations, get_operations_since,
}
use cyberfly_rust_node.Sync.Manager.{requested}
use cyberfly_rust_node.Sync.Lww.{op_leb}
use cyberfly_rust_node.Sync.Invariant.{IsWellFormed}

abbrev pub newer : ℤ → SignedOperation → Bool
newer t op = ltb_ℤ t op.timestamp

-- A request without a timestamp asks for all.
abbrev pub after : Option ℤ → SignedOperation → Bool
after none op = true
after (some t) op = newer t op

newer-filter :
    (t : ℤ) (m : Operations)
    → IsWellFormed m
    → map operation_of (filter (is_since t) (values m))
      ≡ filter (newer t) (map operation_of (values m))
unfolding values
newer-filter t [] h = refl
newer-filter t ((k, (ts, op)) ∷ m) h = ground (arith, newer-filter t m h.2)

filter_all : (xs : List SignedOperation) → filter (after none) xs ≡ xs
filter_all [] = refl
filter_all (x ∷ xs) = rw (filter_all xs)

newer_up : (t : ℤ) (a b : SignedOperation) → op_leb a b ≡ true → newer t a ≡ true → newer t b ≡ true
unfolding op_leb
newer_up t a b h k = ground arith

-- What is sent for a request is a filter of the whole, in order.
pub sort-requested :
    {Doc Fs : Type 0} (s : SyncStore Doc Fs) (since : Option ℤ)
    → IsWellFormed s.operations
    → sort_by op_leb (requested s since)
      ≡ filter (after since) (sort_by op_leb (get_all_operations s))
unfolding requested get_all_operations get_operations_since
sort-requested s none h = sym (filter_all _)
sort-requested s (some t) h =
    rw (newer-filter t s.operations h) (sym (filter-sort_by op_leb (newer t) (newer_up t) _))

-- Timestamps ascend strictly along the list.
abbrev AllAfter : ℤ → List SignedOperation → Type 0
AllAfter t [] = Unit
AllAfter t (x ∷ xs) = (t <ℤ x.timestamp) × AllAfter t xs

abbrev pub Ascending : List SignedOperation → Type 0
Ascending [] = Unit
Ascending (x ∷ xs) = AllAfter x.timestamp xs × Ascending xs

filter-AllAfter : (t : ℤ) (xs : List SignedOperation) → AllAfter t xs → filter (newer t) xs ≡ xs
filter-AllAfter t [] h = refl
filter-AllAfter t (x ∷ xs) h = ground (arith, filter-AllAfter t xs h.1)

AllAfter-last :
    (t : ℤ) (c d : List SignedOperation) (o : SignedOperation)
    → AllAfter t (c ++ d)
    → get_last? c ≡ some o
    → t <ℤ o.timestamp
AllAfter-last t [] d o h e = absurd (cc)
AllAfter-last t (x ∷ []) d o h e = ground arith
AllAfter-last t (x ∷ y ∷ r) d o h e = AllAfter-last t (y ∷ r) d o h.1 e

-- In an ascending list what is newer than the last of a first part is the rest.
pub newer_than_last :
    (c d : List SignedOperation) (o : SignedOperation)
    → Ascending (c ++ d)
    → get_last? c ≡ some o
    → filter (newer o.timestamp) (c ++ d) ≡ d
newer_than_last [] d o h e = absurd (cc)
newer_than_last (x ∷ []) d o h e = ground (arith, filter-AllAfter x.timestamp d h.0)
newer_than_last (x ∷ y ∷ r) d o h e =
    ground (arith, AllAfter-last x.timestamp (y ∷ r) d o h.0 e, newer_than_last (y ∷ r) d o h.1 e)

AllAfter-filter :
    (p : SignedOperation → Bool) (t : ℤ) (xs : List SignedOperation)
    → AllAfter t xs
    → AllAfter t (filter p xs)
AllAfter-filter p t [] h = h
AllAfter-filter p t (x ∷ xs) h = elim (Bool-cases (p x)) [
  | inl kept ↦ rw kept (h.0, AllAfter-filter p t xs h.1)
  | inr gone ↦ rw gone (AllAfter-filter p t xs h.1)
]

pub Ascending-filter :
    (p : SignedOperation → Bool) (xs : List SignedOperation)
    → Ascending xs
    → Ascending (filter p xs)
Ascending-filter p [] h = h
Ascending-filter p (x ∷ xs) h = elim (Bool-cases (p x)) [
  | inl kept ↦ rw kept (AllAfter-filter p x.timestamp xs h.0, Ascending-filter p xs h.1)
  | inr gone ↦ rw gone (Ascending-filter p xs h.1)
]

-- A later bound makes an earlier one superfluous.
pub filter-later :
    (since : Option ℤ) (o : SignedOperation) (xs : List SignedOperation)
    → after since o ≡ true
    → filter (newer o.timestamp) (filter (after since) xs) ≡ filter (newer o.timestamp) xs
filter-later since o [] h = refl
filter-later none o (x ∷ xs) h = rw (filter-later none o xs h)
filter-later (some t) o (x ∷ xs) h = ground (arith, filter-later (some t) o xs h)

pub last_of_take :
    (n : ℕ) (xs : List SignedOperation)
    → 0 < length xs
    → (o : SignedOperation) × (get_last? (take (suc n) xs) ≡ some o) × In o xs
last_of_take n [] h = absurd (omega arith)
last_of_take n (x ∷ xs) h =
    let (o, e, m) = get_last?-cons x (take n xs) in (o, e, take-In (suc n) o (x ∷ xs) m)
