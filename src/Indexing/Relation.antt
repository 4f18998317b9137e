-- ===== src/Indexing/Relation.antt =====
-- src/indexing.rs: an index as the relation of values and keys, and its queries as scans of it.
use cyberfly_rust_node.Common.{
  ◌≡◌, refl, ◌∙◌, Bool, false, ◌&&◌, ◌||◌, not, none, some, List, [], ◌∷◌, inl, inr, Option-cases,
  arith,
}
use cyberfly_rust_node.Common.Text.{Str, str_eq, str_eq_iff}
use cyberfly_rust_node.Common.Assoc.{
  lookup, insert, remove, contains, add, contains-add, lookup-insert, lookup-remove, str_key,
}
use cyberfly_rust_node.Common.Unique.{IsUnique}
use cyberfly_rust_node.Indexing.Index.{
  SecondaryIndex, QueryOperator, equals, greater_than, less_than, between, in_, contains_,
  starts_with_, Platform, keys_at, remove_key, without_key, remove_entry, extend, query_values,
  query_in, would_exceed_limits, insert_entry, accepts, query,
}

-- Some value that passes the test has the key.
unfoldable pub scan : (Str → Bool) → Str → List (Str × List Str) → Bool
scan predicate key [] = false
scan predicate key ((v, keys) ∷ m) = (predicate v && contains key keys) || scan predicate key m

contains-extend :
    (k : Str) (keys result : List Str)
    → contains k (extend keys result) ≡ (contains k keys || contains k result)
unfolding extend contains
contains-extend k [] result = refl
contains-extend k (j ∷ keys) result =
    contains-extend k keys (add j result) ∙ ground (arith, contains-add j k result)

contains-query_values :
    (predicate : Str → Bool) (k : Str) (m : List (Str × List Str)) (result : List Str)
    → contains k (query_values predicate m result) ≡ (contains k result || scan predicate k m)
unfolding query_values scan
contains-query_values predicate k [] result = ground arith
contains-query_values predicate k ((v, keys) ∷ m) result = ground (
  arith,
  contains-query_values predicate k m (extend keys result),
  contains-query_values predicate k m result,
  contains-extend k keys result,
)

scan_absent :
    (value k : Str) (m : List (Str × List Str))
    → lookup value m ≡ none
    → scan (λ v. str_eq value v) k m ≡ false
unfolding scan lookup
scan_absent value k [] h = refl
scan_absent value k ((v, keys) ∷ m) h =
    ground (arith, str_eq_iff value v, str_eq_iff v value, scan_absent value k m)

contains-keys_at :
    (value k : Str) (m : List (Str × List Str))
    → IsUnique m
    → contains k (keys_at value m) ≡ scan (λ v. str_eq value v) k m
unfolding scan lookup IsUnique contains
contains-keys_at value k [] u = refl
contains-keys_at value k ((v, keys) ∷ m) (absent, u) = ground (
  arith,
  str_eq_iff value v,
  str_eq_iff v value,
  scan_absent value k m,
  contains-keys_at value k m u,
)

scan_or :
    (p q : Str → Bool) (k : Str) (m : List (Str × List Str))
    → scan (λ v. p v || q v) k m ≡ (scan p k m || scan q k m)
unfolding scan
scan_or p q k [] = refl
scan_or p q k ((v, keys) ∷ m) = ground (arith, scan_or p q k m)

scan_none : (k : Str) (m : List (Str × List Str)) → scan (λ v. false) k m ≡ false
unfolding scan
scan_none k [] = refl
scan_none k ((v, keys) ∷ m) = scan_none k m

contains-query_in :
    (values : List Str) (k : Str) (m : List (Str × List Str)) (result : List Str)
    → IsUnique m
    → contains k (query_in values m result)
      ≡ (contains k result || scan (λ v. contains v values) k m)
unfolding query_in contains
contains-query_in [] k m result u = ground (arith, scan_none k m)
contains-query_in (value ∷ values) k m result u =
    contains-query_in values k m (extend (keys_at value m) result) u
    ∙ ground (
      arith,
      contains-extend k (keys_at value m) result,
      contains-keys_at value k m u,
      scan_or (λ v. str_eq value v) (λ v. contains v values) k m,
    )

-- In an index where no value has two entries, every query gives exactly the keys that a scan of all
-- values by the operator's test finds.
pub query_lem :
    (p : Platform) (op : QueryOperator) (i : SecondaryIndex) (k : Str)
    → IsUnique i.data_
    → contains k (query p op i) ≡ scan (accepts p op) k i.data_
unfolding query accepts
query_lem p (equals v) i k u = contains-keys_at v k i.data_ u
query_lem p (in_ values) i k u = contains-query_in values k i.data_ [] u ∙ unfold contains in refl
query_lem p (greater_than t) i k u =
    contains-query_values (accepts p (greater_than t)) k i.data_ [] ∙ unfold contains in refl
query_lem p (less_than t) i k u =
    contains-query_values (accepts p (less_than t)) k i.data_ [] ∙ unfold contains in refl
query_lem p (between a b) i k u =
    contains-query_values (accepts p (between a b)) k i.data_ [] ∙ unfold contains in refl
query_lem p (contains_ s) i k u =
    contains-query_values (accepts p (contains_ s)) k i.data_ [] ∙ unfold contains in refl
query_lem p (starts_with_ s) i k u =
    contains-query_values (accepts p (starts_with_ s)) k i.data_ [] ∙ unfold contains in refl

-- The index has the key under the value.
abbrev pub holds : Str → Str → SecondaryIndex → Bool
holds value key i = contains key (keys_at value i.data_)

contains-remove_key :
    (key k : Str) (keys : List Str)
    → contains k (remove_key key keys) ≡ (contains k keys && not (str_eq key k))
unfolding remove_key contains
contains-remove_key key k [] = refl
contains-remove_key key k (j ∷ keys) =
    ground
      (arith, str_eq_iff key j, str_eq_iff key k, str_eq_iff j k, contains-remove_key key k keys)

removed_at :
    (value key v k : Str) (keys : List Str) (m : List (Str × List Str))
    → lookup value m ≡ some keys
    → contains k (keys_at v (without_key value key keys m))
      ≡ (contains k (keys_at v m) && not (str_eq value v && str_eq key k))
removed_at value key v k keys m h =
    let kept = contains-remove_key key k keys in
    elim (remove_key key keys)
        as (λ left.
          remove_key key keys ≡ left
          → contains k (
              keys_at v
                (elim left [ [] ↦ remove value m | j ∷ others ↦ insert value (j ∷ others) m ]))
            ≡ (contains k (keys_at v m) && not (str_eq value v && str_eq key k))) [
              | [] ↦ λ e.
                  unfold contains in ground (arith, lookup-remove value v m, str_eq_iff value v)
              | j ∷ others ↦
                  λ e. ground (arith, lookup-insert value v (j ∷ others) m, str_eq_iff value v)
            ]
      refl

-- An insertion adds its pair to the relation, unless the index would exceed its limits, and a removal
-- takes its pair out; no other pair comes or goes.
pub entry_lem :
    (p : Platform) (value key : Str) (i : SecondaryIndex) (v k : Str)
    → (holds v k (insert_entry p value key i).1
        ≡ (holds v k i || (not (would_exceed_limits p i) && (str_eq value v && str_eq key k))))
      × (holds v k (remove_entry value key i)
          ≡ (holds v k i && not (str_eq value v && str_eq key k)))
unfolding insert_entry remove_entry
entry_lem p value key i v k = (
  ground (
    arith,
    lookup-insert value v (add key (keys_at value i.data_)) i.data_,
    contains-add key k (keys_at value i.data_),
    str_eq_iff value v,
  ),
  elim (Option-cases (lookup value i.data_)) [
    | inl e ↦ unfold contains in ground (arith, str_eq_iff value v)
    | inr (keys, e) ↦ ground (arith, removed_at value key v k keys i.data_ e)
  ],
)
