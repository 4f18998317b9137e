-- ===== src/Indexing/Apart.antt =====
-- src/indexing.rs, IndexManager: an index depends on the calls that are about it and on nothing else.
use cyberfly_rust_node.Common.{
  ◌≡◌, ◌↔◌, refl, Bool, true, inl, inr, Option, none, some, List, [], ◌∷◌, arith, if◌then◌else◌,
  filter, Option-cases, length,
}
use cyberfly_rust_node.Common.Text.{Str}
use cyberfly_rust_node.Common.Assoc.{
  lookup, lookup-insert, lookup-remove, str_key, pair_key, pair_eqb, pair_eqb_iff,
}
use cyberfly_rust_node.Common.Result.{ok, err, Result-cases}
use cyberfly_rust_node.Indexing.Index.{
  SecondaryIndex, Platform, QueryOperator, new_index, insert_entry, remove_entry, query,
}
use cyberfly_rust_node.Indexing.Manager.{
  Indexes, Call, create, drop, insert_key, remove_key_, not_found, create_index, drop_index,
  insert_into_index, remove_from_index, query_index, serve, serve_all,
}

abbrev pub target : Call → Str × Str
target (create k field t) = k
target (drop k) = k
target (insert_key k value key) = k
target (remove_key_ k value key) = k

-- What a call means for the index that it is about, which may not exist.
abbrev pub meant : Platform → Call → Option SecondaryIndex → Option SecondaryIndex
meant p (create (db, name) field t) none = some (new_index name db field t)
meant p (create k field t) (some i) = some i
meant p (drop k) o = none
meant p (insert_key k value key) none = none
meant p (insert_key k value key) (some i) = some (insert_entry p value key i).1
meant p (remove_key_ k value key) none = none
meant p (remove_key_ k value key) (some i) = some (remove_entry value key i)

abbrev pub meant_all : Platform → List Call → Option SecondaryIndex → Option SecondaryIndex
meant_all p [] o = o
meant_all p (c ∷ calls) o = meant_all p calls (meant p c o)

abbrev pub is_about : Str × Str → Call → Bool
is_about k c = pair_eqb (target c) k

same_key : (j k : Str × Str) → (pair_eqb j k ≡ true) ↔ (j ≡ k)
same_key = pair_eqb_iff

serve_lem :
    (p : Platform) (c : Call) (m : Indexes) (k : Str × Str)
    → lookup k (serve p c m).1 ≡ (if is_about k c then meant p c (lookup k m) else lookup k m)
unfolding serve create_index drop_index insert_into_index remove_from_index
serve_lem p (create (db, name) field t) m k = elim (Option-cases (lookup (db, name) m)) [
  | inl e ↦
      ground
        (arith, same_key (db, name) k, lookup-insert (db, name) k (new_index name db field t) m)
  | inr (i, e) ↦ ground (arith, same_key (db, name) k)
]
serve_lem p (drop (db, name)) m k = elim (Option-cases (lookup (db, name) m)) [
  | inl e ↦ ground (arith, same_key (db, name) k)
  | inr (i, e) ↦ ground (arith, same_key (db, name) k, lookup-remove (db, name) k m)
]
serve_lem p (insert_key (db, name) value key) m k = elim (Option-cases (lookup (db, name) m)) [
  | inl e ↦ ground (arith, same_key (db, name) k)
  | inr (i, e) ↦ elim (Result-cases (insert_entry p value key i).0) [
    | inl (u, f) ↦
        ground (
          arith,
          same_key (db, name) k,
          lookup-insert (db, name) k (insert_entry p value key i).1 m,
        )
    | inr (r, f) ↦
        ground (
          arith,
          same_key (db, name) k,
          lookup-insert (db, name) k (insert_entry p value key i).1 m,
        )
  ]
]
serve_lem p (remove_key_ (db, name) value key) m k = elim (Option-cases (lookup (db, name) m)) [
  | inl e ↦ ground (arith, same_key (db, name) k)
  | inr (i, e) ↦
      ground (arith, same_key (db, name) k, lookup-insert (db, name) k (remove_entry value key i) m)
]

-- After any calls, the index of a database and name is what the calls about it, in their order, make
-- of the one that stood there or of none: a query answers from that index, and that it is not found
-- where there is none, whatever the calls about other indexes did.
pub serve_all_lem :
    (p : Platform) (calls : List Call) (m : Indexes) (db name : Str) (op : QueryOperator)
    → (lookup (db, name) (serve_all p calls m)
        ≡ meant_all p (filter (is_about (db, name)) calls) (lookup (db, name) m))
      × (query_index db name p op (serve_all p calls m)
          ≡ (elim (meant_all p (filter (is_about (db, name)) calls) (lookup (db, name) m)) [
            | none ↦ err (not_found name db)
            | some i ↦ ok (record { keys = query p op i; count = length (query p op i) })
          ]))
unfolding query_index serve_all
serve_all_lem p calls m db name op = let e = run calls m (db, name) in (e, ground (arith, e))
  where
    run :
        (calls : List Call) (m : Indexes) (k : Str × Str)
        → lookup k (serve_all p calls m) ≡ meant_all p (filter (is_about k) calls) (lookup k m)
    run [] m k = refl
    run (c ∷ calls) m k = ground (arith, serve_lem p c m k, run calls (serve p c m).1 k)
