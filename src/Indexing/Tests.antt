-- ===== src/Indexing/Tests.antt =====
-- An index of two values, for src/indexing.rs, and the theorems applied to it.
use cyberfly_rust_node.Common.{◌≡◌, refl, ◌&&◌, ◌||◌, not, some, [], ◌∷◌, ltb, leb, length}
use cyberfly_rust_node.Common.Text.{codes, str_eq}
use cyberfly_rust_node.Common.Assoc.{contains, str_key, lookup}
use cyberfly_rust_node.Common.Unique.{IsUnique}
use cyberfly_rust_node.Indexing.Index.{
  SecondaryIndex, exact, between, Platform, insert_entry, remove_entry, accepts, query,
  would_exceed_limits,
}
use cyberfly_rust_node.Common.{List, filter, none}
use cyberfly_rust_node.Common.Assoc.{pair_key, insert, remove, add}
use cyberfly_rust_node.Common.Result.{ok, err}
use cyberfly_rust_node.Indexing.Index.{equals, new_index, new_with_limits}
use cyberfly_rust_node.Indexing.Manager.{
  Indexes, serve, drop_index, insert_into_index, create_index, Call, create, drop, insert_key,
  not_found, query_index, serve_all,
}
use cyberfly_rust_node.Indexing.Apart.{is_about, meant_all, serve_all_lem}
use cyberfly_rust_node.Indexing.Relation.{scan, query_lem, holds, entry_lem}

-- A text of n characters reads as the number n.
abbrev platform : Platform
platform = record {
  parse_f64 = λ s. some (length s);
  f64_lt = λ a b. ltb a b;
  f64_le = λ a b. leb a b;
  to_lowercase = λ s. s;
  size_of_index = 200;
  size_of_string = 24;
  size_of_set = 48;
  capacity = λ s. length s;
}

abbrev by_age : SecondaryIndex
by_age = record {
  name = codes "by_age";
  db_name = codes "db";
  field = codes "age";
  index_type = exact;
  data_ = (codes "7", codes "a" ∷ codes "b" ∷ []) ∷ (codes "42", codes "c" ∷ []) ∷ [];
  max_keys = 5;
  memory_limit_bytes = 0;
}

by_age-IsUnique : IsUnique by_age.data_
unfolding IsUnique lookup str_eq
by_age-IsUnique = (refl, (refl, tt))

query_lem_example :
    contains (codes "c") (query platform (between 2 3) by_age)
    ≡ scan (accepts platform (between 2 3)) (codes "c") by_age.data_
query_lem_example = query_lem platform (between 2 3) by_age (codes "c") by_age-IsUnique

entry_lem_example :
    (holds (codes "7") (codes "d") (insert_entry platform (codes "7") (codes "d") by_age).1 ≡ (
      holds (codes "7") (codes "d") by_age
      || (not (would_exceed_limits platform by_age)
          && (str_eq (codes "7") (codes "7") && str_eq (codes "d") (codes "d")))))
    × (holds (codes "7") (codes "d") (remove_entry (codes "7") (codes "d") by_age) ≡ (
        holds (codes "7") (codes "d") by_age
        && not (str_eq (codes "7") (codes "7") && str_eq (codes "d") (codes "d"))))
entry_lem_example = entry_lem platform (codes "7") (codes "d") by_age (codes "7") (codes "d")

abbrev no_indexes : Indexes
no_indexes = []

-- Two indexes are made, one is dropped again.
abbrev calls : List Call
calls =
    create (codes "db", codes "a") (codes "age") exact
    ∷ create (codes "db", codes "b") (codes "name") exact
    ∷ insert_key (codes "db", codes "a") (codes "7") (codes "k")
    ∷ drop (codes "db", codes "b")
    ∷ []

query_ok :
    query_index
      (codes "db")
      (codes "a")
      platform
      (equals (codes "7"))
      (serve_all platform calls no_indexes)
    ≡ ok (record { keys = codes "k" ∷ []; count = 1 })
unfolding serve_all query_index lookup serve drop_index insert_into_index create_index insert str_eq
    insert_entry would_exceed_limits new_index new_with_limits remove query add contains
query_ok = refl

serve_all_lem_example :
    (lookup (codes "db", codes "a") (serve_all platform calls no_indexes)
      ≡ meant_all platform
          (filter (is_about (codes "db", codes "a")) calls)
          (lookup (codes "db", codes "a") no_indexes))
    × (query_index
          (codes "db")
          (codes "a")
          platform
          (between 0 9)
          (serve_all platform calls no_indexes)
        ≡ (elim (meant_all platform
            (filter (is_about (codes "db", codes "a")) calls)
            (lookup (codes "db", codes "a") no_indexes)) [
              | none ↦ err (not_found (codes "a") (codes "db"))
              | some i ↦ ok (record {
                keys = query platform (between 0 9) i;
                count = length (query platform (between 0 9) i);
              })
            ]))
serve_all_lem_example =
    serve_all_lem platform calls no_indexes (codes "db") (codes "a") (between 0 9)
