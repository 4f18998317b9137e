-- ===== src/Filters/Hits.antt =====
-- src/filters.rs, `JsonFilter`: a filter answers the documents that meet its conditions.
use cyberfly_rust_node.Common.{ℕ, ◌≡◌, true, Option, none, some, List, [], ◌∷◌, In}
use cyberfly_rust_node.Common.Float.{Float}
use cyberfly_rust_node.Common.Text.{Str}
use cyberfly_rust_node.Common.Result.{Result, ok, err}
use cyberfly_rust_node.Storage.Core.{StorageError, Backend, BlobStorage}
use cyberfly_rust_node.Storage.Documents.{get_json}
use cyberfly_rust_node.Filters.Json.{
  JsonView, FilterCondition, JsonFilterConditions, get_nested_field, matches_condition, hit,
}

module _ {J F Fs Cache : Type 0} (x : Backend J Fs Cache) (fl : Float F) (v : JsonView J F)
    (now : ℕ) where
  -- The answers of `get_json` for the keys, one read after the other.
  abbrev pub reads : List Str → BlobStorage Fs Cache → List (Str × Result StorageError (Option Str))
  reads [] s = []
  reads (key ∷ keys) s = let (r, s') = get_json x now key s in (key, r) ∷ reads keys s'

  abbrev from_text : JsonFilterConditions J → Str → Result StorageError (Option Str) → Option J
  from_text conditions key (ok (some t)) = hit x fl v conditions key t
  from_text conditions key (ok none) = none
  from_text conditions key (err e) = none

  -- The documents that the answers give, in their order.
  abbrev pub found : JsonFilterConditions J → List (Str × Result StorageError (Option Str)) → List J
  found conditions [] = []
  found conditions ((key, r) ∷ answers) =
      let rest = found conditions answers in
      elim (from_text conditions key r) [ none ↦ rest | some d ↦ d ∷ rest ]

  -- The document of an answer, with all conditions met.
  pub record IsHit (conditions : JsonFilterConditions J)
      (answers : List (Str × Result StorageError (Option Str))) (d : J) : Type 0 where
    pub key : Str
    pub json_str : Str
    pub doc : J
    pub answered : In (key, ok (some json_str)) answers
    pub read : x.parse_json json_str ≡ some doc
    pub met :
        (field : Str) (c : FilterCondition J)
        → In (field, c) conditions
        → matches_condition fl v (get_nested_field fl v doc field) c ≡ true
    pub shown_as : d ≡ v.set_key key doc
