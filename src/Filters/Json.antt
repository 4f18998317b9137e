-- ===== src/Filters/Json.antt =====
-- src/filters.rs, `JsonFilter`: documents that meet conditions, sorted and in pages.
use Prim.Native.Nat.{Ordering}
use cyberfly_rust_node.Common.{
  ℕ, Bool, true, false, not, ◌&&◌, ◌||◌, Option, none, some, List, [], ◌∷◌, ◌==◌, if◌then◌else◌,
  unwrap_or, take, drop,
}
use cyberfly_rust_node.Common.Float.{Float}
use cyberfly_rust_node.Common.Lists.{sort_by}
use cyberfly_rust_node.Common.Text.{Str, str_eq, str_leb, str_contains}
use cyberfly_rust_node.Common.Result.{Result, ok, err}
use cyberfly_rust_node.Storage.Core.{StorageError, Backend, BlobStorage, Outcome}
use cyberfly_rust_node.Storage.Documents.{get_json}
use cyberfly_rust_node.Storage.Entries.{scan_keys}

-- What serde_json tells of a document. `number` is `as_f64().unwrap_or(0.0)` of a number and `same` is
-- `==`; `set_key` inserts the field `_key` into an object and leaves the rest as it is.
pub record JsonView (J F : Type 0) : Type 0 where
  pub number : J → Option F
  pub text : J → Option Str
  pub boolean : J → Option Bool
  pub get : J → Str → Option J
  pub same : J → J → Bool
  pub set_key : Str → J → J

pub data FilterCondition (J : Type 0) : Type 0 where
  eq ne gt gte lt lte : J → FilterCondition J
  contains : Str → FilterCondition J
  in_ : List J → FilterCondition J

pub data SortOrder : Type 0 where
  asc desc : SortOrder

pub record FilterOptions : Type 0 where
  pub limit : Option ℕ
  pub offset : Option ℕ
  pub sort_field : Option Str
  pub sort_order : SortOrder

-- The fields with their conditions, in the order in which they were added.
abbrev pub JsonFilterConditions : Type 0 → Type 0
JsonFilterConditions J = List (Str × FilterCondition J)

unfoldable pub add_condition :
    {J : Type 0} → Str → FilterCondition J → JsonFilterConditions J → JsonFilterConditions J
add_condition field condition [] = (field, condition) ∷ []
add_condition field condition (c ∷ conditions) = c ∷ add_condition field condition conditions

abbrev pub is_empty : {A : Type 0} → List A → Bool
is_empty [] = true
is_empty (_ ∷ _) = false

-- `split`: an empty text has one empty part.
abbrev with_head : ℕ → List Str → List Str
with_head c [] = (c ∷ []) ∷ []
with_head c (part ∷ parts) = (c ∷ part) ∷ parts

unfoldable pub split : ℕ → Str → List Str
split sep [] = [] ∷ []
split sep (c ∷ s) = let parts = split sep s in if c == sep then [] ∷ parts else with_head c parts

abbrev pub reverse : Ordering → Ordering
reverse Ordering.lt = Ordering.gt
reverse Ordering.eq = Ordering.eq
reverse Ordering.gt = Ordering.lt

abbrev pub is_greater : Ordering → Bool
is_greater Ordering.gt = true
is_greater _ = false

abbrev is_less : Ordering → Bool
is_less Ordering.lt = true
is_less _ = false

abbrev compare_str : Str → Str → Ordering
compare_str a b =
    if str_eq a b then Ordering.eq else if str_leb a b then Ordering.lt else Ordering.gt

abbrev compare_bool : Bool → Bool → Ordering
compare_bool false true = Ordering.lt
compare_bool true false = Ordering.gt
compare_bool true true = Ordering.eq
compare_bool false false = Ordering.eq

module _ {J F : Type 0} (fl : Float F) (v : JsonView J F) where
  -- partial_cmp, where a NaN counts as equal.
  abbrev compare_f64 : F → F → Ordering
  compare_f64 a b =
      if fl.ltb a b then Ordering.lt else if fl.ltb b a then Ordering.gt else Ordering.eq

  abbrev both : {A : Type 0} → (A → A → Ordering) → Option A → Option A → Ordering → Ordering
  both compare (some a) (some b) other = compare a b
  both compare (some a) none other = other
  both compare none _ other = other

  -- Values of two kinds, and lists, objects and nulls, count as equal.
  unfoldable pub compare_json : J → J → Ordering
  compare_json a b = both compare_f64 (v.number a) (v.number b) (
      both compare_str (v.text a) (v.text b)
        (both compare_bool (v.boolean a) (v.boolean b) Ordering.eq))

  unfoldable pub walk : List Str → J → Option J
  walk [] current = some current
  walk (part ∷ parts) current = elim (v.get current part) [
    | none ↦ none
    | some value ↦ walk parts value
  ]

  unfoldable pub get_nested_field : J → Str → Option J
  get_nested_field doc field = walk (split b'.' field) doc

  abbrev is_in : J → List J → Bool
  is_in val [] = false
  is_in val (w ∷ values) = v.same w val || is_in val values

  abbrev text_contains : Option Str → Str → Bool
  text_contains none s = false
  text_contains (some t) s = str_contains t s

  unfoldable pub matches_condition : Option J → FilterCondition J → Bool
  matches_condition none condition = false
  matches_condition (some val) (eq target) = v.same val target
  matches_condition (some val) (ne target) = not (v.same val target)
  matches_condition (some val) (gt target) = is_greater (compare_json val target)
  matches_condition (some val) (gte target) = not (is_less (compare_json val target))
  matches_condition (some val) (lt target) = is_less (compare_json val target)
  matches_condition (some val) (lte target) = not (is_greater (compare_json val target))
  matches_condition (some val) (contains s) = text_contains (v.text val) s
  matches_condition (some val) (in_ values) = is_in val values

  unfoldable pub matches_conditions : J → JsonFilterConditions J → Bool
  matches_conditions doc [] = true
  matches_conditions doc ((field, condition) ∷ conditions) =
      matches_condition (get_nested_field doc field) condition && matches_conditions doc conditions

  abbrev compare_fields : Option J → Option J → Ordering
  compare_fields (some a) (some b) = compare_json a b
  compare_fields (some a) none = Ordering.gt
  compare_fields none (some b) = Ordering.lt
  compare_fields none none = Ordering.eq

  abbrev ordered : SortOrder → Ordering → Ordering
  ordered asc o = o
  ordered desc o = reverse o

  unfoldable pub compare_values : Str → SortOrder → J → J → Ordering
  compare_values sort_field sort_order a b =
      ordered sort_order
        (compare_fields (get_nested_field a sort_field) (get_nested_field b sort_field))

  unfoldable pub sorted : FilterOptions → List J → List J
  sorted options docs = elim options.sort_field [
    | none ↦ docs
    | some field ↦
        sort_by (λ a b. not (is_greater (compare_values field options.sort_order a b))) docs
  ]

abbrev pub at_most : {A : Type 0} → Option ℕ → List A → List A
at_most none docs = docs
at_most (some n) docs = take n docs

unfoldable pub page : {A : Type 0} → FilterOptions → List A → List A
page options docs = at_most options.limit (drop (unwrap_or options.offset 0) docs)

module _ {J F Fs Cache : Type 0} (x : Backend J Fs Cache) (fl : Float F) (v : JsonView J F) where
  -- A document that meets the conditions, with its key.
  abbrev pub hit : JsonFilterConditions J → Str → Str → Option J
  hit conditions key json_str = elim (x.parse_json json_str) [
    | none ↦ none
    | some doc ↦ if matches_conditions fl v doc conditions then some (v.set_key key doc) else none
  ]

  abbrev pub collected :
      JsonFilterConditions J → Str → Result StorageError (Option Str) → List J → List J
  collected conditions key (ok (some json_str)) rest = elim (hit conditions key json_str) [
    | none ↦ rest
    | some doc ↦ doc ∷ rest
  ]
  collected conditions key (ok none) rest = rest
  collected conditions key (err e) rest = rest

  unfoldable pub collect :
      JsonFilterConditions J → ℕ → List Str → BlobStorage Fs Cache → List J × BlobStorage Fs Cache
  collect conditions now [] s = ([], s)
  collect conditions now (key ∷ keys) s =
      let (r, s') = get_json x now key s in
      let (rest, s'') = collect conditions now keys s' in (collected conditions key r rest, s'')

  unfoldable pub filter_across_keys :
      (regex : Str → Option (Str → Bool))
      → Str
      → JsonFilterConditions J
      → FilterOptions
      → ℕ
      → BlobStorage Fs Cache
      → Outcome x (List J)
  filter_across_keys regex pattern conditions options now s = elim (scan_keys x regex pattern s) [
    | err e ↦ (err e, s)
    | ok keys ↦
        let (docs, s') = collect conditions now keys s in
        if is_empty keys then (ok [], s) else (ok (page options (sorted fl v options docs)), s')
  ]
