-- ===== src/Sync/Saved.antt =====
-- Concrete blobs for src/sync.rs, and the theorems applied to them.
use cyberfly_rust_node.Common.{
  ℕ, zero, suc, ◌≡◌, refl, Option, none, some, List, [], ◌∷◌, ◌++◌, arith, length,
}
use cyberfly_rust_node.Common.Text.{Str, codes}
use cyberfly_rust_node.Common.Assoc.{lookup, contains, str_key}
use cyberfly_rust_node.Sync.Store.{Hash, Externals, SyncStore}
use cyberfly_rust_node.Sync.Blobs.{save_bytes, save_index, save_applied_index}
use cyberfly_rust_node.Sync.Persist.{IsFaithful}
use cyberfly_rust_node.Sync.Blobs.{load_index, load_applied_index}
use cyberfly_rust_node.Sync.Startup.{save_indexes_to_storage, load-save_indexes_to_storage}
use cyberfly_rust_node.Sync.Tests.{ext}
use cyberfly_rust_node.Sync.Replies.{held}

-- A blob store is the list of its blobs. An index of one entry and the set of one identifier have
-- a text.
abbrev append_bytes : List (List ℕ) → List ℕ → Option (ℕ × List (List ℕ))
append_bytes fs b = some (length fs, fs ++ b ∷ [])

abbrev blob_at : List (List ℕ) → ℕ → Option (List ℕ)
blob_at [] h = none
blob_at (b ∷ fs) zero = some b
blob_at (b ∷ fs) (suc h) = blob_at fs h

blob_at-append : (fs : List (List ℕ)) (b : List ℕ) → blob_at (fs ++ b ∷ []) (length fs) ≡ some b
blob_at-append [] b = refl
blob_at-append (c ∷ fs) b = blob_at-append fs b

abbrev index_text : List (Str × Hash) → Option (List ℕ)
index_text [] = none
index_text ((k, h) ∷ []) = some (h ∷ k)
index_text ((k, h) ∷ e ∷ i) = none

abbrev text_index : List ℕ → Option (List (Str × Hash))
text_index [] = none
text_index (h ∷ k) = some ((k, h) ∷ [])

abbrev set_text : List Str → Option (List ℕ)
set_text [] = none
set_text (k ∷ []) = some k
set_text (k ∷ j ∷ i) = none

abbrev text_set : List ℕ → Option (List Str)
text_set k = some (k ∷ [])

abbrev faithful_ext : Externals ℕ (List (List ℕ))
faithful_ext = record ext {
  index_to_json = index_text;
  index_from_json = text_index;
  set_to_json = set_text;
  set_from_json = text_set;
  add_bytes = append_bytes;
  get_bytes = blob_at;
}

index_text-read :
    (index : List (Str × Hash)) (json : List ℕ)
    → index_text index ≡ some json
    → text_index json ≡ some index
index_text-read [] json e = absurd (cc)
index_text-read ((k, h) ∷ []) json e = ground arith
index_text-read ((k, h) ∷ a ∷ i) json e = absurd (cc)

set_text-read :
    (set : List Str) (json : List ℕ) → set_text set ≡ some json → text_set json ≡ some set
set_text-read [] json e = absurd (cc)
set_text-read (k ∷ []) json e = ground arith
set_text-read (k ∷ j ∷ i) json e = absurd (cc)

added_blob :
    (fs fs' : List (List ℕ)) (b : List ℕ) (h : ℕ)
    → append_bytes fs b ≡ some (h, fs')
    → blob_at fs' h ≡ some b
added_blob fs fs' b h e = ground (arith, blob_at-append fs b)

faithful : IsFaithful faithful_ext
faithful = record {
  blob = added_blob;
  index_json = λ index json e. (index, index_text-read index json e, λ k. refl);
  set_json = λ set json e. (set, set_text-read set json e, λ k. refl);
}

abbrev opened : SyncStore ℕ (List (List ℕ))
opened = record held {
  store = some [];
  operation_index = (codes "op1", 7) ∷ [];
  applied_ops = codes "op1" ∷ [];
}

-- A node that starts with the blobs of another.
blob_at-kept :
    (fs : List (List ℕ)) (b c : List ℕ) (g : ℕ)
    → blob_at fs g ≡ some c
    → blob_at (fs ++ b ∷ []) g ≡ some c
blob_at-kept [] b c g e = absurd (cc)
blob_at-kept (d ∷ fs) b c zero e = e
blob_at-kept (d ∷ fs) b c (suc g) e = blob_at-kept fs b c g e

-- A new store on the blobs that saving both indexes leaves.
abbrev starting : SyncStore ℕ (List (List ℕ))
starting = record held {
  store = some ((7 ∷ codes "op1") ∷ codes "op1" ∷ []);
  operation_index = [];
  applied_ops = [];
}

load-save_indexes_to_storage_example :
    let started = (load_applied_index faithful_ext 1 (load_index faithful_ext 0 starting).1).1 in
    ((k : Str) → lookup k started.operation_index ≡ lookup k opened.operation_index)
    × ((k : Str) → contains k started.applied_ops ≡ contains k opened.applied_ops)
unfolding save_indexes_to_storage save_index save_applied_index save_bytes
load-save_indexes_to_storage_example =
    load-save_indexes_to_storage faithful_ext faithful opened starting 0 1
      (λ fs fs' b c h g e f. ground (arith, blob_at-kept fs b c g f)) refl refl
