-- ===== src/Sync/Persist.antt =====
-- src/sync.rs: what the crates document of the blobs and texts of the saved indexes.
use cyberfly_rust_node.Common.{ℕ, ◌≡◌, some, List}
use cyberfly_rust_node.Common.Text.{Str}
use cyberfly_rust_node.Common.Assoc.{contains, lookup, str_key}
use cyberfly_rust_node.Sync.Store.{Hash, Externals}

-- What the crates document: a blob is read back under the hash that adding it gave, and the JSON text of
-- a map or set of texts reads back as one with the same entries, in whatever order.
pub record IsFaithful {Doc Fs : Type 0} (x : Externals Doc Fs) : Type 0 where
  pub blob :
      (fs fs' : Fs) (bytes : List ℕ) (h : Hash)
      → x.add_bytes fs bytes ≡ some (h, fs')
      → x.get_bytes fs' h ≡ some bytes
  pub index_json :
      (index : List (Str × Hash)) (json : List ℕ)
      → x.index_to_json index ≡ some json
      → (back : List (Str × Hash)) × (x.index_from_json json ≡ some back)
        × ((k : Str) → lookup k back ≡ lookup k index)
  pub set_json :
      (set : List Str) (json : List ℕ)
      → x.set_to_json set ≡ some json
      → (back : List Str) × (x.set_from_json json ≡ some back)
        × ((k : Str) → contains k back ≡ contains k set)
