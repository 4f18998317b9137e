-- ===== src/Sync/Startup.antt =====
-- src/sync.rs, `SyncManager`: what is saved at intervals and loaded at the start.
use cyberfly_rust_node.Common.{ℕ, ◌≡◌, inl, inr, Option, none, some, List, arith, Option-cases}
use cyberfly_rust_node.Common.Text.{Str}
use cyberfly_rust_node.Common.Assoc.{lookup, contains, str_key}
use cyberfly_rust_node.Common.Result.{ok, err}
use cyberfly_rust_node.Sync.Operation.{SignedOperation, SyncMessage, operation}
use cyberfly_rust_node.Sync.Store.{Hash, Externals, SyncStore, Clock, Outcome}
use cyberfly_rust_node.Sync.Query.{operation_count}
use cyberfly_rust_node.Sync.Blobs.{
  load_from_blobs, save_bytes, save_index, save_applied_index, load_bytes, load_index,
  load_applied_index,
}
use cyberfly_rust_node.Sync.Persist.{IsFaithful}

pub record SyncStats : Type 0 where
  pub total_operations : ℕ
  pub node_id : Str

unfoldable pub get_stats : {Doc Fs : Type 0} → Str → SyncStore Doc Fs → SyncStats
get_stats local_node_id s = record { total_operations = operation_count s; node_id = local_node_id }

unfoldable pub create_operation_message : SignedOperation → SyncMessage
create_operation_message op = operation op

module _ {Doc Fs : Type 0} (x : Externals Doc Fs) where
  unfoldable pub load_from_storage : Clock → Hash → SyncStore Doc Fs → Outcome x ℕ
  load_from_storage clock index_hash s =
      let (r, s') = load_index x index_hash s in
      elim r [ err e ↦ (err e, s') | ok u ↦ load_from_blobs x clock s' ]

  unfoldable pub save_to_storage : SyncStore Doc Fs → Outcome x Hash
  save_to_storage s = save_index x s

  unfoldable pub save_indexes_to_storage : SyncStore Doc Fs → Outcome x (Hash × Hash)
  save_indexes_to_storage s =
      let (r, s') = save_index x s in
      let (q, s'') = save_applied_index x s' in
      elim r [
        | err e ↦ (err e, s')
        | ok ops_hash ↦ elim q [
          | err e ↦ (err e, s'')
          | ok applied_hash ↦ (ok (ops_hash, applied_hash), s'')
        ]
      ]

  -- The storage saves no index of its own: its `save_index_hash` always fails, which is only logged.
  unfoldable pub save_indexes_to_storage_with_blobstore :
      SyncStore Doc Fs → Outcome x (Hash × Hash × Option Hash)
  save_indexes_to_storage_with_blobstore s =
      let (r, s') = save_indexes_to_storage s in
      elim r [
        | err e ↦ (err e, s')
        | ok (ops_hash, applied_hash) ↦ (ok (ops_hash, applied_hash, none), s')
      ]

  -- What saving leaves for a later start, with faithful crates whose blobs stay: the store that opens
  -- the saved blobs under the two hashes has both indexes of the one that saved them, entry by entry.
  pub load-save_indexes_to_storage :
      (law : IsFaithful x) (s fresh : SyncStore Doc Fs) (ops_hash applied_hash : Hash)
      → ((fs fs' : Fs) (b c : List ℕ) (h g : Hash)
          → x.add_bytes fs b ≡ some (h, fs')
          → x.get_bytes fs g ≡ some c
          → x.get_bytes fs' g ≡ some c)
      → (save_indexes_to_storage s).0 ≡ ok (ops_hash, applied_hash)
      → fresh.store ≡ (save_indexes_to_storage s).1.store
      → let started = (load_applied_index x applied_hash (load_index x ops_hash fresh).1).1 in
        ((k : Str) → lookup k started.operation_index ≡ lookup k s.operation_index)
        × ((k : Str) → contains k started.applied_ops ≡ contains k s.applied_ops)
  unfolding save_indexes_to_storage save_index save_applied_index save_bytes load_index
      load_applied_index load_bytes
  load-save_indexes_to_storage law s fresh ops_hash applied_hash kept saved opens =
      elim (Option-cases s.store) [
        | inl none_s ↦ absurd (ground arith)
        | inr (fs, some_s) ↦ elim (Option-cases (x.index_to_json s.operation_index)) [
          | inl none_j ↦ absurd (ground arith)
          | inr (json, some_j) ↦ elim (Option-cases (x.add_bytes fs json)) [
            | inl none_a ↦ absurd (ground arith)
            | inr ((h, fs'), some_a) ↦ elim (Option-cases (x.set_to_json s.applied_ops)) [
              | inl none_k ↦ absurd (ground arith)
              | inr (text, some_k) ↦ elim (Option-cases (x.add_bytes fs' text)) [
                | inl none_b ↦ absurd (ground arith)
                | inr ((g, fs''), some_b) ↦
                    let at_h = law.blob fs fs' json h some_a in
                    let at_g = law.blob fs' fs'' text g some_b in
                    let still = kept fs' fs'' text json g h some_b at_h in
                    let (index, read, same) = law.index_json s.operation_index json some_j in
                    let (set, read_set, same_set) = law.set_json s.applied_ops text some_k in
                    (λ k. ground (arith, same k), λ k. ground (arith, same_set k))
              ]
            ]
          ]
        ]
      ]
