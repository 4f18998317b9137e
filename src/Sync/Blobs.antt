-- ===== src/Sync/Blobs.antt =====
-- src/sync.rs, `SyncStore`: operations and indexes are written to blobs and read back.
use cyberfly_rust_node.Common.{ℕ, suc, Option, none, some, List, [], ◌∷◌}
use cyberfly_rust_node.Common.Text.{Str}
use cyberfly_rust_node.Common.Result.{Result, ok, err}
use cyberfly_rust_node.Sync.Operation.{
  SignedOperation, SyncError, serialize_failed, deserialize_failed, blob_store_not_available,
  blob_failed,
}
use cyberfly_rust_node.Sync.Store.{
  Hash, Externals, SyncStore, Clock, Outcome, add_operation_to_memory, bump,
}

module _ {Doc Fs : Type 0} (x : Externals Doc Fs) where
  unfoldable pub load_operation : Hash → SyncStore Doc Fs → Result SyncError SignedOperation
  load_operation hash s = elim s.store [
    | none ↦ err blob_store_not_available
    | some fs ↦ elim (x.get_bytes fs hash) [
      | none ↦ err blob_failed
      | some bytes ↦ elim (x.op_from_json bytes) [ none ↦ err deserialize_failed | some op ↦ ok op ]
    ]
  ]

  -- The loop over the index: a blob that does not load is logged and passed over, an operation that
  -- is refused ends it.
  unfoldable pub load_loop : Clock → ℕ → ℕ → List (Str × Hash) → SyncStore Doc Fs → Outcome x ℕ
  load_loop clock i loaded [] s = (ok loaded, s)
  load_loop clock i loaded ((op_id, hash) ∷ index) s = elim (load_operation hash s) [
    | err e ↦ load_loop clock i loaded index s
    | ok op ↦
        let (r, s') = add_operation_to_memory x (clock i) op s in
        elim r [
          | ok added ↦ load_loop clock (suc i) (bump added loaded) index s'
          | err e ↦ (err e, s')
        ]
  ]

  unfoldable pub load_from_blobs : Clock → SyncStore Doc Fs → Outcome x ℕ
  load_from_blobs clock s = elim s.store [
    | none ↦ (ok 0, s)
    | some fs ↦ load_loop clock 0 0 s.operation_index s
  ]

  -- What save_index and save_applied_index do with the bytes that serde_json made, if it did.
  unfoldable pub save_bytes : Option (List ℕ) → SyncStore Doc Fs → Outcome x Hash
  save_bytes json s = elim s.store [
    | none ↦ (err blob_store_not_available, s)
    | some fs ↦ elim json [
      | none ↦ (err serialize_failed, s)
      | some bytes ↦ elim (x.add_bytes fs bytes) [
        | none ↦ (err blob_failed, s)
        | some (hash, fs') ↦ (ok hash, record s { store = some fs' })
      ]
    ]
  ]

  unfoldable pub save_index : SyncStore Doc Fs → Outcome x Hash
  save_index s = save_bytes (x.index_to_json s.operation_index) s

  unfoldable pub save_applied_index : SyncStore Doc Fs → Outcome x Hash
  save_applied_index s = save_bytes (x.set_to_json s.applied_ops) s

  -- The bytes of a blob, for load_index and load_applied_index.
  unfoldable pub load_bytes : Hash → SyncStore Doc Fs → Result SyncError (List ℕ)
  load_bytes hash s = elim s.store [
    | none ↦ err blob_store_not_available
    | some fs ↦ elim (x.get_bytes fs hash) [ none ↦ err blob_failed | some bytes ↦ ok bytes ]
  ]

  unfoldable pub load_index : Hash → SyncStore Doc Fs → Outcome x (Unit {0})
  load_index hash s = elim (load_bytes hash s) [
    | err e ↦ (err e, s)
    | ok bytes ↦ elim (x.index_from_json bytes) [
      | none ↦ (err deserialize_failed, s)
      | some index ↦ (ok tt, record s { operation_index = index })
    ]
  ]

  unfoldable pub load_applied_index : Hash → SyncStore Doc Fs → Outcome x (Unit {0})
  load_applied_index hash s = elim (load_bytes hash s) [
    | err e ↦ (err e, s)
    | ok bytes ↦ elim (x.set_from_json bytes) [
      | none ↦ (err deserialize_failed, s)
      | some set ↦ (ok tt, record s { applied_ops = set })
    ]
  ]

  -- SyncStore::get_crdt_state and merge_crdt_state
  unfoldable pub get_crdt_state : SyncStore Doc Fs → List ℕ
  get_crdt_state s = x.save_doc s.crdt_doc

  unfoldable pub merge_crdt_state : List ℕ → SyncStore Doc Fs → Outcome x (Unit {0})
  merge_crdt_state state s = elim (x.load_incremental s.crdt_doc state) [
    | none ↦ (err SyncError.document_failed, s)
    | some doc ↦ (ok tt, record s { crdt_doc = doc })
  ]
