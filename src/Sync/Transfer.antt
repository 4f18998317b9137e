-- ===== src/Sync/Transfer.antt =====
-- src/sync.rs, `apply_operation_to_storage`: the marks of the operations that were applied.
use cyberfly_rust_node.Common.{◌≡◌, true, false, arith}
use cyberfly_rust_node.Common.Text.{Str, str_eq_iff}
use cyberfly_rust_node.Common.Assoc.{contains-add, str_key}
use cyberfly_rust_node.Common.Result.{ok, err}
use cyberfly_rust_node.Sync.Operation.{SignedOperation, SyncError}
use cyberfly_rust_node.Sync.Store.{Externals, SyncStore, is_applied, mark_applied}
use cyberfly_rust_node.Sync.Blobs.{save_bytes, save_applied_index}
use cyberfly_rust_node.Sync.Manager.{
  StorageOps, SyncManager, mark_and_save, apply_operation_to_storage,
}

module _ {Doc Fs S : Type 0} (x : Externals Doc Fs) (st : StorageOps S) where
  mark_and_save-is_applied :
      (op_id : Str) (s : SyncStore Doc Fs) → is_applied x op_id (mark_and_save x st op_id s) ≡ true
  unfolding is_applied mark_and_save mark_applied save_applied_index save_bytes
  mark_and_save-is_applied op_id s =
      ground (arith, contains-add op_id op_id s.applied_ops, str_eq_iff op_id op_id)

  apply-is_applied :
      (op : SignedOperation) (m : SyncManager Doc Fs S)
      → (apply_operation_to_storage x st op m).0 ≡ ok tt
      → is_applied x op.op_id (apply_operation_to_storage x st op m).1.sync_store ≡ true
  unfolding apply_operation_to_storage
  apply-is_applied op m h = ground (arith, mark_and_save-is_applied op.op_id m.sync_store)

  -- Once an operation has been applied, applying it again leaves the storage and the store as they are.
  pub apply_once :
      (op : SignedOperation) (m : SyncManager Doc Fs S)
      → (apply_operation_to_storage x st op m).0 ≡ ok tt
      → apply_operation_to_storage x st op (apply_operation_to_storage x st op m).1
        ≡ (ok tt, (apply_operation_to_storage x st op m).1)
  apply_once op m h = skip (apply-is_applied op m h)
    where
      skip :
          {n : SyncManager Doc Fs S}
          → is_applied x op.op_id n.sync_store ≡ true
          → apply_operation_to_storage x st op n ≡ (ok tt, n)
      skip {n} applied = unfold apply_operation_to_storage in ground arith

  -- An operation whose application fails is not marked: the store is as before, and does not have
  -- it among the applied ones.
  pub apply_failed :
      (op : SignedOperation) (m : SyncManager Doc Fs S) (e : SyncError)
      → (apply_operation_to_storage x st op m).0 ≡ err e
      → ((apply_operation_to_storage x st op m).1.sync_store ≡ m.sync_store)
        × (is_applied x op.op_id m.sync_store ≡ false)
  unfolding apply_operation_to_storage
  apply_failed op m e h = ground arith
