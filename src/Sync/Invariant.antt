-- ===== src/Sync/Invariant.antt =====
-- src/sync.rs: the well-formedness of the store's entries, and the handling of messages.
use cyberfly_rust_node.Common.{
  ℕ, suc, ◌≡◌, refl, Bool, Option, List, [], ◌∷◌, arith, inl, inr, ◌⊎◌, ◌∙◌, Option-cases,
  Bool-cases,
}
use cyberfly_rust_node.Common.Text.{Str, str_eq}
use cyberfly_rust_node.Common.Assoc.{insert, str_key}
use cyberfly_rust_node.Common.Result.{Result-cases}
use cyberfly_rust_node.Sync.Operation.{
  SignedOperation, SyncMessage, sync_request, sync_response, operation, crdt_key,
}
use cyberfly_rust_node.Sync.Store.{
  Hash, Operations, Externals, SyncStore, Clock, record_operation,
  add_operation_to_memory_unverified, add_operation_to_memory, persist_operation, add_operation,
  bump, merge_loop, merge_operations, mark_applied,
}
use cyberfly_rust_node.Sync.Query.{get_all_operations}
use cyberfly_rust_node.Sync.Blobs.{
  load_operation, load_loop, load_from_blobs, save_bytes, save_applied_index,
}
use cyberfly_rust_node.Sync.Manager.{
  StorageOps, SyncManager, mark_and_save, apply_operation_to_storage, apply_all,
  apply_operations_to_storage, handle_response, handle_operation, handle_sync_message,
}

abbrev pub IsWellFormed : Operations → Type 0
IsWellFormed [] = Unit
IsWellFormed ((k, (ts, op)) ∷ m) = (crdt_key op ≡ k) × (op.timestamp ≡ ts) × IsWellFormed m

insert-IsWellFormed :
    (op : SignedOperation) (m : Operations)
    → IsWellFormed m
    → IsWellFormed (insert (crdt_key op) (op.timestamp, op) m)
unfolding insert
insert-IsWellFormed op [] h = (refl, refl, tt)
insert-IsWellFormed op ((k, (ts, o)) ∷ m) h = elim (Bool-cases (str_eq k (crdt_key op))) [
  | inl same ↦ rw same (refl, refl, h.2)
  | inr other ↦ rw other (h.0, h.1, insert-IsWellFormed op m h.2)
]

-- The map is the old one, or has the operation put in.
abbrev Put : SignedOperation → Operations → Operations → Type 0
Put op m m' = (m' ≡ m) ⊎ (m' ≡ insert (crdt_key op) (op.timestamp, op) m)

Put-IsWellFormed :
    (op : SignedOperation) {m m' : Operations} → Put op m m' → IsWellFormed m → IsWellFormed m'
Put-IsWellFormed op (inl e) h = rw e h
Put-IsWellFormed op (inr e) h = rw e (insert-IsWellFormed op _ h)

module _ {Doc Fs : Type 0} (x : Externals Doc Fs) where
  add_operation_to_memory-Put :
      (now : Option ℕ) (op : SignedOperation) (s : SyncStore Doc Fs)
      → Put op s.operations (add_operation_to_memory x now op s).1.operations
  unfolding add_operation_to_memory add_operation_to_memory_unverified record_operation
  add_operation_to_memory-Put now op s = ground arith

  pub add_operation-operations :
      (now : Option ℕ) (op : SignedOperation) (s : SyncStore Doc Fs)
      → (add_operation x now op s).1.operations ≡ (add_operation_to_memory x now op s).1.operations
  unfolding add_operation persist_operation
  add_operation-operations now op s = ground arith

  pub add_operation-IsWellFormed :
      (now : Option ℕ) (op : SignedOperation) (s : SyncStore Doc Fs)
      → IsWellFormed s.operations
      → IsWellFormed (add_operation x now op s).1.operations
  add_operation-IsWellFormed now op s h =
      rw add_operation-operations (Put-IsWellFormed op (add_operation_to_memory-Put now op s) h)

  pub merge_loop-IsWellFormed :
      (clock : Clock) (ops : List SignedOperation) (i merged : ℕ) (s : SyncStore Doc Fs)
      → IsWellFormed s.operations
      → IsWellFormed (merge_loop x clock i merged ops s).1.operations
  unfolding merge_loop
  merge_loop-IsWellFormed clock [] i merged s h = h
  merge_loop-IsWellFormed clock (op ∷ ops) i merged s h =
      let h' = add_operation-IsWellFormed (clock i) op s h in
      elim (Result-cases (add_operation x (clock i) op s).0) [
        | inl (added, e) ↦
            rw (e, merge_loop)
              (merge_loop-IsWellFormed clock ops (suc i) (bump added merged)
                (add_operation x (clock i) op s).1 h')
        | inr (er, e) ↦ rw (e, merge_loop) h'
      ]

  load_loop-IsWellFormed :
      (clock : Clock) (index : List (Str × Hash)) (i loaded : ℕ) (s : SyncStore Doc Fs)
      → IsWellFormed s.operations
      → IsWellFormed (load_loop x clock i loaded index s).1.operations
  unfolding load_loop
  load_loop-IsWellFormed clock [] i loaded s h = h
  load_loop-IsWellFormed clock ((op_id, hash) ∷ index) i loaded s h =
      elim (Result-cases (load_operation x hash s)) [
        | inr (er, e) ↦ rw (e, load_loop) (load_loop-IsWellFormed clock index i loaded s h)
        | inl (op, e) ↦
            let s' = (add_operation_to_memory x (clock i) op s).1 in
            let h' = Put-IsWellFormed op (add_operation_to_memory-Put (clock i) op s) h in
            elim (Result-cases (add_operation_to_memory x (clock i) op s).0) [
              | inl (added, r) ↦
                  rw (e, r, load_loop)
                    (load_loop-IsWellFormed clock index (suc i) (bump added loaded) s' h')
              | inr (er, r) ↦ rw (e, r, load_loop) h'
            ]
      ]

  -- Loading the operations from blobs keeps the store well formed, whatever the blobs hold.
  pub load_from_blobs-IsWellFormed :
      (clock : Clock) (s : SyncStore Doc Fs)
      → IsWellFormed s.operations
      → IsWellFormed (load_from_blobs x clock s).1.operations
  unfolding load_from_blobs
  load_from_blobs-IsWellFormed clock s h = elim (Option-cases s.store) [
    | inl e ↦ rw (e, load_from_blobs) h
    | inr (fs, e) ↦ rw (e, load_from_blobs) (load_loop-IsWellFormed clock s.operation_index 0 0 s h)
  ]

module _ {Doc Fs S : Type 0} (x : Externals Doc Fs) (st : StorageOps S) where
  apply-operations :
      (op : SignedOperation) (m : SyncManager Doc Fs S)
      → (apply_operation_to_storage x st op m).1.sync_store.operations ≡ m.sync_store.operations
  unfolding apply_operation_to_storage mark_and_save mark_applied save_applied_index save_bytes
  apply-operations op m = ground arith

  apply_all-operations :
      (ops : List SignedOperation) (m : SyncManager Doc Fs S)
      → (apply_all x st ops m).sync_store.operations ≡ m.sync_store.operations
  unfolding apply_all
  apply_all-operations [] m = refl
  apply_all-operations (op ∷ ops) m =
      apply_all-operations ops (apply_operation_to_storage x st op m).1 ∙ apply-operations op m

  pub handle_operation-operations :
      (clock : Clock) (op : SignedOperation) (m : SyncManager Doc Fs S)
      → ((handle_operation x st clock op m).sync_store.operations ≡ m.sync_store.operations)
        ⊎ ((handle_operation x st clock op m).sync_store.operations
            ≡ (add_operation x (clock 1) op m.sync_store).1.operations)
  unfolding handle_operation
  handle_operation-operations clock op m = ground (
    arith,
    apply-operations op (record m { sync_store = (add_operation x (clock 1) op m.sync_store).1 }),
  )

  pub handle_response-operations :
      (clock : Clock) (r : Str) (ops : List SignedOperation) (more : Bool) (token : Option Str)
      (m : SyncManager Doc Fs S)
      → ((handle_response x st clock r ops more token m).1.sync_store.operations
          ≡ m.sync_store.operations)
        ⊎ ((handle_response x st clock r ops more token m).1.sync_store.operations
            ≡ (merge_loop x clock 0 0 ops m.sync_store).1.operations)
  unfolding handle_response apply_operations_to_storage merge_operations
  handle_response-operations clock r ops more token m =
      let m' : SyncManager Doc Fs S = record m {
        sync_store = (merge_loop x clock 0 0 ops m.sync_store).1;
      } in
      ground (arith, apply_all-operations (get_all_operations m'.sync_store) m')

  handle_operation-IsWellFormed :
      (clock : Clock) (op : SignedOperation) (m : SyncManager Doc Fs S)
      → IsWellFormed m.sync_store.operations
      → IsWellFormed (handle_operation x st clock op m).sync_store.operations
  handle_operation-IsWellFormed clock op m h = elim (handle_operation-operations clock op m) [
    | inl e ↦ rw e h
    | inr e ↦ rw e (add_operation-IsWellFormed x (clock 1) op m.sync_store h)
  ]

  -- Handling a message keeps the store well formed, also where the handling fails.
  pub handle_sync_message-IsWellFormed :
      (clock : Clock) (msg : SyncMessage) (m : SyncManager Doc Fs S)
      → IsWellFormed m.sync_store.operations
      → IsWellFormed (handle_sync_message x st clock msg m).1.sync_store.operations
  unfolding handle_sync_message
  handle_sync_message-IsWellFormed clock (sync_request r since) m h = h
  handle_sync_message-IsWellFormed clock (operation op) m h =
      handle_operation-IsWellFormed clock op m h
  handle_sync_message-IsWellFormed clock (sync_response r ops more token) m h =
      elim (handle_response-operations clock r ops more token m) [
        | inl e ↦ rw e h
        | inr e ↦ rw e (merge_loop-IsWellFormed x clock ops 0 0 m.sync_store h)
      ]
