-- ===== src/Sync/Replies.antt =====
-- Concrete messages and exchanges for src/sync.rs, and the theorems applied to them.
use cyberfly_rust_node.Common.{
  ℕ, suc, ◌*◌, ◌<◌, ◌≡◌, refl, true, false, none, List, [], ◌∷◌, arith, length, In,
}
use cyberfly_rust_node.Common.Lists.{sort_by}
use cyberfly_rust_node.Common.Int.{pos}
use cyberfly_rust_node.Common.Text.{codes, str_eq, to_lowercase}
use cyberfly_rust_node.Common.Decimal.{IsI64}
use cyberfly_rust_node.Common.Assoc.{str_key, contains}
use cyberfly_rust_node.Common.Result.{ok, err}
use cyberfly_rust_node.Sync.Operation.{
  SignedOperation, SyncMessage, sync_response, crdt_key, field_required,
}
use cyberfly_rust_node.Sync.Store.{SyncStore, is_applied}
use cyberfly_rust_node.Sync.Query.{get_all_operations, values}
use cyberfly_rust_node.Sync.Manager.{
  StorageOps, SyncManager, apply_by_type, apply_hash, mark_and_save, apply_operation_to_storage,
  handle_sync_message, requested,
}
use cyberfly_rust_node.Sync.Lww.{op_leb}
use cyberfly_rust_node.Sync.Invariant.{IsWellFormed, handle_sync_message-IsWellFormed}
use cyberfly_rust_node.Sync.Ascending.{Ascending}
use cyberfly_rust_node.Sync.Paging.{exchange, exchange_complete}
use cyberfly_rust_node.Sync.Monotone.{Grows, handle_sync_message-Grows}
use cyberfly_rust_node.Sync.Tests.{ext, first, second, at_two}

abbrev pub held : SyncStore ℕ (List (List ℕ))
held = record {
  operations = (crdt_key first, (pos 1000, first)) ∷ [];
  crdt_doc = 3;
  store = none;
  operation_index = [];
  applied_ops = [];
}

pub held_formed : IsWellFormed held.operations
held_formed = (refl, refl, tt)

-- A storage that counts its writes.
abbrev counter : StorageOps ℕ
counter = record {
  set_string = λ k v s. (true, suc s);
  set_hash = λ k f v s. (true, suc s);
  push_list = λ k v s. (true, suc s);
  add_set = λ k v s. (true, suc s);
  add_sorted_set = λ k n v s. (true, suc s);
  set_json = λ k p v s. (true, suc s);
  xadd = λ k i p s. (true, suc s);
  ts_add = λ k t v s. (true, suc s);
  geoadd = λ k a b v s. (true, suc s);
}

abbrev node : SyncManager ℕ (List (List ℕ)) ℕ
node = record { sync_store = held; storage = 0; local_node_id = codes "n1" }

abbrev reply : SyncMessage
reply = sync_response (codes "n1") (second ∷ []) false none

handle_sync_message-Grows_example :
    Grows held.operations
      (handle_sync_message ext counter at_two reply node).1.sync_store.operations
handle_sync_message-Grows_example =
    handle_sync_message-Grows ext counter at_two reply node held_formed

handle_sync_message-IsWellFormed_example :
    IsWellFormed (handle_sync_message ext counter at_two reply node).1.sync_store.operations
handle_sync_message-IsWellFormed_example =
    handle_sync_message-IsWellFormed ext counter at_two reply node held_formed

applied : (apply_operation_to_storage ext counter first node).0 ≡ ok tt
unfolding apply_operation_to_storage apply_by_type is_applied mark_and_save str_eq to_lowercase
    contains
applied = refl

abbrev fieldless : SignedOperation
fieldless = record first { store_type = codes "Hash" }

not_applied : (apply_operation_to_storage ext counter fieldless node).0 ≡ err field_required
unfolding apply_operation_to_storage apply_by_type apply_hash is_applied mark_and_save str_eq
    to_lowercase contains
not_applied = refl

-- Two keys, the newer first.
abbrev elsewhere : SignedOperation
elsewhere = record second { key = codes "j" }

abbrev two_held : SyncStore ℕ (List (List ℕ))
two_held = record held {
  operations =
      (crdt_key elsewhere, (pos 2000, elsewhere)) ∷ (crdt_key first, (pos 1000, first)) ∷ [];
}

two_formed : IsWellFormed two_held.operations
two_formed = (refl, refl, (refl, refl, tt))

ascending : Ascending (sort_by op_leb (get_all_operations two_held))
unfolding sort_by op_leb get_all_operations values
ascending = ground arith

allowed_times : (a : SignedOperation) → In a (get_all_operations two_held) → IsI64 a.timestamp
unfolding get_all_operations values
allowed_times a m = ground arith

few : length (sort_by op_leb (requested two_held none)) < 128 * 1
unfolding sort_by op_leb requested get_all_operations values
few = ground arith

exchange_complete_example :
    exchange two_held (codes "n2") 1 none ≡ sort_by op_leb (requested two_held none)
exchange_complete_example =
    exchange_complete two_held (codes "n2") two_formed ascending allowed_times 1 none few
