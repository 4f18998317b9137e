-- ===== src/Sync/Cases.antt =====
-- Concrete merges, messages and persisted operations for src/sync.rs, and the theorems applied to them.
use cyberfly_rust_node.Common.{ℕ, suc, ◌≡◌, refl, true, none, some, [], ◌∷◌, arith, In, inl, inr}
use cyberfly_rust_node.Common.Text.{codes, str_len, str_eq, str_leb, as_bytes, ends_with}
use cyberfly_rust_node.Common.Decimal.{show_ℤ, show_ℕ}
use cyberfly_rust_node.Common.Assoc.{lookup, insert, str_key}
use cyberfly_rust_node.Common.Result.{ok, err}
use cyberfly_rust_node.Crypto.{
  verify_signature, secure_hex_decode, verify_db_name_secure, validate_timestamp,
  extract_name_from_db, before_last, public_key_hex_length,
}
use cyberfly_rust_node.Sync.Operation.{
  SignedOperation, crypto, verify, crdt_key, full_message, short_message,
}
use cyberfly_rust_node.Sync.Store.{
  is_stale, new_store, record_operation, add_operation_to_memory_unverified,
  add_operation_to_memory, persist_operation, add_operation, merge_loop, merge_operations,
}
use cyberfly_rust_node.Sync.Merge.{merge_operations_converge}
use cyberfly_rust_node.Sync.Remerge.{merge_operations_again, IsTotalDocument}
use cyberfly_rust_node.Sync.Tests.{halved, ext, first, second, at_two, merged_in_order}

swapped : (a : SignedOperation) → In a (first ∷ second ∷ []) → In a (second ∷ first ∷ [])
swapped a (inl e) = inr (inl e)
swapped a (inr (inl e)) = inl e
swapped a (inr (inr none_left)) = absurd none_left

back : (a : SignedOperation) → In a (second ∷ first ∷ []) → In a (first ∷ second ∷ [])
back a (inl e) = inr (inl e)
back a (inr (inl e)) = inl e
back a (inr (inr none_left)) = absurd none_left

apart :
    (a b : SignedOperation)
    → In a (first ∷ second ∷ [])
    → In b (first ∷ second ∷ [])
    → crdt_key a ≡ crdt_key b
    → a.timestamp ≡ b.timestamp
    → a.op_id ≡ b.op_id
    → a ≡ b
apart a b m m' k t i = ground arith

merged_in_reverse :
    (merge_operations ext at_two (second ∷ first ∷ []) (new_store ext 0 none)).0 ≡ ok 1
unfolding merge_operations merge_loop add_operation add_operation_to_memory
    add_operation_to_memory_unverified record_operation is_stale persist_operation new_store verify
    verify_signature secure_hex_decode verify_db_name_secure validate_timestamp extract_name_from_db
    before_last full_message short_message crdt_key lookup insert str_len str_eq str_leb as_bytes
    ends_with show_ℤ show_ℕ halved
merged_in_reverse = refl

merge_operations_converge_example :
    lookup
      (codes "k")
      (merge_operations ext at_two (first ∷ second ∷ []) (new_store ext 0 none)).1.operations
    ≡ lookup
        (codes "k")
        (merge_operations ext at_two (second ∷ first ∷ []) (new_store ext 0 none)).1.operations
merge_operations_converge_example =
    merge_operations_converge ext at_two at_two (first ∷ second ∷ []) (second ∷ first ∷ []) 0 0 none
      none 2 1 swapped back apart merged_in_order merged_in_reverse (codes "k")

first_valid : verify ext.lib (some 2) first ≡ ok tt
unfolding verify verify_signature secure_hex_decode verify_db_name_secure validate_timestamp
    extract_name_from_db before_last full_message short_message str_len str_eq str_leb as_bytes
    ends_with show_ℤ show_ℕ halved
first_valid = refl

second_valid : verify ext.lib (some 2) second ≡ ok tt
unfolding verify verify_signature secure_hex_decode verify_db_name_secure validate_timestamp
    extract_name_from_db before_last full_message short_message str_len str_eq str_leb as_bytes
    ends_with show_ℤ show_ℕ halved
second_valid = refl

both_valid :
    (j : ℕ) (a : SignedOperation) → In a (first ∷ second ∷ []) → verify ext.lib (at_two j) a ≡ ok tt
both_valid j a (inl e) = rw e first_valid
both_valid j a (inr (inl e)) = rw e second_valid
both_valid j a (inr (inr none_left)) = absurd none_left

merge_operations_again_example :
    merge_operations ext at_two
      (first ∷ second ∷ [])
      (merge_operations ext at_two (first ∷ second ∷ []) (new_store ext 0 none)).1
    ≡ (ok 0, (merge_operations ext at_two (first ∷ second ∷ []) (new_store ext 0 none)).1)
merge_operations_again_example =
    merge_operations_again ext at_two at_two (first ∷ second ∷ []) 0 none 2 merged_in_order
      both_valid

counts_writes : IsTotalDocument ext
counts_writes = record { ints = λ d k v. (suc d, refl); strs = λ d k v. (suc d, refl) }

first_added : (add_operation ext (some 2) first (new_store ext 0 none)).0 ≡ ok true
unfolding add_operation add_operation_to_memory add_operation_to_memory_unverified record_operation
    is_stale persist_operation new_store verify verify_signature secure_hex_decode
    verify_db_name_secure validate_timestamp extract_name_from_db before_last full_message
    short_message crdt_key lookup insert str_len str_eq str_leb as_bytes ends_with show_ℤ show_ℕ
    halved
first_added = refl

-- Signed by a key of a single digit.
abbrev forged : SignedOperation
forged = record second { public_key = codes "x" }

forged_invalid : verify ext.lib (some 2) forged ≡ err (crypto public_key_hex_length)
unfolding verify verify_signature secure_hex_decode verify_db_name_secure validate_timestamp
    extract_name_from_db before_last full_message short_message str_len str_eq str_leb as_bytes
    ends_with show_ℤ show_ℕ halved
forged_invalid = refl

first_merged : (merge_operations ext at_two (first ∷ []) (new_store ext 0 none)).0 ≡ ok 1
unfolding merge_operations merge_loop add_operation add_operation_to_memory
    add_operation_to_memory_unverified record_operation is_stale persist_operation new_store verify
    verify_signature secure_hex_decode verify_db_name_secure validate_timestamp extract_name_from_db
    before_last full_message short_message crdt_key lookup insert str_len str_eq str_leb as_bytes
    ends_with show_ℤ show_ℕ halved
first_merged = refl
