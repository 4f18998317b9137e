-- ===== src/Sync/Tests.antt =====
-- Concrete libraries, operations and stores for src/sync.rs, and the theorems applied to them.
use cyberfly_rust_node.Common.{
  ℕ, suc, ◌≡◌, refl, true, ◌&&◌, none, some, List, [], ◌∷◌, ◌++◌, leb, replicate,
}
use cyberfly_rust_node.Common.Int.{pos}
use cyberfly_rust_node.Common.Text.{Str, codes, str_len, str_eq, str_leb, as_bytes, ends_with}
use cyberfly_rust_node.Common.Decimal.{show_ℤ, show_ℕ}
use cyberfly_rust_node.Common.Assoc.{lookup, insert, str_key}
use cyberfly_rust_node.Common.Result.{ok}
use cyberfly_rust_node.Crypto.{
  CryptoLib, verify_signature, secure_hex_decode, verify_db_name_secure, validate_timestamp,
  extract_name_from_db, before_last,
}
use cyberfly_rust_node.Sync.Operation.{
  SignedOperation, verify, crdt_key, full_message, short_message,
}
use cyberfly_rust_node.Sync.Store.{
  Externals, Clock, is_stale, new_store, record_operation, add_operation_to_memory_unverified,
  add_operation_to_memory, persist_operation, add_operation, merge_loop, merge_operations,
}

-- Two hexadecimal digits make a byte.
unfoldable pub halved : Str → List ℕ
halved [] = []
halved (a ∷ []) = []
halved (a ∷ b ∷ s) = 0 ∷ halved s

abbrev pub lib : CryptoLib
lib = record {
  key_parses = λ k. true;
  key_verifies = λ k m s. true;
  hex_decode = λ s. some (halved s);
  is_alphanumeric = λ c. leb b'a' c && leb c b'z';
}

-- The document counts its writes; blobs are found by their position.
abbrev pub ext : Externals ℕ (List (List ℕ))
ext = record {
  lib = lib;
  put_int = λ d k v. some (suc d);
  put_str = λ d k v. some (suc d);
  save_doc = λ d. d ∷ [];
  load_incremental = λ d b. some d;
  op_to_json = λ op. none;
  op_from_json = λ b. none;
  index_to_json = λ i. none;
  index_from_json = λ b. none;
  set_to_json = λ s. none;
  set_from_json = λ b. none;
  add_bytes = λ fs b. none;
  get_bytes = λ fs h. none;
  parse_fields = λ s. none;
  parse_f64 = λ s. none;
}

abbrev pub owner : Str
owner = replicate 64 b'a'

abbrev pub write : Str → ℕ → Str → SignedOperation
write op_id ms value = record {
  op_id = op_id;
  timestamp = pos ms;
  db_name = codes "db-" ++ owner;
  key = codes "k";
  value = value;
  store_type = codes "String";
  field = none;
  score = none;
  json_path = none;
  stream_fields = none;
  ts_timestamp = none;
  longitude = none;
  latitude = none;
  public_key = owner;
  signature = replicate 128 b'b';
}

abbrev pub first : SignedOperation
first = write (codes "op1") 1000 (codes "value1")

abbrev pub second : SignedOperation
second = write (codes "op2") 2000 (codes "value2")

abbrev pub at_two : Clock
at_two i = some 2

pub merged_in_order :
    (merge_operations ext at_two (first ∷ second ∷ []) (new_store ext 0 none)).0 ≡ ok 2
unfolding merge_operations merge_loop add_operation add_operation_to_memory
    add_operation_to_memory_unverified record_operation is_stale persist_operation new_store verify
    verify_signature secure_hex_decode verify_db_name_secure validate_timestamp extract_name_from_db
    before_last full_message short_message crdt_key lookup insert str_len str_eq str_leb as_bytes
    ends_with show_ℤ show_ℕ halved
merged_in_order = refl
