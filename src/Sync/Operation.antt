-- ===== src/Sync/Operation.antt =====
-- src/sync.rs: signed operations, their verification and their place in the store.
use cyberfly_rust_node.Common.{ℕ, Bool, Option, none, some, List, ◌∷◌, ◌++◌, if◌then◌else◌}
use cyberfly_rust_node.Common.Int.{ℤ}
use cyberfly_rust_node.Common.Text.{Str, as_bytes}
use cyberfly_rust_node.Common.Decimal.{show_ℤ}
use cyberfly_rust_node.Common.Result.{Result, ok, ◌>>=◌, ◌>>◌, map_err, is_ok}
use cyberfly_rust_node.Crypto.{
  CryptoError, CryptoLib, verify_db_name_secure, validate_timestamp, secure_hex_decode,
  verify_signature, max_timestamp_tolerance,
}

-- An f64 that is only passed on, by its bit pattern.
abbrev pub F64 : Type 0
F64 = ℕ

pub record SignedOperation : Type 0 where
  pub op_id : Str
  pub timestamp : ℤ
  pub db_name : Str
  pub key : Str
  pub value : Str
  pub store_type : Str
  pub field : Option Str
  pub score : Option F64
  pub json_path : Option Str
  pub stream_fields : Option Str
  pub ts_timestamp : Option Str
  pub longitude : Option F64
  pub latitude : Option F64
  pub public_key : Str
  pub signature : Str

pub data SyncMessage : Type 0 where
  sync_request : (requester : Str) (since_timestamp : Option ℤ) → SyncMessage
  sync_response :
      (requester : Str) (operations : List SignedOperation) (has_more : Bool)
      (continuation_token : Option Str)
      → SyncMessage
  operation : SignedOperation → SyncMessage

pub data SyncError : Type 0 where
  crypto invalid_public_key_hex invalid_signature_hex : CryptoError → SyncError
  document_failed serialize_failed deserialize_failed : SyncError
  blob_store_not_available blob_failed : SyncError
  field_required score_required bad_stream_fields bad_number storage_failed : SyncError

unfoldable pub full_message : SignedOperation → Str
full_message op =
    op.op_id
    ++ (b':'
        ∷ (show_ℤ op.timestamp ++ (b':' ∷ (op.db_name ++ (b':' ∷ (op.key ++ (b':' ∷ op.value)))))))

unfoldable pub short_message : SignedOperation → Str
short_message op = op.db_name ++ (b':' ∷ (op.key ++ (b':' ∷ op.value)))

-- SignedOperation::verify, with the clock's reading.
unfoldable pub verify : CryptoLib → Option ℕ → SignedOperation → Result SyncError (Unit {0})
verify lib now op = do
  map_err crypto (verify_db_name_secure lib op.db_name op.public_key)
  map_err crypto (validate_timestamp now op.timestamp (some max_timestamp_tolerance))
  key ← map_err invalid_public_key_hex (secure_hex_decode lib op.public_key)
  signature ← map_err invalid_signature_hex (secure_hex_decode lib op.signature)
  if is_ok (verify_signature lib key (as_bytes (full_message op)) signature)
      then ok tt
      else map_err crypto (verify_signature lib key (as_bytes (short_message op)) signature)

-- SignedOperation::crdt_key
unfoldable pub crdt_key : SignedOperation → Str
crdt_key op = elim op.field [
  | some f ↦ op.db_name ++ (b':' ∷ (op.key ++ (b':' ∷ f)))
  | none ↦ op.db_name ++ (b':' ∷ op.key)
]
