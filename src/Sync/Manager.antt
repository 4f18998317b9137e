-- ===== src/Sync/Manager.antt =====
-- src/sync.rs, `SyncManager`: the messages between nodes, and the transfer of operations into the
-- key-value storage.
use cyberfly_rust_node.Common.{
  ℕ, Bool, true, false, not, Option, none, some, List, [], ◌∷◌, ◌++◌, ltb, if◌then◌else◌, length,
  take, unwrap_or, get_last?, sort_by,
}
use cyberfly_rust_node.Common.Int.{ℤ, pos}
use cyberfly_rust_node.Common.Text.{Str, codes, str_eq, to_lowercase, strip_prefix}
use cyberfly_rust_node.Common.Decimal.{show_ℤ, parse_i64}
use cyberfly_rust_node.Common.Result.{Result, ok, err}
use cyberfly_rust_node.Sync.Operation.{
  F64, SignedOperation, SyncMessage, sync_request, sync_response, operation, SyncError,
  field_required, score_required, bad_stream_fields, bad_number, storage_failed, verify,
}
use cyberfly_rust_node.Sync.Store.{
  Externals, SyncStore, Clock, is_applied, mark_applied, add_operation, merge_operations,
}
use cyberfly_rust_node.Sync.Query.{get_all_operations, get_operations_since}
use cyberfly_rust_node.Sync.Blobs.{save_applied_index}
use cyberfly_rust_node.Sync.Lww.{op_leb}

abbrev pub max_ops_per_response : ℕ
max_ops_per_response = 128

-- The writes of the key-value storage, in the state that it keeps; `false` is an error.
pub record StorageOps (S : Type 0) : Type 0 where
  pub set_string : Str → Str → S → Bool × S
  pub set_hash : Str → Str → Str → S → Bool × S
  pub push_list : Str → Str → S → Bool × S
  pub add_set : Str → Str → S → Bool × S
  pub add_sorted_set : Str → F64 → Str → S → Bool × S
  pub set_json : Str → Str → Str → S → Bool × S
  pub xadd : Str → Str → List (Str × Str) → S → Bool × S
  pub ts_add : Str → ℤ → F64 → S → Bool × S
  pub geoadd : Str → F64 → F64 → Str → S → Bool × S

pub record SyncManager (Doc Fs S : Type 0) : Type 0 where
  pub sync_store : SyncStore Doc Fs
  pub storage : S
  pub local_node_id : Str

-- The pairs of an XADD: elements without both texts are dropped.
unfoldable pub field_pairs : List (Option Str × Option Str) → List (Str × Str)
field_pairs [] = []
field_pairs ((some k, some v) ∷ fs) = (k, v) ∷ field_pairs fs
field_pairs ((some k, none) ∷ fs) = field_pairs fs
field_pairs ((none, v) ∷ fs) = field_pairs fs

-- A node's answer to a request: the oldest operations, and where to go on.
unfoldable pub token_of : List SignedOperation → Str
token_of chunk =
    codes "ts:" ++ elim (get_last? chunk) [ none ↦ show_ℤ (pos 0) | some op ↦ show_ℤ op.timestamp ]

unfoldable pub respond : Str → List SignedOperation → SyncMessage
respond requester operations =
    let chunk = take max_ops_per_response operations in
    let has_more = ltb (length chunk) (length operations) in
    sync_response requester chunk has_more (if has_more then some (token_of chunk) else none)

unfoldable pub requested : {Doc Fs : Type 0} → SyncStore Doc Fs → Option ℤ → List SignedOperation
requested s since = elim since [ some ts ↦ get_operations_since s ts | none ↦ get_all_operations s ]

unfoldable pub answer_request : {Doc Fs : Type 0} → SyncStore Doc Fs → Str → Option ℤ → SyncMessage
answer_request s requester since = respond requester (sort_by op_leb (requested s since))

-- The next request, where the response announces more.
unfoldable pub next_request : Str → Bool → Option Str → Option SyncMessage
next_request local_id false token = none
next_request local_id true none = none
next_request local_id true (some token) = elim (strip_prefix (codes "ts:") token) [
  | none ↦ none
  | some ts_str ↦ elim (parse_i64 ts_str) [
    | none ↦ none
    | some ts ↦ some (sync_request local_id (some ts))
  ]
]

unfoldable pub request_full_sync : {Doc Fs S : Type 0} → SyncManager Doc Fs S → SyncMessage
request_full_sync m = sync_request m.local_node_id none

unfoldable pub request_incremental_sync :
    {Doc Fs S : Type 0} → ℤ → SyncManager Doc Fs S → SyncMessage
request_incremental_sync since m = sync_request m.local_node_id (some since)

module _ {Doc Fs S : Type 0} (x : Externals Doc Fs) (st : StorageOps S) where
  abbrev Manager : Type 0
  Manager = SyncManager Doc Fs S

  abbrev wrote : Bool × S → Result SyncError (Unit {0}) × S
  wrote (true, s) = (ok tt, s)
  wrote (false, s) = (err storage_failed, s)

  unfoldable pub apply_hash : SignedOperation → Str → S → Result SyncError (Unit {0}) × S
  apply_hash op full_key s = elim op.field [
    | none ↦ (err field_required, s)
    | some field ↦ wrote (st.set_hash full_key field op.value s)
  ]

  unfoldable pub apply_sorted_set : SignedOperation → Str → S → Result SyncError (Unit {0}) × S
  apply_sorted_set op full_key s = elim op.score [
    | none ↦ (err score_required, s)
    | some score ↦ wrote (st.add_sorted_set full_key score op.value s)
  ]

  unfoldable pub apply_stream : SignedOperation → Str → S → Result SyncError (Unit {0}) × S
  apply_stream op full_key s = elim op.stream_fields [
    | none ↦ (ok tt, s)
    | some fields_json ↦ elim (x.parse_fields fields_json) [
      | none ↦ (err bad_stream_fields, s)
      | some fields ↦ wrote (st.xadd full_key (codes "*") (field_pairs fields) s)
    ]
  ]

  unfoldable pub apply_timeseries : SignedOperation → Str → S → Result SyncError (Unit {0}) × S
  apply_timeseries op full_key s = elim op.ts_timestamp [
    | none ↦ (ok tt, s)
    | some ts_str ↦ elim (parse_i64 ts_str) [
      | none ↦ (err bad_number, s)
      | some timestamp ↦ elim (x.parse_f64 op.value) [
        | none ↦ (err bad_number, s)
        | some value ↦ wrote (st.ts_add full_key timestamp value s)
      ]
    ]
  ]

  unfoldable pub apply_geo : SignedOperation → Str → S → Result SyncError (Unit {0}) × S
  apply_geo op full_key s = elim op.longitude [
    | none ↦ (ok tt, s)
    | some lon ↦ elim op.latitude [
      | none ↦ (ok tt, s)
      | some lat ↦ wrote (st.geoadd full_key lon lat op.value s)
    ]
  ]

  -- The match on the store type; an unknown one is logged and passed over.
  unfoldable pub apply_by_type : SignedOperation → S → Result SyncError (Unit {0}) × S
  apply_by_type op s =
      let full_key = op.db_name ++ (b':' ∷ op.key) in
      let kind = to_lowercase op.store_type in
      if str_eq kind (codes "string")
      then wrote (st.set_string full_key op.value s)
      else if str_eq kind (codes "hash")
      then apply_hash op full_key s
      else if str_eq kind (codes "list")
      then wrote (st.push_list full_key op.value s)
      else if str_eq kind (codes "set")
      then wrote (st.add_set full_key op.value s)
      else if str_eq kind (codes "sortedset")
      then apply_sorted_set op full_key s
      else if str_eq kind (codes "json")
      then wrote (st.set_json full_key (unwrap_or op.json_path (codes "$")) op.value s)
      else if str_eq kind (codes "stream")
      then apply_stream op full_key s
      else if str_eq kind (codes "timeseries")
      then apply_timeseries op full_key s
      else if str_eq kind (codes "geo")
      then apply_geo op full_key s
      else (ok tt, s)

  -- Marking, and the copy of the marks in a blob, whose failure is logged.
  unfoldable pub mark_and_save : Str → SyncStore Doc Fs → SyncStore Doc Fs
  mark_and_save op_id s =
      let marked = mark_applied x op_id s in
      elim marked.store [ none ↦ marked | some fs ↦ (save_applied_index x marked).1 ]

  unfoldable pub apply_operation_to_storage :
      SignedOperation → Manager → Result SyncError (Unit {0}) × Manager
  apply_operation_to_storage op m =
      if is_applied x op.op_id m.sync_store
      then (ok tt, m)
      else (let (r, storage') = apply_by_type op m.storage in
          elim r [
            | err e ↦ (err e, record m { storage = storage' })
            | ok _ ↦ (
              ok tt,
              record m { storage = storage'; sync_store = mark_and_save op.op_id m.sync_store },
            )
          ])

  -- Failures are logged, one operation at a time.
  unfoldable pub apply_all : List SignedOperation → Manager → Manager
  apply_all [] m = m
  apply_all (op ∷ ops) m = apply_all ops (apply_operation_to_storage op m).1

  unfoldable pub apply_operations_to_storage : Manager → Manager
  apply_operations_to_storage m = apply_all (get_all_operations m.sync_store) m

  -- SyncMessage::SyncResponse: the merge fails as a whole, and then nothing is applied.
  unfoldable pub handle_response :
      Clock
      → Str
      → List SignedOperation
      → Bool
      → Option Str
      → Manager
      → Result SyncError (Option SyncMessage) × Manager
  handle_response clock requester operations has_more token m =
      if not (str_eq requester m.local_node_id)
      then (ok none, m)
      else (let (r, store') = merge_operations x clock operations m.sync_store in
          elim r [
            | err e ↦ (err e, record m { sync_store = store' })
            | ok merged ↦ (
              ok (next_request m.local_node_id has_more token),
              apply_operations_to_storage (record m { sync_store = store' }),
            )
          ])

  -- SyncMessage::Operation: errors are logged, and the answer is none.
  unfoldable pub handle_operation : Clock → SignedOperation → Manager → Manager
  handle_operation clock op m = elim (verify x.lib (clock 0) op) [
    | err e ↦ m
    | ok _ ↦
        let (r, store') = add_operation x (clock 1) op m.sync_store in
        let m' = record m { sync_store = store' } in
        elim r [
          | err e ↦ m'
          | ok added ↦ if added then (apply_operation_to_storage op m').1 else m'
        ]
  ]

  unfoldable pub handle_sync_message :
      Clock → SyncMessage → Manager → Result SyncError (Option SyncMessage) × Manager
  handle_sync_message clock (sync_request requester since) m =
      (ok (some (answer_request m.sync_store requester since)), m)
  handle_sync_message clock (sync_response requester operations has_more token) m =
      handle_response clock requester operations has_more token m
  handle_sync_message clock (operation op) m = (ok none, handle_operation clock op m)
