-- ===== src/Sync/Store.antt =====
-- src/sync.rs, `SyncStore`: the operations kept by last-write-wins, and their copies in blobs.
use cyberfly_rust_node.Common.{
  ℕ, suc, Bool, true, false, ◌&&◌, Option, none, some, List, [], ◌∷◌, ◌++◌, if◌then◌else◌,
}
use cyberfly_rust_node.Common.Int.{ℤ, ltb_ℤ, eqb_ℤ}
use cyberfly_rust_node.Common.Text.{Str, codes, str_leb}
use cyberfly_rust_node.Common.Assoc.{lookup, insert, contains, add, str_key}
use cyberfly_rust_node.Common.Result.{Result, ok, err}
use cyberfly_rust_node.Crypto.{CryptoLib}
use cyberfly_rust_node.Sync.Operation.{
  F64, SignedOperation, SyncError, document_failed, serialize_failed, blob_failed, verify, crdt_key,
}

abbrev pub Hash : Type 0
Hash = ℕ

abbrev pub Operations : Type 0
Operations = List (Str × (ℤ × SignedOperation))

-- What the crates `automerge`, `serde_json` and `iroh_blobs` provide, over their document and their
-- blob store. `none` is an error, which leaves the document or the store as it was.
pub record Externals (Doc Fs : Type 0) : Type 0 where
  pub lib : CryptoLib
  pub put_int : Doc → Str → ℤ → Option Doc
  pub put_str : Doc → Str → Str → Option Doc
  pub save_doc : Doc → List ℕ
  pub load_incremental : Doc → List ℕ → Option Doc
  pub op_to_json : SignedOperation → Option (List ℕ)
  pub op_from_json : List ℕ → Option SignedOperation
  pub index_to_json : List (Str × Hash) → Option (List ℕ)
  pub index_from_json : List ℕ → Option (List (Str × Hash))
  pub set_to_json : List Str → Option (List ℕ)
  pub set_from_json : List ℕ → Option (List Str)
  pub add_bytes : Fs → List ℕ → Option (Hash × Fs)
  pub get_bytes : Fs → Hash → Option (List ℕ)
  -- serde_json::from_str of stream fields: the texts under "key" and "value" of each element
  pub parse_fields : Str → Option (List (Option Str × Option Str))
  -- str::parse::<f64>
  pub parse_f64 : Str → Option F64

pub record SyncStore (Doc Fs : Type 0) : Type 0 where
  pub operations : Operations
  pub crdt_doc : Doc
  pub store : Option Fs
  pub operation_index : List (Str × Hash)
  pub applied_ops : List Str

-- The clock's readings during a call, one for each verification.
abbrev pub Clock : Type 0
Clock = ℕ → Option ℕ

-- The early returns of `add_operation_to_memory`: what is stored at the key is as new or newer.
unfoldable pub is_stale : SignedOperation → Option (ℤ × SignedOperation) → Bool
is_stale op none = false
is_stale op (some (existing_ts, existing_op)) =
    if ltb_ℤ op.timestamp existing_ts
    then true
    else eqb_ℤ op.timestamp existing_ts && str_leb op.op_id existing_op.op_id

-- `if added { merged_count += 1 }`
abbrev pub bump : Bool → ℕ → ℕ
bump true n = suc n
bump false n = n

module _ {Doc Fs : Type 0} (x : Externals Doc Fs) where
  abbrev pub Outcome : Type 0 → Type 0
  Outcome A = Result SyncError A × SyncStore Doc Fs

  -- SyncStore::new and with_store
  unfoldable pub new_store : Doc → Option Fs → SyncStore Doc Fs
  new_store doc store = record {
    operations = [];
    crdt_doc = doc;
    store = store;
    operation_index = [];
    applied_ops = [];
  }

  unfoldable pub is_applied : Str → SyncStore Doc Fs → Bool
  is_applied op_id s = contains op_id s.applied_ops

  unfoldable pub mark_applied : Str → SyncStore Doc Fs → SyncStore Doc Fs
  mark_applied op_id s = record s { applied_ops = add op_id s.applied_ops }

  -- The three writes to the document, each of which may fail, and the insertion.
  unfoldable pub record_operation : SignedOperation → SyncStore Doc Fs → Outcome Bool
  record_operation op s =
      let key = crdt_key op in
      elim (x.put_int s.crdt_doc key op.timestamp) [
        | none ↦ (err document_failed, s)
        | some d₁ ↦ elim (x.put_str d₁ (key ++ codes ":op_id") op.op_id) [
          | none ↦ (err document_failed, record s { crdt_doc = d₁ })
          | some d₂ ↦ elim (x.put_str d₂ (key ++ codes ":value") op.value) [
            | none ↦ (err document_failed, record s { crdt_doc = d₂ })
            | some d₃ ↦ (
              ok true,
              record s { crdt_doc = d₃; operations = insert key (op.timestamp, op) s.operations },
            )
          ]
        ]
      ]

  unfoldable pub add_operation_to_memory_unverified :
      SignedOperation → SyncStore Doc Fs → Outcome Bool
  add_operation_to_memory_unverified op s =
      if is_stale op (lookup (crdt_key op) s.operations)
      then (ok false, s)
      else record_operation op s

  unfoldable pub add_operation_to_memory :
      Option ℕ → SignedOperation → SyncStore Doc Fs → Outcome Bool
  add_operation_to_memory now op s = elim (verify x.lib now op) [
    | err e ↦ (err e, s)
    | ok _ ↦ add_operation_to_memory_unverified op s
  ]

  unfoldable pub persist_operation : SignedOperation → SyncStore Doc Fs → Outcome (Option Hash)
  persist_operation op s = elim s.store [
    | none ↦ (ok none, s)
    | some fs ↦ elim (x.op_to_json op) [
      | none ↦ (err serialize_failed, s)
      | some json ↦ elim (x.add_bytes fs json) [
        | none ↦ (err blob_failed, s)
        | some (hash, fs') ↦ (
          ok (some hash),
          record s { store = some fs'; operation_index = insert op.op_id hash s.operation_index },
        )
      ]
    ]
  ]

  -- A failure to persist is logged and dropped.
  abbrev persist_added : SignedOperation → Outcome Bool → Outcome Bool
  persist_added op (ok true, s) = (ok true, (persist_operation op s).1)
  persist_added op (ok false, s) = (ok false, s)
  persist_added op (err e, s) = (err e, s)

  unfoldable pub add_operation : Option ℕ → SignedOperation → SyncStore Doc Fs → Outcome Bool
  add_operation now op s = persist_added op (add_operation_to_memory now op s)

  -- The loop of merge_operations: an error ends it.
  unfoldable pub merge_loop : Clock → ℕ → ℕ → List SignedOperation → SyncStore Doc Fs → Outcome ℕ
  merge_loop clock i merged [] s = (ok merged, s)
  merge_loop clock i merged (op ∷ ops) s =
      let (r, s') = add_operation (clock i) op s in
      elim r [
        | ok added ↦ merge_loop clock (suc i) (bump added merged) ops s'
        | err e ↦ (err e, s')
      ]

  unfoldable pub merge_operations : Clock → List SignedOperation → SyncStore Doc Fs → Outcome ℕ
  merge_operations clock ops s = merge_loop clock 0 0 ops s
