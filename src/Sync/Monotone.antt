-- ===== src/Sync/Monotone.antt =====
-- src/sync.rs: what the messages that a node is sent do to the operation at a key.
use cyberfly_rust_node.Common.{
  ℕ, suc, ◌≡◌, subst, sym, true, Option, some, List, [], ◌∷◌, arith, ◌⊎◌, inl, inr,
}
use cyberfly_rust_node.Common.Int.{ℤ}
use cyberfly_rust_node.Common.Text.{Str, str_eq_iff}
use cyberfly_rust_node.Common.Assoc.{lookup, str_key}
use cyberfly_rust_node.Common.Result.{Result-cases}
use cyberfly_rust_node.Sync.Operation.{
  SignedOperation, SyncMessage, sync_request, sync_response, operation, crdt_key,
}
use cyberfly_rust_node.Sync.Store.{
  Operations, Externals, SyncStore, Clock, record_operation, add_operation_to_memory_unverified,
  add_operation_to_memory, persist_operation, add_operation, bump, merge_loop,
}
use cyberfly_rust_node.Sync.Manager.{StorageOps, SyncManager, handle_sync_message}
use cyberfly_rust_node.Sync.Lww.{op_leb, op_leb_refl, op_leb_trans, lww_insert, Best-old}
use cyberfly_rust_node.Sync.Invariant.{
  IsWellFormed, add_operation-IsWellFormed, handle_operation-operations, handle_response-operations,
}

-- Every key of `m` holds in `n` an operation that is as new or newer.
abbrev pub Grows : Operations → Operations → Type 0
Grows m n =
    (o : SignedOperation)
    → lookup (crdt_key o) m ≡ some (o.timestamp, o)
    → (o' : SignedOperation) × (lookup (crdt_key o) n ≡ some (o'.timestamp, o'))
      × (op_leb o o' ≡ true)

Grows-refl : (m : Operations) → Grows m m
Grows-refl m o h = (o, h, op_leb_refl o)

Grows-trans :
    (l m n : Operations)
    → ((k : Str) (ts : ℤ) (o : SignedOperation) → lookup k m ≡ some (ts, o) → crdt_key o ≡ k)
    → Grows l m
    → Grows m n
    → Grows l n
Grows-trans l m n keyed g h o e =
    let (p, ep, lp) = g o e in
    let same : crdt_key p ≡ crdt_key o = keyed (crdt_key o) p.timestamp p ep in
    let (q, eq', lq) = h p (rw same ep) in (q, rw same at eq', op_leb_trans o p q lp lq)

lookup-keyed :
    (m : Operations)
    → IsWellFormed m
    → (k : Str) (ts : ℤ) (o : SignedOperation) → lookup k m ≡ some (ts, o)
    → crdt_key o ≡ k
unfolding lookup
lookup-keyed [] wf k ts o h = absurd (cc)
lookup-keyed ((j, (t, a)) ∷ m) wf k ts o h =
    ground (arith, str_eq_iff j k, lookup-keyed m wf.2 k ts o)

lww_insert-Grows : (op : SignedOperation) (m : Operations) → Grows m (lww_insert op m)
lww_insert-Grows op m o h = Best-old op o o m h (op_leb_refl o)

module _ {Doc Fs : Type 0} (x : Externals Doc Fs) where
  add_operation-lww :
      (now : Option ℕ) (op : SignedOperation) (s : SyncStore Doc Fs)
      → ((add_operation x now op s).1.operations ≡ s.operations)
        ⊎ ((add_operation x now op s).1.operations ≡ lww_insert op s.operations)
  unfolding add_operation add_operation_to_memory add_operation_to_memory_unverified
      record_operation persist_operation lww_insert
  add_operation-lww now op s = ground arith

  add_operation-Grows :
      (now : Option ℕ) (op : SignedOperation) (s : SyncStore Doc Fs)
      → Grows s.operations (add_operation x now op s).1.operations
  add_operation-Grows now op s = elim (add_operation-lww now op s) [
    | inl e ↦ subst (Grows s.operations) (sym e) (Grows-refl s.operations)
    | inr e ↦ subst (Grows s.operations) (sym e) (lww_insert-Grows op s.operations)
  ]

  merge_loop-Grows :
      (clock : Clock) (ops : List SignedOperation) (i merged : ℕ) (s : SyncStore Doc Fs)
      → IsWellFormed s.operations
      → Grows s.operations (merge_loop x clock i merged ops s).1.operations
  unfolding merge_loop
  merge_loop-Grows clock [] i merged s wf = Grows-refl s.operations
  merge_loop-Grows clock (op ∷ ops) i merged s wf =
      let s' = (add_operation x (clock i) op s).1 in
      let wf' = add_operation-IsWellFormed x (clock i) op s wf in
      let g = add_operation-Grows (clock i) op s in
      elim (Result-cases (add_operation x (clock i) op s).0) [
        | inl (added, e) ↦
            rw (e, merge_loop)
              (Grows-trans s.operations s'.operations _ (lookup-keyed s'.operations wf') g
                (merge_loop-Grows clock ops (suc i) (bump added merged) s' wf'))
        | inr (er, e) ↦ rw (e, merge_loop) g
      ]

module _ {Doc Fs S : Type 0} (x : Externals Doc Fs) (st : StorageOps S) where
  -- After a message, also one whose handling fails, every key of a well-formed store holds an
  -- operation that is as new as the one before, or newer.
  pub handle_sync_message-Grows :
      (clock : Clock) (msg : SyncMessage) (m : SyncManager Doc Fs S)
      → IsWellFormed m.sync_store.operations
      → Grows m.sync_store.operations (handle_sync_message x st clock msg m).1.sync_store.operations
  unfolding handle_sync_message
  handle_sync_message-Grows clock (sync_request r since) m wf = Grows-refl _
  handle_sync_message-Grows clock (operation op) m wf =
      elim (handle_operation-operations x st clock op m) [
        | inl e ↦ subst (Grows _) (sym e) (Grows-refl _)
        | inr e ↦ subst (Grows _) (sym e) (add_operation-Grows x (clock 1) op m.sync_store)
      ]
  handle_sync_message-Grows clock (sync_response r ops more token) m wf =
      elim (handle_response-operations x st clock r ops more token m) [
        | inl e ↦ subst (Grows _) (sym e) (Grows-refl _)
        | inr e ↦ subst (Grows _) (sym e) (merge_loop-Grows x clock ops 0 0 m.sync_store wf)
      ]
