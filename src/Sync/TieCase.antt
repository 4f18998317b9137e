-- ===== src/Sync/TieCase.antt =====
-- 129 operations of one millisecond, for src/sync.rs, and the theorem on lost ties applied to them.
use cyberfly_rust_node.Common.{
  ℕ, zero, suc, ◌+◌, ◌≤◌, ◌<◌, ◌≡◌, refl, ap, none, some, List, [], ◌∷◌, arith, length, In, inl,
  inr, take, get_last?,
}
use native.Mathlib.Decide.{ℕ_discrete}
use cyberfly_rust_node.Common.Lists.{sort_by}
use cyberfly_rust_node.Common.Text.{codes, str_leb}
use cyberfly_rust_node.Common.Decimal.{IsI64}
use cyberfly_rust_node.Sync.Operation.{SignedOperation, crdt_key}
use cyberfly_rust_node.Sync.Store.{Operations, SyncStore}
use cyberfly_rust_node.Sync.Query.{get_all_operations, values}
use cyberfly_rust_node.Sync.Manager.{requested}
use cyberfly_rust_node.Sync.Lww.{op_leb}
use cyberfly_rust_node.Sync.Invariant.{IsWellFormed}
use cyberfly_rust_node.Sync.Paging.{exchange}
use cyberfly_rust_node.Sync.Ties.{exchange_loses_ties}
use cyberfly_rust_node.Sync.Tests.{write}

abbrev numbered : ℕ → SignedOperation
numbered n = record (write (n ∷ []) 1000 (codes "v")) { key = n ∷ [] }

-- `count` operations, from number `i` on.
abbrev batch : ℕ → ℕ → List SignedOperation
batch i zero = []
batch i (suc count) = numbered i ∷ batch (suc i) count

abbrev entries : List SignedOperation → Operations
entries [] = []
entries (op ∷ ops) = (crdt_key op, (op.timestamp, op)) ∷ entries ops

entries-IsWellFormed : (ops : List SignedOperation) → IsWellFormed (entries ops)
entries-IsWellFormed [] = tt
entries-IsWellFormed (op ∷ ops) = (refl, refl, entries-IsWellFormed ops)

abbrev tied : SyncStore ℕ ℕ
tied = record {
  operations = entries (batch 100 129);
  crdt_doc = 0;
  store = none;
  operation_index = [];
  applied_ops = [];
}

tied_sorted : sort_by op_leb (requested tied none) ≡ batch 100 129
unfolding sort_by op_leb requested get_all_operations values str_leb
tied_sorted = refl

tied_all : get_all_operations tied ≡ batch 100 129
unfolding get_all_operations values
tied_all = refl

batch-numbers :
    (i count : ℕ) (a : SignedOperation)
    → In a (batch i count)
    → (n : ℕ) × (a ≡ numbered n) × (n < i + count)
batch-numbers i zero a m = absurd m
batch-numbers i (suc count) a (inl e) = (i, e, omega arith)
batch-numbers i (suc count) a (inr m) =
    let (n, e, le) = batch-numbers (suc i) count a m in (n, e, omega arith)

batch-IsI64 : (a : SignedOperation) → In a (get_all_operations tied) → IsI64 a.timestamp
batch-IsI64 a m =
    let (n, e, le) = batch-numbers 100 129 a (rw tied_all at m) in
    let fits : IsI64 (numbered n).timestamp = omega arith in rw e fits

long : 128 < length (sort_by op_leb (requested tied none))
long = rw tied_sorted (omega arith)

last_sent : get_last? (take 128 (sort_by op_leb (requested tied none))) ≡ some (numbered 227)
last_sent = rw tied_sorted

stored : (i count n : ℕ) → i ≤ n → n < i + count → In (numbered n) (batch i count)
stored i zero n le lt = absurd (omega arith)
stored i (suc count) n le lt = elim (ℕ_discrete n i) [
  | yes e ↦ inl (ap numbered e)
  | no ne ↦ inr (stored (suc i) count n (omega arith) (omega arith))
]

unsent : ¬ In (numbered 228) (take 128 (sort_by op_leb (requested tied none)))
unsent m =
    let sent : In (numbered 228) (batch 100 128) = rw tied_sorted at m in
    let (n, e, lt) = batch-numbers 100 128 (numbered 228) sent in
    absurd (ground (arith, ap (λ (o : SignedOperation). o.op_id) e))

exchange_loses_ties_example : ¬ In (numbered 228) (exchange tied (codes "n2") 5 none)
exchange_loses_ties_example =
    exchange_loses_ties tied (codes "n2") (entries-IsWellFormed (batch 100 129)) batch-IsI64 none
      (numbered 228) (numbered 227) long last_sent
      (rw tied_all (stored 100 129 227 (omega arith) (omega arith))) refl unsent 5
