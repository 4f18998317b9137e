-- ===== src/Sync/Merge.antt =====
-- src/sync.rs, `add_operation` and `merge_operations`: what a merge makes of the operations that it
-- is given.
use cyberfly_rust_node.Common.{
  ℕ, suc, ◌≡◌, ◌⊎◌, inl, inr, Bool, not, Option, List, [], ◌∷◌, arith, In,
}
use cyberfly_rust_node.Common.Text.{Str}
use cyberfly_rust_node.Common.Assoc.{lookup, str_key}
use cyberfly_rust_node.Common.Result.{ok, err, Result-cases}
use cyberfly_rust_node.Sync.Operation.{SignedOperation, SyncError, crdt_key, verify}
use cyberfly_rust_node.Sync.Store.{
  Externals, SyncStore, Clock, is_stale, new_store, record_operation,
  add_operation_to_memory_unverified, add_operation_to_memory, persist_operation, add_operation,
  bump, merge_loop, merge_operations,
}
use cyberfly_rust_node.Sync.Lww.{
  lww_insert, Winners, Winners-lww_insert, Winners-unique, Winners-iff, Winners-nil,
}

regroup : {P Q R : Type 0} → (P ⊎ Q) ⊎ R → P ⊎ (Q ⊎ R)
regroup (inl (inl p)) = inl p
regroup (inl (inr q)) = inr (inl q)
regroup (inr r) = inr (inr r)

ungroup : {P Q R : Type 0} → P ⊎ (Q ⊎ R) → (P ⊎ Q) ⊎ R
ungroup (inl p) = inl (inl p)
ungroup (inr (inl q)) = inl (inr q)
ungroup (inr (inr r)) = inr r

module _ {Doc Fs : Type 0} (x : Externals Doc Fs) where
  -- An operation that is taken in has a valid signature, and the store keeps the newer of it and
  -- what stood at its key; it answers whether the operation was the newer.
  pub add_operation_ok :
      (now : Option ℕ) (op : SignedOperation) (s : SyncStore Doc Fs) (added : Bool)
      → (add_operation x now op s).0 ≡ ok added
      → (verify x.lib now op ≡ ok tt)
        × ((add_operation x now op s).1.operations ≡ lww_insert op s.operations)
        × (added ≡ not (is_stale op (lookup (crdt_key op) s.operations)))
  unfolding add_operation add_operation_to_memory add_operation_to_memory_unverified
      record_operation persist_operation lww_insert
  add_operation_ok now op s added h = ground arith

  -- An operation that is refused leaves the operations as they were.
  pub add_operation_err :
      (now : Option ℕ) (op : SignedOperation) (s : SyncStore Doc Fs) (e : SyncError)
      → (add_operation x now op s).0 ≡ err e
      → (add_operation x now op s).1.operations ≡ s.operations
  unfolding add_operation add_operation_to_memory add_operation_to_memory_unverified
      record_operation persist_operation
  add_operation_err now op s e h = ground arith

  merge_loop-Winners :
      (clock : Clock) (ops : List SignedOperation) (i merged n : ℕ) (s : SyncStore Doc Fs)
      {P : SignedOperation → Type 0}
      → (merge_loop x clock i merged ops s).0 ≡ ok n
      → Winners P s.operations
      → Winners (λ a. P a ⊎ In a ops) (merge_loop x clock i merged ops s).1.operations
  unfolding merge_loop
  merge_loop-Winners clock [] i merged n s h w =
      Winners-iff (λ a. inl) (λ a. elim [ inl p ↦ p | inr q ↦ absurd q ]) w
  merge_loop-Winners clock (op ∷ ops) i merged n s {P} h w =
      elim (Result-cases (add_operation x (clock i) op s).0) [
        | inl (added, e) ↦
            let (_, stored, _) = add_operation_ok (clock i) op s added e in
            let w' : Winners (λ a. P a ⊎ (a ≡ op)) (add_operation x (clock i) op s).1.operations =
              rw stored (Winners-lww_insert op w) in
            let rest =
              merge_loop-Winners clock ops (suc i) (bump added merged) n
                (add_operation x (clock i) op s).1 (rw (e, merge_loop) at h) w' in
            rw (e, merge_loop) (Winners-iff (λ a. regroup) (λ a. ungroup) rest)
        | inr (er, e) ↦ absurd (ground arith)
      ]

  pub winners :
      (clock : Clock) (ops : List SignedOperation) (doc : Doc) (fs : Option Fs) (n : ℕ)
      → (merge_operations x clock ops (new_store x doc fs)).0 ≡ ok n
      → Winners (λ a. In a ops) (merge_operations x clock ops (new_store x doc fs)).1.operations
  unfolding merge_operations new_store
  winners clock ops doc fs n h =
      Winners-iff (λ a. elim [ inl p ↦ absurd p | inr q ↦ q ]) (λ a. inr)
        (merge_loop-Winners clock ops 0 0 n _ h Winners-nil)

module _ {Doc Fs : Type 0} (x : Externals Doc Fs) where
  -- Two new stores that merge the same operations, in any order and any number of times, end with
  -- the same operation at every key, where key, timestamp and identifier tell the operations apart
  -- and both merges run to their end.
  pub merge_operations_converge :
      (clock clock' : Clock) (ops ops' : List SignedOperation) (doc doc' : Doc) (fs fs' : Option Fs)
      (n n' : ℕ)
      → ((a : SignedOperation) → In a ops → In a ops')
      → ((a : SignedOperation) → In a ops' → In a ops)
      → ((a b : SignedOperation)
          → In a ops
          → In b ops
          → crdt_key a ≡ crdt_key b
          → a.timestamp ≡ b.timestamp
          → a.op_id ≡ b.op_id
          → a ≡ b)
      → (merge_operations x clock ops (new_store x doc fs)).0 ≡ ok n
      → (merge_operations x clock' ops' (new_store x doc' fs')).0 ≡ ok n'
      → (k : Str)
      → lookup k (merge_operations x clock ops (new_store x doc fs)).1.operations
        ≡ lookup k (merge_operations x clock' ops' (new_store x doc' fs')).1.operations
  unfolding merge_operations
  merge_operations_converge clock clock' ops ops' doc doc' fs fs' n n' to from distinct h h' =
      Winners-unique to from distinct (winners x clock ops doc fs n h)
        (winners x clock' ops' doc' fs' n' h')

  merge_loop-verified :
      (clock : Clock) (ops : List SignedOperation) (i merged n : ℕ) (s : SyncStore Doc Fs)
      → (merge_loop x clock i merged ops s).0 ≡ ok n
      → (a : SignedOperation) → In a ops
      → (j : ℕ) × (verify x.lib (clock j) a ≡ ok tt)
  unfolding merge_loop
  merge_loop-verified clock [] i merged n s h a m = absurd m
  merge_loop-verified clock (op ∷ ops) i merged n s h a m =
      elim (Result-cases (add_operation x (clock i) op s).0) [
        | inl (added, e) ↦
            let (valid, _, _) = add_operation_ok x (clock i) op s added e in
            elim m [
              | inl here ↦ (i, rw here valid)
              | inr later ↦
                  merge_loop-verified clock ops (suc i) (bump added merged) n
                    (add_operation x (clock i) op s).1 (rw (e, merge_loop) at h) a later
            ]
        | inr (er, e) ↦ absurd (ground arith)
      ]

  -- Where a merge runs to its end, each operation that it was given had a valid signature, by a
  -- reading of the clock.
  pub merge_operations_verified :
      (clock : Clock) (ops : List SignedOperation) (n : ℕ) (s : SyncStore Doc Fs)
      → (merge_operations x clock ops s).0 ≡ ok n
      → (a : SignedOperation) → In a ops
      → (j : ℕ) × (verify x.lib (clock j) a ≡ ok tt)
  unfolding merge_operations
  merge_operations_verified clock ops n s h = merge_loop-verified clock ops 0 0 n s h
