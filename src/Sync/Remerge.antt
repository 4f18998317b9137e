-- ===== src/Sync/Remerge.antt =====
-- src/sync.rs, `merge_operations`: the end of a merge, and a second merge of the same operations.
use cyberfly_rust_node.Common.{
  ℕ, suc, ◌+◌, ◌≡◌, refl, ap, subst, inl, inr, Bool, true, false, not, Option, some, List, [], ◌∷◌,
  ◌++◌, arith, In, length,
}
use native.Mathlib.Nat.{zero-add, add-zero}
use cyberfly_rust_node.Common.Int.{ℤ}
use cyberfly_rust_node.Common.Text.{Str, codes}
use cyberfly_rust_node.Common.Assoc.{lookup, str_key}
use cyberfly_rust_node.Common.Result.{ok, err, Result-cases}
use cyberfly_rust_node.Sync.Operation.{SignedOperation, SyncError, crdt_key, verify}
use cyberfly_rust_node.Sync.Store.{
  Externals, SyncStore, Clock, is_stale, new_store, record_operation,
  add_operation_to_memory_unverified, add_operation_to_memory, add_operation, bump, merge_loop,
  merge_operations,
}
use cyberfly_rust_node.Sync.Lww.{Winners, is_stale-op_leb}
use cyberfly_rust_node.Sync.Merge.{winners}

module _ {Doc Fs : Type 0} (x : Externals Doc Fs) where
  -- The documents take every write.
  pub record IsTotalDocument : Type 0 where
    pub ints : (d : Doc) (k : Str) (v : ℤ) → (d' : Doc) × (x.put_int d k v ≡ some d')
    pub strs : (d : Doc) (k v : Str) → (d' : Doc) × (x.put_str d k v ≡ some d')

  add_operation_total :
      IsTotalDocument
      → (now : Option ℕ) (op : SignedOperation) (s : SyncStore Doc Fs) → verify x.lib now op ≡ ok tt
      → (b : Bool) × ((add_operation x now op s).0 ≡ ok b)
  unfolding add_operation add_operation_to_memory add_operation_to_memory_unverified
      record_operation
  add_operation_total d now op s h =
      let (d₁, e₁) = d.ints s.crdt_doc (crdt_key op) op.timestamp in
      let (d₂, e₂) = d.strs d₁ (crdt_key op ++ codes ":op_id") op.op_id in
      let (d₃, e₃) = d.strs d₂ (crdt_key op ++ codes ":value") op.value in
      (not (is_stale op (lookup (crdt_key op) s.operations)), ground arith)

  merge_loop_total :
      IsTotalDocument
      → (clock : Clock) (ops : List SignedOperation) (i merged : ℕ) (s : SyncStore Doc Fs)
      → ((j : ℕ) (a : SignedOperation) → In a ops → verify x.lib (clock j) a ≡ ok tt)
      → (n : ℕ) × ((merge_loop x clock i merged ops s).0 ≡ ok n)
  unfolding merge_loop
  merge_loop_total d clock [] i merged s h = (merged, refl)
  merge_loop_total d clock (op ∷ ops) i merged s h =
      let (added, e) = add_operation_total d (clock i) op s (h i op (inl refl)) in
      let (n, r) =
        merge_loop_total d clock ops (suc i) (bump added merged) (add_operation x (clock i) op s).1
          (λ j a m. h j a (inr m)) in
      (n, rw (e, merge_loop) r)

  -- A merge of operations whose signatures are valid, whenever the clock is read, runs to its end,
  -- where the document takes every write.
  pub merge_operations_total :
      IsTotalDocument
      → (clock : Clock) (ops : List SignedOperation) (s : SyncStore Doc Fs)
      → ((j : ℕ) (a : SignedOperation) → In a ops → verify x.lib (clock j) a ≡ ok tt)
      → (n : ℕ) × ((merge_operations x clock ops s).0 ≡ ok n)
  unfolding merge_operations
  merge_operations_total d clock ops s h = merge_loop_total d clock ops 0 0 s h

  add_operation_stale :
      (now : Option ℕ) (op : SignedOperation) (s : SyncStore Doc Fs)
      → verify x.lib now op ≡ ok tt
      → is_stale op (lookup (crdt_key op) s.operations) ≡ true
      → add_operation x now op s ≡ (ok false, s)
  unfolding add_operation add_operation_to_memory add_operation_to_memory_unverified
  add_operation_stale now op s v h = ground arith

  merge_loop_stale :
      (clock : Clock) (ops : List SignedOperation) (i merged : ℕ) (s : SyncStore Doc Fs)
      {P : SignedOperation → Type 0}
      → Winners P s.operations
      → ((a : SignedOperation) → In a ops → P a)
      → ((j : ℕ) (a : SignedOperation) → In a ops → verify x.lib (clock j) a ≡ ok tt)
      → merge_loop x clock i merged ops s ≡ (ok merged, s)
  unfolding merge_loop
  merge_loop_stale clock [] i merged s w p v = refl
  merge_loop_stale clock (op ∷ ops) i merged s w p v =
      let (o, e, le) = w.best op (p op (inl refl)) in
      let stale : is_stale op (lookup (crdt_key op) s.operations) ≡ true =
        rw (e, is_stale-op_leb op o) le in
      let step = add_operation_stale (clock i) op s (v i op (inl refl)) stale in
      rw (ap (λ r. r.0) step, ap (λ r. r.1) step, merge_loop)
        (merge_loop_stale clock ops (suc i) merged s w (λ a m. p a (inr m))
          (λ j a m. v j a (inr m)))

  -- Merging once more what a store was merged from changes nothing: no operation counts as new, and
  -- the store, its document and its blobs stay as they are. The first merge is to run to its end, and
  -- the signatures are to be valid at the second.
  pub merge_operations_again :
      (clock clock' : Clock) (ops : List SignedOperation) (doc : Doc) (fs : Option Fs) (n : ℕ)
      → (merge_operations x clock ops (new_store x doc fs)).0 ≡ ok n
      → ((j : ℕ) (a : SignedOperation) → In a ops → verify x.lib (clock' j) a ≡ ok tt)
      → merge_operations x clock' ops (merge_operations x clock ops (new_store x doc fs)).1
        ≡ (ok 0, (merge_operations x clock ops (new_store x doc fs)).1)
  merge_operations_again clock clock' ops doc fs n h v = again (winners x clock ops doc fs n h)
    where
      again :
          {s : SyncStore Doc Fs}
          → Winners (λ a. In a ops) s.operations
          → merge_operations x clock' ops s ≡ (ok 0, s)
      again {s} w = unfold merge_operations in merge_loop_stale clock' ops 0 0 s w (λ a m. m) v

  add_operation_invalid :
      (now : Option ℕ) (op : SignedOperation) (s : SyncStore Doc Fs) (e : SyncError)
      → verify x.lib now op ≡ err e
      → add_operation x now op s ≡ (err e, s)
  unfolding add_operation add_operation_to_memory
  add_operation_invalid now op s e h = ground arith

  merge_loop_stops :
      (clock : Clock) (ops rest : List SignedOperation) (op : SignedOperation) (i merged : ℕ)
      (s : SyncStore Doc Fs) (n : ℕ) (e : SyncError)
      → (merge_loop x clock i merged ops s).0 ≡ ok n
      → verify x.lib (clock (i + length ops)) op ≡ err e
      → merge_loop x clock i merged (ops ++ op ∷ rest) s
        ≡ (err e, (merge_loop x clock i merged ops s).1)
  unfolding merge_loop
  merge_loop_stops clock [] rest op i merged s n e h bad =
      let step = add_operation_invalid (clock i) op s e (rw add-zero at bad) in
      rw (ap (λ r. r.0) step, ap (λ r. r.1) step, merge_loop)
  merge_loop_stops clock (o ∷ ops) rest op i merged s n e h bad =
      elim (Result-cases (add_operation x (clock i) o s).0) [
        | inl (added, r) ↦
            let later : verify x.lib (clock (suc i + length ops)) op ≡ err e =
              subst (λ (k : ℕ). verify x.lib (clock k) op ≡ err e) (omega arith) bad in
            rw (r, merge_loop)
              (merge_loop_stops clock ops rest op (suc i) (bump added merged)
                (add_operation x (clock i) o s).1 n e (rw (r, merge_loop) at h) later)
        | inr (er, r) ↦ absurd (ground arith)
      ]

  -- Where a merge of `ops` runs to its end, an operation behind them that does not verify ends the
  -- merge with its error, in the store that `ops` left, whatever stands behind it.
  pub merge_operations_stops :
      (clock : Clock) (ops rest : List SignedOperation) (op : SignedOperation)
      (s : SyncStore Doc Fs) (n : ℕ) (e : SyncError)
      → (merge_operations x clock ops s).0 ≡ ok n
      → verify x.lib (clock (length ops)) op ≡ err e
      → merge_operations x clock (ops ++ op ∷ rest) s ≡ (err e, (merge_operations x clock ops s).1)
  unfolding merge_operations
  merge_operations_stops clock ops rest op s n e h bad =
      merge_loop_stops clock ops rest op 0 0 s n e h (rw zero-add bad)
