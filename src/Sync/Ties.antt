-- ===== src/Sync/Ties.antt =====
-- src/sync.rs, the continuation of a sync, where operations share a timestamp across a chunk's end.
use cyberfly_rust_node.Common.{
  ℕ, zero, suc, ◌<◌, ◌≡◌, true, Option, some, List, arith, ltb, length, take, get_last?, sort_by,
  In, inl, inr, Bool-cases, ltb→lt,
}
use cyberfly_rust_node.Common.Int.{ℤ}
use cyberfly_rust_node.Common.Text.{Str}
use cyberfly_rust_node.Common.Decimal.{IsI64}
use cyberfly_rust_node.Common.Sort.{take-In, append-In}
use cyberfly_rust_node.Sync.Operation.{SignedOperation}
use cyberfly_rust_node.Sync.Store.{SyncStore}
use cyberfly_rust_node.Sync.Query.{get_all_operations}
use cyberfly_rust_node.Sync.Manager.{requested}
use cyberfly_rust_node.Sync.Lww.{op_leb}
use cyberfly_rust_node.Sync.Invariant.{IsWellFormed}
use cyberfly_rust_node.Sync.Ascending.{newer, last_of_take}
use cyberfly_rust_node.Sync.Paging.{exchange, exchange_short, exchange_long, asked-In}

later_trans :
    (t : ℤ) (a b : SignedOperation)
    → newer t a ≡ true
    → newer a.timestamp b ≡ true
    → newer t b ≡ true
later_trans t a b h k = ground arith

not_newer_self :
    (a o : SignedOperation) → a.timestamp ≡ o.timestamp → newer o.timestamp a ≡ true → ⊥
not_newer_self a o e h = ground arith

module _ {Doc Fs : Type 0} (s : SyncStore Doc Fs) (id : Str) (wf : IsWellFormed s.operations)
    (i64 : (a : SignedOperation) → In a (get_all_operations s) → IsI64 a.timestamp) where
  -- What follows a request from a timestamp on is newer than it.
  exchange_newer :
      (f : ℕ) (t : ℤ) (a : SignedOperation) → In a (exchange s id f (some t)) → newer t a ≡ true
  exchange_newer zero t a m = absurd (unfold exchange in m)
  exchange_newer (suc f) t a m =
      let asked : List SignedOperation = sort_by op_leb (requested s (some t)) in
      elim (Bool-cases (ltb 128 (length asked))) [
        | inr short ↦
            (asked-In s id wf (some t) a
              (rw (exchange_short s id f (some t) (ground arith)) at m)).1
        | inl long ↦
            let (o, e, i) = last_of_take 127 asked (ground arith) in
            let (known, after_t) = asked-In s id wf (some t) o i in
            let parts =
              exchange_long s id f (some t) o (ltb→lt 128 (length asked) long) e (i64 o known) in
            elim (append-In a (take 128 asked) (exchange s id f (some o.timestamp))
              (rw parts at m)) [
                | inl first ↦ (asked-In s id wf (some t) a (take-In 128 a asked first)).1
                | inr rest ↦ later_trans t o a after_t (exchange_newer f o.timestamp a rest)
              ]
      ]

  -- An operation that a chunk leaves out, and that has the timestamp of the chunk's last one, is in
  -- no answer of the exchange, however long it goes on, where the store is well formed and all
  -- timestamps are i64.
  pub exchange_loses_ties :
      (since : Option ℤ) (a o : SignedOperation)
      → 128 < length (sort_by op_leb (requested s since))
      → get_last? (take 128 (sort_by op_leb (requested s since))) ≡ some o
      → In o (get_all_operations s)
      → a.timestamp ≡ o.timestamp
      → ¬ In a (take 128 (sort_by op_leb (requested s since)))
      → (f : ℕ) → ¬ In a (exchange s id f since)
  exchange_loses_ties since a o h e known tie out zero m = absurd (unfold exchange in m)
  exchange_loses_ties since a o h e known tie out (suc f) m =
      elim (append-In a (take 128 (sort_by op_leb (requested s since)))
        (exchange s id f (some o.timestamp))
        (rw (exchange_long s id f since o h e (i64 o known)) at m)) [
          | inl first ↦ out first
          | inr rest ↦ not_newer_self a o tie (exchange_newer f o.timestamp a rest)
        ]
