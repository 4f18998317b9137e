-- ===== src/Sync/Paging.antt =====
-- src/sync.rs, the continuation of a sync: the answers to a request and to the requests that follow
-- it, put together.
use cyberfly_rust_node.Common.{
  ℕ, zero, suc, ◌*◌, ◌≤◌, ◌<◌, ◌≡◌, sym, ap, ◌∙◌, true, false, Option, none, some, List, [], ◌++◌,
  arith, ltb, length, take, drop, filter, get_last?, sort_by, In, inl, inr, Bool-cases, ltb→lt,
  lt→ltb, take-append-drop, length-take, length-drop,
}
use cyberfly_rust_node.Common.Int.{ℤ}
use cyberfly_rust_node.Common.Text.{Str, codes, strip_prefix-append}
use cyberfly_rust_node.Common.Decimal.{show_ℤ, IsI64, parse_i64-show_ℤ}
use cyberfly_rust_node.Common.Sort.{filter-In, take_all, sort_by-In}
use cyberfly_rust_node.Sync.Operation.{SignedOperation, sync_request, sync_response, operation}
use cyberfly_rust_node.Sync.Store.{SyncStore}
use cyberfly_rust_node.Sync.Query.{get_all_operations}
use cyberfly_rust_node.Sync.Manager.{token_of, respond, requested, answer_request, next_request}
use cyberfly_rust_node.Sync.Lww.{op_leb}
use cyberfly_rust_node.Sync.Ascending.{
  newer, after, sort-requested, Ascending, newer_than_last, Ascending-filter, filter-later,
  last_of_take,
}
use cyberfly_rust_node.Sync.Invariant.{IsWellFormed}

-- The operations that a node receives which asks `s` and follows up as long as it is told to.
module _ {Doc Fs : Type 0} (s : SyncStore Doc Fs) (id : Str) where
  unfoldable pub exchange : ℕ → Option ℤ → List SignedOperation
  exchange zero since = []
  exchange (suc f) since = elim (answer_request s id since) [
    | sync_request r since' ↦ []
    | operation op ↦ []
    | sync_response r ops more token ↦ elim (next_request id more token) [
      | none ↦ ops
      | some msg ↦ elim msg [
        | sync_request r' since' ↦ ops ++ exchange f since'
        | sync_response r' o m t ↦ ops
        | operation op ↦ ops
      ]
    ]
  ]

-- The token of a chunk leads to a request from the chunk's last timestamp on, which is an i64.
pub next-token :
    (id : Str) (chunk : List SignedOperation) (o : SignedOperation)
    → get_last? chunk ≡ some o
    → IsI64 o.timestamp
    → next_request id true (some (token_of chunk)) ≡ some (sync_request id (some o.timestamp))
unfolding next_request token_of
next-token id chunk o e i = rw e (
    ground (
      arith,
      strip_prefix-append (codes "ts:") (show_ℤ o.timestamp),
      parse_i64-show_ℤ o.timestamp i,
    ))

respond_short :
    (id : Str) (ops : List SignedOperation)
    → length ops ≤ 128
    → respond id ops ≡ sync_response id ops false none
unfolding respond
respond_short id ops h = rw (take_all 128 ops h) (ground arith)

respond_long :
    (id : Str) (ops : List SignedOperation)
    → 128 < length ops
    → respond id ops ≡ sync_response id (take 128 ops) true (some (token_of (take 128 ops)))
unfolding respond
respond_long id ops h =
    let more : ltb (length (take 128 ops)) (length ops) ≡ true =
      lt→ltb (length (take 128 ops)) (length ops) (omega (arith, length-take 128 ops)) in
    rw more

module _ {Doc Fs : Type 0} (s : SyncStore Doc Fs) (id : Str) where
  pub exchange_short :
      (f : ℕ) (since : Option ℤ)
      → length (sort_by op_leb (requested s since)) ≤ 128
      → exchange s id (suc f) since ≡ sort_by op_leb (requested s since)
  unfolding exchange answer_request next_request
  exchange_short f since h = rw (respond_short id (sort_by op_leb (requested s since)) h, exchange)

  pub exchange_long :
      (f : ℕ) (since : Option ℤ) (o : SignedOperation)
      → 128 < length (sort_by op_leb (requested s since))
      → get_last? (take 128 (sort_by op_leb (requested s since))) ≡ some o
      → IsI64 o.timestamp
      → exchange s id (suc f) since
        ≡ take 128 (sort_by op_leb (requested s since)) ++ exchange s id f (some o.timestamp)
  unfolding exchange answer_request
  exchange_long f since o h e i = rw (
    respond_long id (sort_by op_leb (requested s since)) h,
    next-token id (take 128 (sort_by op_leb (requested s since))) o e i,
    exchange,
  )

  pub asked-In :
      IsWellFormed s.operations
      → (since : Option ℤ) (a : SignedOperation) → In a (sort_by op_leb (requested s since))
      → In a (get_all_operations s) × (after since a ≡ true)
  asked-In wf since a m =
      let (i, t) =
        filter-In (after since) a (sort_by op_leb (get_all_operations s))
          (rw (sort-requested s since wf) at m) in
      (sort_by-In op_leb a (get_all_operations s) i, t)

  -- The request after a chunk is answered with what the chunk left.
  next_page :
      IsWellFormed s.operations
      → Ascending (sort_by op_leb (get_all_operations s))
      → (since : Option ℤ) (o : SignedOperation)
      → get_last? (take 128 (sort_by op_leb (requested s since))) ≡ some o
      → In o (sort_by op_leb (requested s since))
      → sort_by op_leb (requested s (some o.timestamp))
        ≡ drop 128 (sort_by op_leb (requested s since))
  next_page wf asc since o e m =
      let all : List SignedOperation = sort_by op_leb (get_all_operations s) in
      let asked : List SignedOperation = sort_by op_leb (requested s since) in
      let parts = take-append-drop 128 asked in
      let ordered : Ascending asked =
        rw (sort-requested s since wf) (Ascending-filter (after since) all asc) in
      sort-requested s (some o.timestamp) wf
      ∙ (sym (filter-later since o all (asked-In wf since o m).1)
          ∙ (ap (filter (newer o.timestamp)) (sym (sort-requested s since wf) ∙ sym parts)
              ∙ newer_than_last (take 128 asked) (drop 128 asked) o (rw parts ordered) e))

  -- Following the continuation delivers exactly what was asked for, in order, where the store is well
  -- formed, no two of its operations have the same timestamp, all timestamps are i64, and more than
  -- the operations fit into `f` answers of 128.
  pub exchange_complete :
      IsWellFormed s.operations
      → Ascending (sort_by op_leb (get_all_operations s))
      → ((a : SignedOperation) → In a (get_all_operations s) → IsI64 a.timestamp)
      → (f : ℕ) (since : Option ℤ) → length (sort_by op_leb (requested s since)) < 128 * f
      → exchange s id f since ≡ sort_by op_leb (requested s since)
  exchange_complete wf asc i64 zero since h = absurd (omega arith)
  exchange_complete wf asc i64 (suc f) since h =
      let asked : List SignedOperation = sort_by op_leb (requested s since) in
      elim (Bool-cases (ltb 128 (length asked))) [
        | inr short ↦ exchange_short f since (ground arith)
        | inl long ↦
            let (o, e, m) = last_of_take 127 asked (ground arith) in
            let rest = next_page wf asc since o e m in
            let (i, _) = asked-In wf since o m in
            exchange_long f since o (ltb→lt 128 (length asked) long) e (i64 o i)
            ∙ (ap (λ (u : List SignedOperation). take 128 asked ++ u)
                  (exchange_complete wf asc i64 f (some o.timestamp) (
                      rw rest
                        (omega (arith, length-drop 128 asked, ltb→lt 128 (length asked) long)))
                    ∙ rest)
                ∙ take-append-drop 128 asked)
      ]
