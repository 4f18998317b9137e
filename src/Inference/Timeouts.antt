-- ===== src/Inference/Timeouts.antt =====
-- src/inference.rs, `check_timeouts` as a whole.
use cyberfly_rust_node.Common.{
  ℕ, ◌≡◌, refl, sym, ◌∙◌, inl, inr, false, Option, none, some, List, [], ◌∷◌, ◌++◌, In, arith,
  if◌then◌else◌, Bool-cases, Option-cases,
}
use mathlib.Core.List.{append-nil, append_assoc}
use cyberfly_rust_node.Common.Text.{Str, str_eq, str_eq_iff}
use cyberfly_rust_node.Common.Assoc.{lookup, remove, str_key, lookup-remove, contains}
use cyberfly_rust_node.Common.Unique.{IsUnique, In-lookup}
use cyberfly_rust_node.Inference.Job.{InferenceJob, timed_out}
use cyberfly_rust_node.Inference.Scheduler.{
  InferenceScheduler, is_overdue, expired_ids, expire_one, timeout_loop, check_timeouts,
}
use cyberfly_rust_node.Inference.Steps.{IsWellFormed}

-- The running jobs past their limit, marked.
unfoldable pub overdue_jobs : ℕ → List (Str × (InferenceJob × ℕ)) → List InferenceJob
overdue_jobs instant [] = []
overdue_jobs instant ((k, (job, at)) ∷ m) =
    let rest = overdue_jobs instant m in
    if is_overdue instant (job, at) then record job { status = timed_out } ∷ rest else rest

abbrev pub in_time : ℕ → Option (InferenceJob × ℕ) → Option (InferenceJob × ℕ)
in_time instant none = none
in_time instant (some e) = if is_overdue instant e then none else some e

loop-running :
    (k : Str) (ids : List Str) (out : List InferenceJob) (s : InferenceScheduler)
    → lookup k (timeout_loop ids out s).1.running_jobs
      ≡ (if contains k ids then none else lookup k s.running_jobs)
unfolding timeout_loop contains
loop-running k [] out s = refl
loop-running k (id ∷ ids) out s = elim (Option-cases (lookup id s.running_jobs)) [
  | inl e ↦ ground (arith, loop-running k ids out s, str_eq_iff id k)
  | inr ((job, at), e) ↦ ground (
    arith,
    loop-running k ids (out ++ record job { status = timed_out } ∷ []) (expire_one id job s),
    lookup-remove id k s.running_jobs,
    str_eq_iff id k,
  )
]

loop-rest :
    (ids : List Str) (out : List InferenceJob) (s : InferenceScheduler)
    → ((timeout_loop ids out s).1.pending_jobs ≡ s.pending_jobs)
      × ((timeout_loop ids out s).1.completed_results ≡ s.completed_results)
unfolding timeout_loop
loop-rest [] out s = (refl, refl)
loop-rest (id ∷ ids) out s = elim (Option-cases (lookup id s.running_jobs)) [
  | inl e ↦ ground (arith, loop-rest ids out s)
  | inr ((job, at), e) ↦
      ground
        (arith, loop-rest ids (out ++ record job { status = timed_out } ∷ []) (expire_one id job s))
]

expired_absent :
    (instant : ℕ) (k : Str) (m : List (Str × (InferenceJob × ℕ)))
    → lookup k m ≡ none
    → contains k (expired_ids instant m) ≡ false
unfolding expired_ids contains lookup
expired_absent instant k [] h = refl
expired_absent instant k ((j, e) ∷ m) h = ground (arith, expired_absent instant k m)

contains-expired_ids :
    (instant : ℕ) (k : Str) (m : List (Str × (InferenceJob × ℕ)))
    → IsUnique m
    → (if contains k (expired_ids instant m) then none else lookup k m)
      ≡ in_time instant (lookup k m)
unfolding expired_ids contains lookup IsUnique
contains-expired_ids instant k [] u = refl
contains-expired_ids instant k ((j, e) ∷ m) (absent, u) =
    ground (arith, str_eq_iff j k, expired_absent instant k m, contains-expired_ids instant k m u)

-- All entries of a list stand in the map.
abbrev Held : List (Str × (InferenceJob × ℕ)) → List (Str × (InferenceJob × ℕ)) → Type 0
Held m r = (k : Str) (e : InferenceJob × ℕ) → In (k, e) m → lookup k r ≡ some e

rest-Held :
    (k : Str) (e : InferenceJob × ℕ) (m r : List (Str × (InferenceJob × ℕ)))
    → lookup k m ≡ none
    → IsUnique m
    → Held ((k, e) ∷ m) r
    → Held m (remove k r)
rest-Held k e m r absent u h j f i = elim (Bool-cases (str_eq k j)) [
  | inl same ↦ absurd (ground (arith, str_eq_iff k j, In-lookup j f m u i))
  | inr other ↦ lookup-remove k j r ∙ ground (arith, h j f (inr i))
]

loop-jobs :
    (instant : ℕ) (m : List (Str × (InferenceJob × ℕ))) (out : List InferenceJob)
    (s : InferenceScheduler)
    → IsUnique m
    → Held m s.running_jobs
    → (timeout_loop (expired_ids instant m) out s).0 ≡ out ++ overdue_jobs instant m
unfolding timeout_loop expired_ids overdue_jobs IsUnique
loop-jobs instant [] out s u h = sym (append-nil out)
loop-jobs instant ((k, (job, at)) ∷ m) out s (absent, u) h =
    elim (Bool-cases (is_overdue instant (job, at))) [
      | inr in_limit ↦ ground (arith, loop-jobs instant m out s u (λ j f i. h j f (inr i)))
      | inl late ↦
          let here = h k (job, at) (inl refl) in
          let rest =
            loop-jobs instant m (out ++ record job { status = timed_out } ∷ []) (expire_one k job s)
              u (rest-Held k (job, at) m s.running_jobs absent u h) in
          ground (
            arith,
            append_assoc out (record job { status = timed_out } ∷ []) (overdue_jobs instant m),
          )
    ]

-- In a well-formed scheduler the check returns, marked as timed out, the running jobs that have run past
-- their limit, in the order of the map, and takes exactly those out of the running jobs. It puts none
-- of them back: pending jobs and results are as before.
pub check_timeouts_lem :
    (instant : ℕ) (s : InferenceScheduler)
    → IsWellFormed s
    → ((check_timeouts instant s).0 ≡ overdue_jobs instant s.running_jobs)
      × ((k : Str)
          → lookup k (check_timeouts instant s).1.running_jobs
            ≡ in_time instant (lookup k s.running_jobs))
      × ((check_timeouts instant s).1.pending_jobs ≡ s.pending_jobs)
      × ((check_timeouts instant s).1.completed_results ≡ s.completed_results)
unfolding check_timeouts
check_timeouts_lem instant s i =
    let ids = expired_ids instant s.running_jobs in
    let (pending, results) = loop-rest ids [] s in
    (
      loop-jobs instant s.running_jobs [] s i.running_unique
          (λ k e at. In-lookup k e s.running_jobs i.running_unique at),
      λ k. loop-running k ids [] s ∙ contains-expired_ids instant k s.running_jobs i.running_unique,
      pending,
      results,
    )
