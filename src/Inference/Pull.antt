-- ===== src/Inference/Pull.antt =====
-- src/inference.rs, `pull_next_job` as a whole.
use cyberfly_rust_node.Common.{
  ℕ, ◌≡◌, sym, ap, ◌∙◌, ◌⊎◌, inl, inr, Bool, true, false, none, some, arith, if◌then◌else◌,
  Option-cases,
}
use cyberfly_rust_node.Common.Text.{Str, str_eq, str_eq_iff}
use cyberfly_rust_node.Common.Assoc.{lookup, str_key, lookup-remove, lookup-insert}
use cyberfly_rust_node.Common.Unique.{lookup-In, In-lookup}
use cyberfly_rust_node.Inference.Job.{InferenceJob, Floats, score_for_job}
use cyberfly_rust_node.Inference.Scheduler.{InferenceScheduler, claimed, best_job, pull_next_job}
use cyberfly_rust_node.Inference.Best.{IsStrictOrder, is_eligible, scan-Scanned}
use cyberfly_rust_node.Inference.Steps.{IsWellFormed}

module _ {F : Type 0} (fl : Floats F) (order : IsStrictOrder fl) (now instant : ℕ)
    (s : InferenceScheduler) (i : IsWellFormed s) where
  abbrev pub eligible : InferenceJob → Bool
  eligible = is_eligible fl s.local_capabilities now

  abbrev pub score : InferenceJob → F
  score = score_for_job fl s.local_capabilities now

  -- No pending job may be pulled.
  abbrev pub Idle : Type 0
  Idle = (k : Str) (job : InferenceJob) → lookup k s.pending_jobs ≡ some job → eligible job ≡ false

  -- No pending job that may be pulled scores higher.
  abbrev pub IsTop : InferenceJob → Type 0
  IsTop job =
      (k : Str) (other : InferenceJob)
      → lookup k s.pending_jobs ≡ some other
      → eligible other ≡ true
      → fl.gtb (score other) (score job) ≡ false

  -- The job has moved from the pending jobs to the running ones.
  abbrev pub HasMoved : InferenceJob → InferenceScheduler → Type 0
  HasMoved job s' =
      (k : Str)
      → (lookup k s'.pending_jobs ≡ (if str_eq job.job_id k then none else lookup k s.pending_jobs))
        × (lookup k s'.running_jobs ≡ (
            if str_eq job.job_id k
            then some (claimed s.node_id now job, instant)
            else lookup k s.running_jobs))

  -- In a well-formed scheduler, with an order of scores as `IsStrictOrder` has it, a pull returns nothing and changes nothing exactly if every pending job
  -- has expired or scores no more than 0. Else it returns, marked as running on this node, a pending
  -- job that has not expired and than which no such job scores higher, and moves this job alone to
  -- the running jobs.
  pub pull_next_job_lem :
      (((pull_next_job fl now instant s) ≡ (none, s)) × Idle)
      ⊎ ((job : InferenceJob) × (lookup job.job_id s.pending_jobs ≡ some job)
          × (eligible job ≡ true)
          × IsTop job
          × ((pull_next_job fl now instant s).0 ≡ some (claimed s.node_id now job))
          × HasMoved job (pull_next_job fl now instant s).1)
  unfolding pull_next_job
  pull_next_job_lem =
      let scan =
        scan-Scanned fl s.local_capabilities now order s.pending_jobs none (λ q h. absurd (cc)) in
      elim (Option-cases (best_job fl s.local_capabilities now s.pending_jobs none)) [
        | inl nothing ↦ inl (
          ground arith,
          λ k job found. (scan.none_left nothing).1 (k, job) (lookup-In k job s.pending_jobs found),
        )
        | inr (p, chosen) ↦ elim (scan.source p chosen) [
          | inl never ↦ absurd (cc)
          | inr ((k, job), within, el, at) ↦
              let here = In-lookup k job s.pending_jobs i.pending_unique within in
              let keyed = i.pending_keyed k job here in
              let found : lookup job.job_id s.pending_jobs ≡ some job =
                ap (λ u. lookup u s.pending_jobs) keyed ∙ here in
              inr (
                job,
                found,
                el,
                λ j other seen el'.
                    sym (ap (λ u. fl.gtb (score other) u.1) at)
                    ∙ (scan.greatest p chosen).0 (j, other) (lookup-In j other s.pending_jobs seen)
                        el',
                ground (arith, at),
                λ j.
                    let e = lookup-remove job.job_id j s.pending_jobs in
                    let f =
                      lookup-insert job.job_id j (claimed s.node_id now job, instant)
                        s.running_jobs in
                    ground (arith, str_eq_iff job.job_id j),
              )
        ]
      ]
