-- ===== src/Inference/Steps.antt =====
-- src/inference.rs: the invariant of the scheduler, and what every step leaves of it.
use cyberfly_rust_node.Common.{
  ℕ, suc, ◌≡◌, refl, sym, ap, subst, ◌∙◌, inl, inr, true, Option, none, some, List, [], ◌∷◌, arith,
  Bool-cases, Option-cases, is_some, length,
}
use cyberfly_rust_node.Common.Int.{ℤ, pos}
use cyberfly_rust_node.Common.Text.{Str, str_eq_iff}
use cyberfly_rust_node.Common.Assoc.{lookup, insert, remove, str_key, lookup-remove, lookup-insert}
use cyberfly_rust_node.Common.Unique.{
  IsUnique, insert-IsUnique, remove-IsUnique, length-insert, length-remove,
}
use cyberfly_rust_node.Inference.Job.{InferenceJob, InferenceCapabilities, Floats}
use cyberfly_rust_node.Inference.Scheduler.{
  InferenceResult, InferenceScheduler, claimed, claim_best, pull_next_job, inc, dec, Metrics,
  new_scheduler, add_whitelisted_models, is_model_whitelisted, add_job, mark_claimed, record_result,
  timeout_loop, check_timeouts,
}

abbrev Pending : Type 0
Pending = List (Str × InferenceJob)

abbrev Running : Type 0
Running = List (Str × (InferenceJob × ℕ))

-- Each job stands under its identifier in at most one of the two maps, and the gauge of the pending
-- jobs shows their number.
pub record IsConsistent (p : List (Str × InferenceJob)) (r : List (Str × (InferenceJob × ℕ)))
    (gauge : ℤ) : Type 0 where
  pub pending_unique : IsUnique p
  pub running_unique : IsUnique r
  pub pending_keyed : (k : Str) (job : InferenceJob) → lookup k p ≡ some job → job.job_id ≡ k
  pub running_keyed :
      (k : Str) (job : InferenceJob) (at : ℕ) → lookup k r ≡ some (job, at) → job.job_id ≡ k
  pub apart : (k : Str) → is_some (lookup k p) ≡ true → lookup k r ≡ none
  pub gauged : gauge ≡ pos (length p)

abbrev pub IsWellFormed : InferenceScheduler → Type 0
IsWellFormed s = IsConsistent s.pending_jobs s.running_jobs s.metrics.pending_gauge

new_scheduler-IsWellFormed :
    (node_id : Str) (caps : InferenceCapabilities) (m : Metrics)
    → m.pending_gauge ≡ pos 0
    → IsWellFormed (new_scheduler node_id caps m)
unfolding new_scheduler lookup IsUnique
new_scheduler-IsWellFormed node_id caps m e = record {
  pending_unique = tt;
  running_unique = tt;
  pending_keyed = λ k job h. absurd (cc);
  running_keyed = λ k job at h. absurd (cc);
  apart = λ k h. refl;
  gauged = e;
}

module _ (p : Pending) (r : Running) (g : ℤ) (i : IsConsistent p r g) where
  insert_pending :
      (job : InferenceJob)
      → lookup job.job_id p ≡ none
      → lookup job.job_id r ≡ none
      → IsConsistent (insert job.job_id job p) r (inc g)
  insert_pending job absent idle = record {
    pending_unique = insert-IsUnique job.job_id job p i.pending_unique;
    running_unique = i.running_unique;
    pending_keyed = λ k j h.
        let at = lookup-insert job.job_id k job p in
        let old = i.pending_keyed k j in ground (arith, str_eq_iff job.job_id k);
    running_keyed = i.running_keyed;
    apart = λ k h.
        let at = lookup-insert job.job_id k job p in
        let old = i.apart k in ground (arith, str_eq_iff job.job_id k);
    gauged = ap inc i.gauged ∙ ap pos (sym (length-insert job.job_id job p ∙ rw absent refl));
  }

  move :
      (id : Str) (job new : InferenceJob) (at : ℕ)
      → lookup id p ≡ some job
      → new.job_id ≡ id
      → IsConsistent (remove id p) (insert id (new, at) r) (dec g)
  move id job new at found keyed = record {
    pending_unique = remove-IsUnique id p i.pending_unique;
    running_unique = insert-IsUnique id (new, at) r i.running_unique;
    pending_keyed = λ k j h.
        let e = lookup-remove id k p in
        let old = i.pending_keyed k j in ground (arith, str_eq_iff id k);
    running_keyed = λ k j t h.
        let e = lookup-insert id k (new, at) r in
        let old = i.running_keyed k j t in ground (arith, str_eq_iff id k);
    apart = λ k h.
        let e = lookup-remove id k p in
        let f = lookup-insert id k (new, at) r in
        let old = i.apart k in ground (arith, str_eq_iff id k);
    gauged =
        let size : length p ≡ suc (length (remove id p)) =
          length-remove id p i.pending_unique ∙ ground arith in
        ap dec (i.gauged ∙ ap pos size);
  }

  remove_running : (id : Str) → IsConsistent p (remove id r) g
  remove_running id = record {
    pending_unique = i.pending_unique;
    running_unique = remove-IsUnique id r i.running_unique;
    pending_keyed = i.pending_keyed;
    running_keyed = λ k j t h.
        let e = lookup-remove id k r in
        let old = i.running_keyed k j t in ground (arith, str_eq_iff id k);
    apart = λ k h.
        let e = lookup-remove id k r in let old = i.apart k in ground (arith, str_eq_iff id k);
    gauged = i.gauged;
  }

mark_claimed-IsWellFormed :
    (now instant : ℕ) (id node : Str) (s : InferenceScheduler)
    → IsWellFormed s
    → IsWellFormed (mark_claimed now instant id node s)
unfolding mark_claimed
mark_claimed-IsWellFormed now instant id node s i = elim (Option-cases (lookup id s.pending_jobs)) [
  | inl e ↦ rw (mark_claimed, e) i
  | inr (job, e) ↦
      let after =
        move s.pending_jobs s.running_jobs s.metrics.pending_gauge i id job (claimed node now job)
          instant e (i.pending_keyed id job e) in
      rw (mark_claimed, e) after
]

record_result-IsWellFormed :
    (result : InferenceResult) (s : InferenceScheduler)
    → IsWellFormed s
    → IsWellFormed (record_result result s)
unfolding record_result
record_result-IsWellFormed result s i =
    remove_running s.pending_jobs s.running_jobs s.metrics.pending_gauge i result.job_id

add_job-IsWellFormed :
    (job : InferenceJob) (s : InferenceScheduler) → IsWellFormed s → IsWellFormed (add_job job s).1
unfolding add_job
add_job-IsWellFormed job s i = elim (Bool-cases (is_model_whitelisted job.model_name s)) [
  | inr foreign ↦ rw foreign i
  | inl listed ↦ elim (Option-cases (lookup job.job_id s.pending_jobs)) [
    | inr (old, e) ↦ rw listed (rw e i)
    | inl absent ↦ elim (Option-cases (lookup job.job_id s.running_jobs)) [
      | inr (old, e) ↦ rw listed (rw absent (rw e i))
      | inl idle ↦
          let after =
            insert_pending s.pending_jobs s.running_jobs s.metrics.pending_gauge i job absent
              idle in
          rw listed (rw absent (rw idle after))
    ]
  ]
]

timeout_loop-IsWellFormed :
    (ids : List Str) (out : List InferenceJob) (s : InferenceScheduler)
    → IsWellFormed s
    → IsWellFormed (timeout_loop ids out s).1
unfolding timeout_loop
timeout_loop-IsWellFormed [] out s i = i
timeout_loop-IsWellFormed (id ∷ ids) out s i = elim (Option-cases (lookup id s.running_jobs)) [
  | inl e ↦ rw (timeout_loop, e) (timeout_loop-IsWellFormed ids out s i)
  | inr ((job, at), e) ↦
      rw (timeout_loop, e)
        (timeout_loop-IsWellFormed ids _ _
          (remove_running s.pending_jobs s.running_jobs s.metrics.pending_gauge i id))
]

module _ {F : Type 0} (fl : Floats F) where
  claim_best-IsWellFormed :
      (now instant : ℕ) (best : Option (Str × F)) (s : InferenceScheduler)
      → IsWellFormed s
      → IsWellFormed (claim_best fl now instant best s).1
  claim_best-IsWellFormed now instant none s i = i
  claim_best-IsWellFormed now instant (some (id, score)) s i =
      elim (Option-cases (lookup id s.pending_jobs)) [
        | inl e ↦ rw (claim_best, e) i
        | inr (job, e) ↦
            let keyed = i.pending_keyed id job e in
            let after =
              move s.pending_jobs s.running_jobs s.metrics.pending_gauge i id job
                (claimed s.node_id now job) instant e keyed in
            rw (claim_best, e)
              (subst
                (λ k.
                  IsConsistent (remove id s.pending_jobs)
                    (insert k (claimed s.node_id now job, instant) s.running_jobs)
                    (dec s.metrics.pending_gauge))
                (sym keyed) after)
      ]

  -- A step of the scheduler: one of its operations, with any arguments.
  pub data Step (s : InferenceScheduler) : InferenceScheduler → Type 0 where
    whitelist : (models : List Str) → Step s (add_whitelisted_models models s)
    post : (job : InferenceJob) → Step s (add_job job s).1
    pull : (now instant : ℕ) → Step s (pull_next_job fl now instant s).1
    claim : (now instant : ℕ) (id node : Str) → Step s (mark_claimed now instant id node s)
    finish : (result : InferenceResult) → Step s (record_result result s)
    expire : (instant : ℕ) → Step s (check_timeouts instant s).1

  pub data Reachable : InferenceScheduler → Type 0 where
    start :
        (node_id : Str) (caps : InferenceCapabilities) (m : Metrics)
        → m.pending_gauge ≡ pos 0
        → Reachable (new_scheduler node_id caps m)
    next : (s s' : InferenceScheduler) → Reachable s → Step s s' → Reachable s'

  step-IsWellFormed : (s s' : InferenceScheduler) → Step s s' → IsWellFormed s → IsWellFormed s'
  unfolding add_whitelisted_models check_timeouts pull_next_job
  step-IsWellFormed s _ (whitelist models) i = i
  step-IsWellFormed s _ (post job) i = add_job-IsWellFormed job s i
  step-IsWellFormed s _ (pull now instant) i = claim_best-IsWellFormed now instant _ s i
  step-IsWellFormed s _ (claim now instant id node) i =
      mark_claimed-IsWellFormed now instant id node s i
  step-IsWellFormed s _ (finish result) i = record_result-IsWellFormed result s i
  step-IsWellFormed s _ (expire instant) i = timeout_loop-IsWellFormed _ [] s i

  -- In every state that a scheduler reaches by operations that follow one another, without overlap, from
  -- a gauge at 0, each job stands under its own identifier in at most one of the maps of pending and
  -- running jobs, no key has two entries, and what the scheduler itself has added to the gauge of the
  -- pending jobs is their number.
  pub Reachable-IsWellFormed : (s : InferenceScheduler) → Reachable s → IsWellFormed s
  Reachable-IsWellFormed _ (start node_id caps m e) = new_scheduler-IsWellFormed node_id caps m e
  Reachable-IsWellFormed _ (next s s' before step) =
      step-IsWellFormed s s' step (Reachable-IsWellFormed s before)
