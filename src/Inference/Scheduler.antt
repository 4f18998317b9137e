-- ===== src/Inference/Scheduler.antt =====
-- src/inference.rs, `InferenceScheduler`. The clock is read once in each operation, and each operation
-- is one step. The source does not ensure that: `add_job` tests one map and writes another, and
-- `pull_next_job` and `mark_claimed` remove from one and insert into the other, without a common lock.
-- The gauges are those of src/metrics.rs as far as the scheduler moves them; src/graphql.rs and
-- src/iroh_network.rs move them too.
use cyberfly_rust_node.Common.{
  ℕ, zero, suc, ◌-◌, ◌%◌, ◌^◌, Bool, ◌||◌, Option, none, some, List, [], ◌∷◌, ◌++◌, ltb,
  if◌then◌else◌, not, is_some, length,
}
use cyberfly_rust_node.Common.Int.{ℤ, pos, negsuc}
use cyberfly_rust_node.Common.Text.{Str, codes}
use cyberfly_rust_node.Common.Assoc.{lookup, insert, remove, contains, add, str_key}
use cyberfly_rust_node.Common.Result.{Result, ok, err}
use cyberfly_rust_node.Inference.Job.{
  running, timed_out, InferenceJob, InferenceCapabilities, Floats, is_expired, score_for_job,
}

pub record InferenceResult : Type 0 where
  pub job_id : Str
  pub node_id : Str
  pub output_uri : Str
  pub latency_ms : ℕ
  pub completed_at : ℤ
  pub success : Bool
  pub error : Option Str

-- The errors that the scheduler returns.
pub data InferenceError : Type 0 where
  model_not_whitelisted : Str → InferenceError

-- Two gauges and two counters.
pub record Metrics : Type 0 where
  pub pending_gauge : ℤ
  pub running_gauge : ℤ
  pub completed_total : ℕ
  pub timeouts_total : ℕ

-- A running job comes with the instant of its start, in milliseconds.
pub record InferenceScheduler : Type 0 where
  pub pending_jobs : List (Str × InferenceJob)
  pub running_jobs : List (Str × (InferenceJob × ℕ))
  pub completed_results : List (Str × InferenceResult)
  pub local_capabilities : InferenceCapabilities
  pub model_whitelist : List Str
  pub node_id : Str
  pub metrics : Metrics

abbrev pub inc : ℤ → ℤ
inc (pos n) = pos (suc n)
inc (negsuc zero) = pos 0
inc (negsuc (suc n)) = negsuc n

abbrev pub dec : ℤ → ℤ
dec (pos zero) = negsuc 0
dec (pos (suc n)) = pos n
dec (negsuc n) = negsuc (suc n)

abbrev default_whitelist : List Str
default_whitelist =
    codes "mobilenet_v4"
    ∷ codes "paddleocr_det"
    ∷ codes "paddleocr_rec_en"
    ∷ codes "paddleocr_en"
    ∷ codes "yolo11n"
    ∷ codes "segformer"
    ∷ codes "silero_vad"
    ∷ codes "dtln_denoise"
    ∷ []

-- The metrics belong to the whole node: they come as they are.
unfoldable pub new_scheduler : Str → InferenceCapabilities → Metrics → InferenceScheduler
new_scheduler node_id capabilities metrics = record {
  pending_jobs = [];
  running_jobs = [];
  completed_results = [];
  local_capabilities = capabilities;
  model_whitelist = default_whitelist;
  node_id = node_id;
  metrics = metrics;
}

unfoldable pub add_all : List Str → List Str → List Str
add_all [] whitelist = whitelist
add_all (model ∷ models) whitelist = add_all models (add model whitelist)

unfoldable pub add_whitelisted_models : List Str → InferenceScheduler → InferenceScheduler
add_whitelisted_models models s = record s { model_whitelist = add_all models s.model_whitelist }

unfoldable pub is_model_whitelisted : Str → InferenceScheduler → Bool
is_model_whitelisted model_name s = contains model_name s.model_whitelist

unfoldable pub add_job :
    InferenceJob → InferenceScheduler → Result InferenceError (Unit {0}) × InferenceScheduler
add_job job s =
    if not (is_model_whitelisted job.model_name s)
    then (err (model_not_whitelisted job.model_name), s)
    else if is_some (lookup job.job_id s.pending_jobs) || is_some (lookup job.job_id s.running_jobs)
    then (ok tt, s)
    else (
      ok tt,
      record s {
        pending_jobs = insert job.job_id job s.pending_jobs;
        metrics = record s.metrics { pending_gauge = inc s.metrics.pending_gauge };
      },
    )

-- The move of a job from pending to running.
abbrev pub claimed : Str → ℕ → InferenceJob → InferenceJob
claimed node_id now job = record job { status = running node_id (pos now) }

unfoldable pub mark_claimed : ℕ → ℕ → Str → Str → InferenceScheduler → InferenceScheduler
mark_claimed now instant job_id node_id s = elim (lookup job_id s.pending_jobs) [
  | none ↦ s
  | some job ↦ record s {
    pending_jobs = remove job_id s.pending_jobs;
    running_jobs = insert job_id (claimed node_id now job, instant) s.running_jobs;
    metrics = record s.metrics { pending_gauge = dec s.metrics.pending_gauge };
  }
]

unfoldable pub record_result : InferenceResult → InferenceScheduler → InferenceScheduler
record_result result s = record s {
  running_jobs = remove result.job_id s.running_jobs;
  completed_results = insert result.job_id result s.completed_results;
  metrics = record s.metrics {
    running_gauge = dec s.metrics.running_gauge;
    completed_total = suc s.metrics.completed_total;
  };
}

-- now.duration_since(started_at).as_millis() as u64, past the job's limit; an instant ahead gives 0.
abbrev pub is_overdue : ℕ → InferenceJob × ℕ → Bool
is_overdue instant (job, started_at) = ltb job.max_latency_ms ((instant - started_at) % 2 ^ 64)

unfoldable pub expired_ids : ℕ → List (Str × (InferenceJob × ℕ)) → List Str
expired_ids instant [] = []
expired_ids instant ((job_id, entry) ∷ m) =
    let rest = expired_ids instant m in if is_overdue instant entry then job_id ∷ rest else rest

abbrev pub expire_one : Str → InferenceJob → InferenceScheduler → InferenceScheduler
expire_one job_id job s = record s {
  running_jobs = remove job_id s.running_jobs;
  metrics = record s.metrics {
    running_gauge = dec s.metrics.running_gauge;
    timeouts_total = suc s.metrics.timeouts_total;
  };
}

unfoldable pub timeout_loop :
    List Str → List InferenceJob → InferenceScheduler → List InferenceJob × InferenceScheduler
timeout_loop [] out s = (out, s)
timeout_loop (job_id ∷ ids) out s = elim (lookup job_id s.running_jobs) [
  | none ↦ timeout_loop ids out s
  | some (job, started_at) ↦
      timeout_loop ids (out ++ record job { status = timed_out } ∷ []) (expire_one job_id job s)
]

unfoldable pub check_timeouts : ℕ → InferenceScheduler → List InferenceJob × InferenceScheduler
check_timeouts instant s = timeout_loop (expired_ids instant s.running_jobs) [] s

unfoldable pub pending_count : InferenceScheduler → ℕ
pending_count s = length s.pending_jobs

unfoldable pub running_count : InferenceScheduler → ℕ
running_count s = length s.running_jobs

unfoldable pub get_result : Str → InferenceScheduler → Option InferenceResult
get_result job_id s = lookup job_id s.completed_results

unfoldable pub get_job : Str → InferenceScheduler → Option InferenceJob
get_job job_id s = elim (lookup job_id s.running_jobs) [
  | some (job, started_at) ↦ some job
  | none ↦ lookup job_id s.pending_jobs
]

module _ {F : Type 0} (fl : Floats F) where
  -- The scan's best job so far, after one more.
  unfoldable pub consider :
      InferenceCapabilities → ℕ → InferenceJob → Option (Str × F) → Option (Str × F)
  consider caps now job best =
      let score = score_for_job fl caps now job in
      if is_expired now job || not (fl.gtb score fl.zero_score) then best else elim best [
        | none ↦ some (job.job_id, score)
        | some (best_id, best_score) ↦
            if fl.gtb score best_score then some (job.job_id, score) else some (best_id, best_score)
      ]

  unfoldable pub best_job :
      InferenceCapabilities → ℕ → List (Str × InferenceJob) → Option (Str × F) → Option (Str × F)
  best_job caps now [] best = best
  best_job caps now ((job_id, job) ∷ m) best = best_job caps now m (consider caps now job best)

  abbrev pub claim_best :
      ℕ → ℕ → Option (Str × F) → InferenceScheduler → Option InferenceJob × InferenceScheduler
  claim_best now instant none s = (none, s)
  claim_best now instant (some (job_id, score)) s = elim (lookup job_id s.pending_jobs) [
    | none ↦ (none, s)
    | some job ↦
        let taken = claimed s.node_id now job in
        (
          some taken,
          record s {
            pending_jobs = remove job_id s.pending_jobs;
            running_jobs = insert job.job_id (taken, instant) s.running_jobs;
            metrics = record s.metrics {
              pending_gauge = dec s.metrics.pending_gauge;
              running_gauge = inc s.metrics.running_gauge;
            };
          },
        )
  ]

  unfoldable pub pull_next_job :
      ℕ → ℕ → InferenceScheduler → Option InferenceJob × InferenceScheduler
  pull_next_job now instant s =
      claim_best now instant (best_job s.local_capabilities now s.pending_jobs none) s
