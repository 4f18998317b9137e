-- ===== src/Inference/Tests.antt =====
-- Two jobs on a node, for src/inference.rs, and the theorems applied to them.
use cyberfly_rust_node.Common.{
  ℕ, ◌+◌, ◌*◌, ◌/◌, ◌≡◌, refl, ◌⊎◌, true, false, none, some, ltb, arith,
}
use cyberfly_rust_node.Common.Int.{pos}
use cyberfly_rust_node.Common.Text.{Str, codes}
use cyberfly_rust_node.Common.Assoc.{lookup, str_key}
use cyberfly_rust_node.Inference.Job.{pending, InferenceJob, InferenceCapabilities, Floats}
use cyberfly_rust_node.Inference.Scheduler.{
  InferenceScheduler, Metrics, claimed, new_scheduler, add_job, mark_claimed, pull_next_job,
  check_timeouts,
}
use cyberfly_rust_node.Inference.Best.{IsStrictOrder}
use cyberfly_rust_node.Inference.Steps.{
  IsWellFormed, Reachable, start, next, post, claim, Reachable-IsWellFormed,
}
use cyberfly_rust_node.Inference.Pull.{eligible, Idle, IsTop, HasMoved, pull_next_job_lem}
use cyberfly_rust_node.Inference.Timeouts.{overdue_jobs, in_time, check_timeouts_lem}

-- Scores in thousandths.
abbrev floats : Floats ℕ
floats = record {
  zero_score = 0;
  base_score = λ cores ram. 1000 + cores * 100 + ram * 50 / 1024;
  tenth = λ x. x / 10;
  half = λ x. x / 2;
  gtb = λ a b. ltb b a;
}

floats-IsStrictOrder : IsStrictOrder floats
floats-IsStrictOrder = record {
  irrefl = λ a. ground arith;
  trans = λ a b c h k. ground arith;
  cotrans = λ a b c h k. ground arith;
}

abbrev node : InferenceCapabilities
node = record {
  cpu_cores = 4;
  ram_mb = 4096;
  supports_tflite = true;
  supports_onnx = false;
  gpu_mem_mb = 0;
}

abbrev job : Str → ℕ → InferenceJob
job id max_latency_ms = record {
  job_id = id;
  model_name = codes "yolo11n";
  input_uri = codes "uri";
  max_latency_ms = max_latency_ms;
  status = pending;
  created_at = pos 1000;
  requester = codes "r";
}

abbrev metrics : Metrics
metrics = record {
  pending_gauge = pos 0;
  running_gauge = pos 0;
  completed_total = 0;
  timeouts_total = 0;
}

abbrev fresh : InferenceScheduler
fresh = new_scheduler (codes "n") node metrics

abbrev with_a : InferenceScheduler
with_a = (add_job (job (codes "a") 500) fresh).1

abbrev two_jobs : InferenceScheduler
two_jobs = (add_job (job (codes "b") 5000) with_a).1

abbrev one_running : InferenceScheduler
one_running = mark_claimed 1100 20 (codes "a") (codes "m") two_jobs

two_jobs-Reachable : Reachable floats two_jobs
two_jobs-Reachable =
    next with_a two_jobs (next fresh with_a (start (codes "n") node metrics refl) (post _)) (post _)

one_running-Reachable : Reachable floats one_running
one_running-Reachable =
    next two_jobs one_running two_jobs-Reachable (claim 1100 20 (codes "a") (codes "m"))

Reachable-IsWellFormed_example : IsWellFormed one_running
Reachable-IsWellFormed_example = Reachable-IsWellFormed floats one_running one_running-Reachable

two_jobs-IsWellFormed : IsWellFormed two_jobs
two_jobs-IsWellFormed = Reachable-IsWellFormed floats two_jobs two_jobs-Reachable

one_running-IsWellFormed : IsWellFormed one_running
one_running-IsWellFormed = Reachable-IsWellFormed floats one_running one_running-Reachable

pull_next_job_lem_example :
    ((pull_next_job floats 1200 20 two_jobs ≡ (none, two_jobs))
      × Idle floats floats-IsStrictOrder 1200 20 two_jobs two_jobs-IsWellFormed)
    ⊎ ((j : InferenceJob) × (lookup j.job_id two_jobs.pending_jobs ≡ some j)
        × (eligible floats floats-IsStrictOrder 1200 20 two_jobs two_jobs-IsWellFormed j ≡ true)
        × IsTop floats floats-IsStrictOrder 1200 20 two_jobs two_jobs-IsWellFormed j
        × ((pull_next_job floats 1200 20 two_jobs).0 ≡ some (claimed two_jobs.node_id 1200 j))
        × HasMoved floats floats-IsStrictOrder 1200 20 two_jobs two_jobs-IsWellFormed j
            (pull_next_job floats 1200 20 two_jobs).1)
pull_next_job_lem_example =
    pull_next_job_lem floats floats-IsStrictOrder 1200 20 two_jobs two_jobs-IsWellFormed

check_timeouts_lem_example :
    ((check_timeouts 600 one_running).0 ≡ overdue_jobs 600 one_running.running_jobs)
    × ((k : Str)
        → lookup k (check_timeouts 600 one_running).1.running_jobs
          ≡ in_time 600 (lookup k one_running.running_jobs))
    × ((check_timeouts 600 one_running).1.pending_jobs ≡ one_running.pending_jobs)
    × ((check_timeouts 600 one_running).1.completed_results ≡ one_running.completed_results)
check_timeouts_lem_example = check_timeouts_lem 600 one_running one_running-IsWellFormed
