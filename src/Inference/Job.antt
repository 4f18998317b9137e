-- ===== src/Inference/Job.antt =====
-- src/inference.rs: jobs, their age and their score on a node.
use cyberfly_rust_node.Common.{ℕ, ◌+◌, ◌-◌, ◌%◌, ◌^◌, Bool, not, ltb, leb, if◌then◌else◌}
use cyberfly_rust_node.Common.Int.{ℤ, pos_part, neg_part}
use cyberfly_rust_node.Common.Text.{Str}

pub data JobStatus : Type 0 where
  pending : JobStatus
  -- the node and the time of the start
  running : Str → ℤ → JobStatus
  -- the node and the latency
  completed : Str → ℕ → JobStatus
  failed : Str → JobStatus
  timed_out cancelled : JobStatus

pub record InferenceJob : Type 0 where
  pub job_id : Str
  pub model_name : Str
  pub input_uri : Str
  pub max_latency_ms : ℕ
  pub status : JobStatus
  pub created_at : ℤ
  pub requester : Str

-- The clock's reading `now` less a time, in the 64 bits of the machine.
abbrev pub since : ℕ → ℤ → ℕ
since now t =
    let n = now + neg_part t in
    if leb (pos_part t) n then (n - pos_part t) % 2 ^ 64 else 2 ^ 64 - (pos_part t - n) % 2 ^ 64

-- `as u64` keeps the bits: a job from the future counts as very old.
unfoldable pub is_expired : ℕ → InferenceJob → Bool
is_expired now job = ltb job.max_latency_ms (since now job.created_at)

-- `max(0)` comes first: a job from the future has age 0.
unfoldable pub age_ms : ℕ → InferenceJob → ℕ
age_ms now job = let d = since now job.created_at in if ltb d (2 ^ 63) then d else 0

pub record InferenceCapabilities : Type 0 where
  pub cpu_cores : ℕ
  pub ram_mb : ℕ
  pub supports_tflite : Bool
  pub supports_onnx : Bool
  pub gpu_mem_mb : ℕ

-- The arithmetic of f64: 0.0, 1.0 + cores * 0.1 + ram / 1024.0 * 0.05, and the products with 0.1 and
-- 0.5; and its order, `>`.
pub record Floats (F : Type 0) : Type 0 where
  pub zero_score : F
  pub base_score : ℕ → ℕ → F
  pub tenth : F → F
  pub half : F → F
  pub gtb : F → F → Bool

module _ {F : Type 0} (fl : Floats F) where
  unfoldable pub score_for_job : InferenceCapabilities → ℕ → InferenceJob → F
  score_for_job caps now job =
      if not caps.supports_tflite
      then fl.zero_score
      else let score = fl.base_score caps.cpu_cores caps.ram_mb in
        -- `saturating_sub`
        let remaining_ms = job.max_latency_ms - age_ms now job in
        if ltb remaining_ms 100
        then fl.tenth score
        else if ltb remaining_ms 1000
        then fl.half score
        else score
