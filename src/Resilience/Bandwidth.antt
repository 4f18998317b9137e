-- ===== src/Resilience/Bandwidth.antt =====
-- src/network_resilience.rs, `TokenBucket` and `BandwidthThrottle`. Instants and durations are in
-- nanoseconds. A call is one step, which the source does not ensure: `refill` loads the tokens and stores
-- them, and `try_consume` of another task takes no lock and can come in between.
pub mod Rate
pub mod Totals
use cyberfly_rust_node.Common.{
  ℕ, ◌+◌, ◌-◌, ◌*◌, ◌/◌, ◌%◌, ◌^◌, Bool, true, false, Option, none, some, List, [], ◌∷◌, ltb, leb,
  ◌==◌, if◌then◌else◌, unwrap_or,
}
use Prim.Native.Nat.{min}
use cyberfly_rust_node.Common.Assoc.{lookup, insert, nat_eq}
use cyberfly_rust_node.Resilience.Breaker.{EndpointId}

-- Arithmetic of u64 wraps.
abbrev pub u64 : ℕ → ℕ
u64 n = n % 2 ^ 64

-- as_millis()
abbrev pub as_millis : ℕ → ℕ
as_millis d = d / 1_000_000

pub record TokenBucket : Type 0 where
  pub tokens : ℕ
  pub max_tokens : ℕ
  pub refill_amount : ℕ
  pub last_refill : ℕ
  pub refill_interval : ℕ

-- The amount is `(rate_bps as f64 * refill_interval.as_secs_f64()) as u64`, which `per_refill` gives.
unfoldable pub new_bucket : (ℕ → ℕ → ℕ) → ℕ → ℕ → ℕ → TokenBucket
new_bucket per_refill rate_bps refill_interval now =
    let amount = per_refill rate_bps refill_interval in
    record {
      tokens = u64 (amount * 10);
      max_tokens = u64 (amount * 10);
      refill_amount = amount;
      last_refill = now;
      refill_interval = refill_interval;
    }

-- `none` is the panic of a division by an interval below a millisecond.
unfoldable pub refill : ℕ → TokenBucket → Option TokenBucket
refill now b =
    let elapsed = now - b.last_refill in
    if leb b.refill_interval elapsed
    then (if as_millis b.refill_interval == 0
        then none
        else some (record b {
          tokens =
              min
                (u64 (
                  b.tokens
                  + u64 (u64 (as_millis elapsed / as_millis b.refill_interval) * b.refill_amount)))
                b.max_tokens;
          last_refill = now;
        }))
    else some b

unfoldable pub try_consume : ℕ → TokenBucket → TokenBucket × Bool
try_consume amount b =
    if ltb b.tokens amount then (b, false) else (record b { tokens = b.tokens - amount }, true)

unfoldable pub available : TokenBucket → ℕ
available b = b.tokens

pub record BandwidthConfig : Type 0 where
  pub upload_limit_bps : ℕ
  pub download_limit_bps : ℕ
  pub per_peer_upload_bps : ℕ
  pub per_peer_download_bps : ℕ
  pub interval : ℕ

-- The fields of one direction: the global bucket, the peers' buckets and the total.
pub record Lane : Type 0 where
  pub bucket : Option TokenBucket
  pub peer_buckets : List (EndpointId × TokenBucket)
  pub total : ℕ

pub record BandwidthThrottle : Type 0 where
  pub config : BandwidthConfig
  pub upload : Lane
  pub download : Lane

module _ (per_refill : ℕ → ℕ → ℕ) where
  unfoldable pub global_bucket : ℕ → ℕ → ℕ → Option TokenBucket
  global_bucket limit_bps interval now =
      if ltb 0 limit_bps then some (new_bucket per_refill limit_bps interval now) else none

  unfoldable pub new_throttle : BandwidthConfig → ℕ → BandwidthThrottle
  new_throttle config now = record {
    config = config;
    upload = record {
      bucket = global_bucket config.upload_limit_bps config.interval now;
      peer_buckets = [];
      total = 0;
    };
    download = record {
      bucket = global_bucket config.download_limit_bps config.interval now;
      peer_buckets = [];
      total = 0;
    };
  }

  -- Refill and consume, for a bucket that may be absent.
  unfoldable pub pass_global : ℕ → ℕ → Option TokenBucket → Option (Option TokenBucket × Bool)
  pass_global now bytes none = some (none, true)
  pass_global now bytes (some b) = elim (refill now b) [
    | none ↦ none
    | some b' ↦ let (b'', passed) = try_consume bytes b' in some (some b'', passed)
  ]

  unfoldable pub pass_peer : (ℕ → ℕ) → ℕ → ℕ → EndpointId → ℕ → Lane → Option (Lane × Bool)
  pass_peer clock per_peer_bps interval peer_id bytes lane =
      if ltb 0 per_peer_bps
      then (let bucket =
            unwrap_or (lookup peer_id lane.peer_buckets)
              (new_bucket per_refill per_peer_bps interval (clock 1)) in
          elim (refill (clock 2) bucket) [
            | none ↦ none
            | some b ↦
                let (b', passed) = try_consume bytes b in
                some (record lane { peer_buckets = insert peer_id b' lane.peer_buckets }, passed)
          ])
      else some (lane, true)

  -- The body of try_upload and of try_download, which differ in the fields that they use.
  unfoldable pub try_transfer : (ℕ → ℕ) → ℕ → ℕ → EndpointId → ℕ → Lane → Option (Lane × Bool)
  try_transfer clock per_peer_bps interval peer_id bytes lane =
      elim (pass_global (clock 0) bytes lane.bucket) [
        | none ↦ none
        | some (bucket, passed) ↦
            let lane' = record lane { bucket = bucket } in
            let rest =
              elim (pass_peer clock per_peer_bps interval peer_id bytes lane')
                as (λ _. Option (Lane × Bool)) [
                  | none ↦ none
                  | some (lane'', allowed) ↦
                      if allowed
                      then some (record lane'' { total = u64 (lane''.total + bytes) }, true)
                      else some (lane'', false)
                ] in
            if passed then rest else some (lane', false)
      ]

  unfoldable pub try_upload :
      (ℕ → ℕ) → EndpointId → ℕ → BandwidthThrottle → Option (BandwidthThrottle × Bool)
  try_upload clock peer_id bytes t =
      elim (try_transfer clock t.config.per_peer_upload_bps t.config.interval peer_id bytes
        t.upload) [ none ↦ none | some (lane, sent) ↦ some (record t { upload = lane }, sent) ]

  unfoldable pub try_download :
      (ℕ → ℕ) → EndpointId → ℕ → BandwidthThrottle → Option (BandwidthThrottle × Bool)
  try_download clock peer_id bytes t =
      elim (try_transfer clock t.config.per_peer_download_bps t.config.interval peer_id bytes
        t.download) [ none ↦ none | some (lane, sent) ↦ some (record t { download = lane }, sent) ]

  unfoldable pub update_limits : ℕ → ℕ → ℕ → BandwidthThrottle → BandwidthThrottle
  update_limits now upload_bps download_bps t = record t {
    config = record t.config { upload_limit_bps = upload_bps; download_limit_bps = download_bps };
    upload = record t.upload { bucket = global_bucket upload_bps t.config.interval now };
    download = record t.download { bucket = global_bucket download_bps t.config.interval now };
  }

pub record BandwidthStats : Type 0 where
  pub total_uploaded : ℕ
  pub total_downloaded : ℕ
  pub upload_available : Option ℕ
  pub download_available : Option ℕ
  pub upload_limit : ℕ
  pub download_limit : ℕ

abbrev lane_available : Lane → Option ℕ
lane_available lane = elim lane.bucket [ none ↦ none | some b ↦ some (available b) ]

unfoldable pub get_stats : BandwidthThrottle → BandwidthStats
get_stats t = record {
  total_uploaded = t.upload.total;
  total_downloaded = t.download.total;
  upload_available = lane_available t.upload;
  download_available = lane_available t.download;
  upload_limit = t.config.upload_limit_bps;
  download_limit = t.config.download_limit_bps;
}
