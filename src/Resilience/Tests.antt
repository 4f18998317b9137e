-- ===== src/Resilience/Tests.antt =====
-- Concrete peers and buckets for src/network_resilience.rs, and the theorems applied to them.
use cyberfly_rust_node.Common.{ℕ, ◌/◌, ◌≡◌, refl, true, false, none, some, [], ◌∷◌, arith}
use cyberfly_rust_node.Common.Assoc.{lookup, insert, nat_eq}
use cyberfly_rust_node.Resilience.Breaker.{
  closed, open_, CircuitBreakerConfig, PeerCircuitState, default_state, PeerStates, allow_peer,
}
use cyberfly_rust_node.Resilience.Breaker.Invariant.{IsSound}
use cyberfly_rust_node.Resilience.Breaker.Trips.{fail_run, succeed_run, failures_open, recovery}
use cyberfly_rust_node.Resilience.Bandwidth.{
  TokenBucket, new_bucket, refill, try_consume, Lane, BandwidthThrottle, pass_global, pass_peer,
  try_transfer, try_upload,
}
use cyberfly_rust_node.Resilience.Bandwidth.Rate.{Spent, run_bucket, bucket_rate}
use cyberfly_rust_node.Common.Whole.{whole}
use cyberfly_rust_node.Common.{In, List}
use cyberfly_rust_node.Common.Lists.{sort_by}
use cyberfly_rust_node.Common.Unique.{IsUnique}
use cyberfly_rust_node.Resilience.Reputation.{
  ReputationConfig, PeerReputation, default_reputation_config, new_reputation, sync_failed,
  sync_succeeded, record_sync_success, record_sync_failure, get_or_create, update_latency,
  ban_if_low, apply_decay, decayed, hours_between, unban,
}
use cyberfly_rust_node.Resilience.Ranking.{is_banned, composite, get_sync_candidates, get_top_peers}
use cyberfly_rust_node.Resilience.Combined.{
  NetworkResilience, Event, success, failure, unban_, decay, happen_all, happen, succeed_with,
  fail_with, should_communicate,
}
use cyberfly_rust_node.Resilience.Standing.{banned_lem}

-- The defaults, in seconds.
abbrev config : CircuitBreakerConfig
config = record {
  failure_threshold = 5;
  recovery_timeout = 30;
  success_threshold = 2;
  failure_window = 60;
}

default-IsSound : IsSound config default_state
default-IsSound = record {
  below = λ e. omega arith;
  dated = λ e. cc;
  testing = λ e. cc;
  counted = refl;
}

failures_open_example : (fail_run config (1 ∷ 2 ∷ 3 ∷ 4 ∷ 5 ∷ []) default_state).state ≡ open_
failures_open_example =
    failures_open config 1 5 (1 ∷ 2 ∷ 3 ∷ 4 ∷ 5 ∷ []) (omega arith) (omega arith) (omega arith)
      (omega arith)

abbrev opened : PeerCircuitState
opened = record default_state { state = open_; opened_at = some 10; success_count = 7 }

recovery_example :
    ((allow_peer config 40 opened).1 ≡ true)
    × ((succeed_run config 2 (allow_peer config 40 opened).0).state ≡ closed)
recovery_example = recovery config 40 10 2 opened refl refl (omega arith)

abbrev peers : PeerStates
peers = (1, opened) ∷ (2, default_state) ∷ []

-- 100 tokens for each interval of 100 ms.
abbrev bucket : TokenBucket
bucket = record {
  tokens = 50;
  max_tokens = 1000;
  refill_amount = 100;
  last_refill = 0;
  refill_interval = 100_000_000;
}

abbrev later_bucket : TokenBucket
later_bucket = record bucket { tokens = 10; last_refill = 200_000_000 }

bucket_run :
    run_bucket ((50_000_000, 40) ∷ (200_000_000, 200) ∷ (210_000_000, 500) ∷ []) bucket
    ≡ some (later_bucket, 240)
unfolding run_bucket refill try_consume
bucket_run = refl

bucket_rate_example : Spent bucket later_bucket 240
bucket_rate_example =
    bucket_rate ((50_000_000, 40) ∷ (200_000_000, 200) ∷ (210_000_000, 500) ∷ []) bucket
      later_bucket 240 bucket_run

abbrev fixed : ℕ → ℕ → ℕ
fixed rate interval = rate / 10

abbrev lane : Lane
lane = record { bucket = some bucket; peer_buckets = []; total = 0 }

abbrev throttle : BandwidthThrottle
throttle = record {
  config = record {
    upload_limit_bps = 1000;
    download_limit_bps = 0;
    per_peer_upload_bps = 10;
    per_peer_download_bps = 0;
    interval = 100_000_000;
  };
  upload = lane;
  download = record { bucket = none; peer_buckets = []; total = 0 };
}

abbrev no_time : ℕ → ℕ
no_time i = 0

abbrev peer_bucket : ℕ → TokenBucket
peer_bucket n = record {
  tokens = n;
  max_tokens = 10;
  refill_amount = 1;
  last_refill = 0;
  refill_interval = 100_000_000;
}

abbrev sent_lane : Lane
sent_lane = record {
  bucket = some (record bucket { tokens = 46 });
  peer_buckets = (3, peer_bucket 6) ∷ [];
  total = 4;
}

abbrev refused_lane : Lane
refused_lane = record {
  bucket = some (record bucket { tokens = 30 });
  peer_buckets = (3, peer_bucket 10) ∷ [];
  total = 0;
}

upload_sent :
    try_upload fixed no_time 3 4 throttle ≡ some (record throttle { upload = sent_lane }, true)
unfolding try_upload try_transfer pass_global pass_peer refill try_consume new_bucket lookup insert
upload_sent = refl

transfer_refused : try_transfer fixed no_time 10 100_000_000 3 20 lane ≡ some (refused_lane, false)
unfolding try_transfer pass_global pass_peer refill try_consume new_bucket lookup insert
transfer_refused = refl

no_refill : refill 0 bucket ≡ some bucket
unfolding refill
no_refill = refl

abbrev scores : ReputationConfig ℕ
scores = default_reputation_config whole

-- Peer 1 is banned, peer 2 is new.
abbrev standing : NetworkResilience ℕ
standing = record {
  circuit_breaker = peers;
  reputation =
      (1, record (new_reputation whole 0 0) { is_banned = true })
      ∷ (2, new_reputation whole 0 50)
      ∷ [];
}

-- A good sync with peer 1, a failed one with peer 2, a day of decay and an unban of peer 2.
abbrev happenings : List (Event whole config scores)
happenings = success 50 1 (some 20) ∷ failure 51 2 ∷ decay 86400000000000 ∷ unban_ 2 ∷ []

candidates_ok :
    get_sync_candidates whole scores 5
      (happen_all whole config scores happenings standing).reputation
    ≡ 2 ∷ []
unfolding new_reputation happen_all happen get_sync_candidates succeed_with fail_with
    record_sync_success record_sync_failure get_or_create sync_succeeded sync_failed update_latency
    ban_if_low apply_decay decayed hours_between composite unban sort_by lookup insert
candidates_ok = refl

banned_lem_example :
    let n' = happen_all whole config scores happenings standing in
    ((should_communicate whole config scores 90 1 n').1 ≡ false)
    × (¬ In 1 (get_sync_candidates whole scores 5 n'.reputation))
    × ((rep : PeerReputation ℕ) → ¬ In (1, rep) (get_top_peers whole 5 n'.reputation))
unfolding IsUnique lookup is_banned
banned_lem_example =
    banned_lem whole config scores happenings 1 standing 90 5 (refl, (refl, tt))
      (λ e. omega arith, tt) refl
