-- ===== src/Crypto/Timestamp.antt =====
-- src/crypto.rs, `validate_timestamp`: which timestamps pass, and the error of each other one.
use cyberfly_rust_node.Common.{ℕ, ◌+◌, ◌*◌, ◌≤◌, ◌<◌, ◌≡◌, ◌↔◌, Option, some, arith, unwrap_or}
use cyberfly_rust_node.Common.Int.{ℤ, pos, dist_ℤ, quot_ℤ}
use cyberfly_rust_node.Common.Result.{ok, err}
use cyberfly_rust_node.Crypto.{validate_timestamp, timestamp_too_old, timestamp_too_future}

-- With the clock at `now` seconds, a timestamp in milliseconds passes exactly when its seconds
-- differ from `now` by the tolerance at most; the tolerance is an hour where none is given.
pub validate_timestamp_iff :
    (now : ℕ) (timestamp : ℤ) (tolerance : Option ℕ)
    → (validate_timestamp (some now) timestamp tolerance ≡ ok tt)
      ↔ (dist_ℤ (pos now) (quot_ℤ timestamp 1000) ≤ unwrap_or tolerance 3600)
unfolding validate_timestamp
validate_timestamp_iff now timestamp tolerance = ground arith

-- A nonnegative timestamp of `s` whole seconds is too old exactly when more than the tolerance
-- has passed since, and too far in the future exactly when it lies more than the tolerance ahead.
pub validate_timestamp_errors :
    (now s ms tol : ℕ)
    → ms < 1000
    → ((validate_timestamp (some now) (pos (s * 1000 + ms)) (some tol) ≡ err timestamp_too_old)
        ↔ (s + tol < now))
      × ((validate_timestamp (some now) (pos (s * 1000 + ms)) (some tol) ≡ err timestamp_too_future)
          ↔ (now + tol < s))
unfolding validate_timestamp
validate_timestamp_errors now s ms tol h = ground arith
