-- ===== src/Retry/Executor.antt =====
-- src/retry.rs, `RetryExecutor`: the loops of the strategies. The operation is given by the result of
-- each of its calls; a run says what came out (`none` is a panic), how many calls were made, and the
-- sleeps in between, in milliseconds.
use cyberfly_rust_node.Common.{
  ℕ, zero, suc, ◌+◌, ◌*◌, ◌%◌, ◌^◌, Bool, true, false, not, ◌||◌, Option, none, some, List, [], ◌∷◌,
  ◌==◌, ltb, if◌then◌else◌, length,
}
use Prim.Native.Nat.{min}
use cyberfly_rust_node.Common.Text.{Str}
use cyberfly_rust_node.Common.Result.{Result, ok, err}

pub data DbError : Type 0 where
  signature_error storage_error network_error crdt_error invalid_data config_error : Str → DbError
  internal_error static_error sync_error rate_limit_error auth_error : Str → DbError
  resource_exhausted timeout_error : Str → DbError

unfoldable pub is_recoverable : DbError → Bool
is_recoverable (network_error s) = true
is_recoverable (timeout_error s) = true
is_recoverable (rate_limit_error s) = true
is_recoverable (resource_exhausted s) = true
is_recoverable (sync_error s) = true
is_recoverable (storage_error s) = true
is_recoverable _ = false

pub data RetryStrategy : Type 0 where
  once : RetryStrategy
  linear : (max_attempts delay_ms : ℕ) → RetryStrategy
  exponential : (max_attempts base_delay_ms max_delay_ms : ℕ) → RetryStrategy
  custom : (intervals_ms : List ℕ) → RetryStrategy

pub record Run (A : Type 0) : Type 0 where
  pub outcome : Option (Result DbError A)
  pub calls : ℕ
  pub sleeps : List ℕ

-- The delay doubles, in u64, up to the maximum.
abbrev pub next_delay : ℕ → ℕ → ℕ
next_delay delay max_delay = min (delay * 2 % 2 ^ 64) max_delay

module _ {A : Type 0} where
  -- Err(last_error.unwrap()), after the loop.
  abbrev unwrap_last : Option DbError → Run A
  unwrap_last none = record { outcome = none; calls = 0; sleeps = [] }
  unwrap_last (some e) = record { outcome = some (err e); calls = 0; sleeps = [] }

  abbrev pub finish : Result DbError A → Run A
  finish r = record { outcome = some r; calls = 1; sleeps = [] }

  -- A call that failed, the sleep after it and the rest.
  abbrev pub slept : ℕ → Run A → Run A
  slept delay r = record r { calls = suc r.calls; sleeps = delay ∷ r.sleeps }

  -- The sleep before a call.
  abbrev sleep_first : ℕ → Run A → Run A
  sleep_first delay r = record r { sleeps = delay ∷ r.sleeps }

  module _ (operation : ℕ → Result DbError A) where
    -- `for attempt in 1..=max_attempts`, with the attempts that are left.
    unfoldable pub linear_loop : ℕ → ℕ → ℕ → ℕ → Option DbError → Run A
    linear_loop max_attempts delay zero attempt last_error = unwrap_last last_error
    linear_loop max_attempts delay (suc left) attempt last_error = elim (operation attempt) [
      | ok a ↦ finish (ok a)
      | err e ↦
          let rest = linear_loop max_attempts delay left (suc attempt) (some e) in
          if not (is_recoverable e) || attempt == max_attempts
          then finish (err e)
          else slept delay rest
    ]

    unfoldable pub execute_linear : ℕ → ℕ → Run A
    execute_linear max_attempts delay_ms = linear_loop max_attempts delay_ms max_attempts 1 none

    unfoldable pub exponential_loop : ℕ → ℕ → ℕ → ℕ → ℕ → Option DbError → Run A
    exponential_loop max_attempts max_delay delay zero attempt last_error = unwrap_last last_error
    exponential_loop max_attempts max_delay delay (suc left) attempt last_error =
        elim (operation attempt) [
          | ok a ↦ finish (ok a)
          | err e ↦
              let rest =
                exponential_loop max_attempts max_delay (next_delay delay max_delay) left
                  (suc attempt) (some e) in
              if not (is_recoverable e) || attempt == max_attempts
              then finish (err e)
              else slept delay rest
        ]

    unfoldable pub execute_exponential : ℕ → ℕ → ℕ → Run A
    execute_exponential max_attempts base_delay_ms max_delay_ms =
        exponential_loop max_attempts max_delay_ms base_delay_ms max_attempts 1 none

    -- The sleep comes before each call but the first.
    unfoldable pub custom_loop : ℕ → List ℕ → ℕ → Option DbError → Run A
    custom_loop max_attempts [] attempt last_error = unwrap_last last_error
    custom_loop max_attempts (delay ∷ delays) attempt last_error =
        let called = elim (operation attempt) as (λ _. Run A) [
          | ok a ↦ finish (ok a)
          | err e ↦
              let rest = custom_loop max_attempts delays (suc attempt) (some e) in
              if not (is_recoverable e) || attempt == max_attempts
              then finish (err e)
              else record rest { calls = suc rest.calls }
        ] in
        if ltb 1 attempt then sleep_first delay called else called

    unfoldable pub execute_custom : List ℕ → Run A
    execute_custom intervals_ms = custom_loop (length intervals_ms + 1) (0 ∷ intervals_ms) 1 none

    unfoldable pub execute : RetryStrategy → Run A
    execute once = finish (operation 1)
    execute (linear max_attempts delay_ms) = execute_linear max_attempts delay_ms
    execute (exponential max_attempts base_delay_ms max_delay_ms) =
        execute_exponential max_attempts base_delay_ms max_delay_ms
    execute (custom intervals_ms) = execute_custom intervals_ms

    -- retry_with_exponential_backoff and retry_with_linear_backoff
    unfoldable pub retry_with_exponential_backoff : ℕ → ℕ → Run A
    retry_with_exponential_backoff max_attempts base_delay_ms =
        execute (exponential max_attempts base_delay_ms (base_delay_ms * 16 % 2 ^ 64))

    unfoldable pub retry_with_linear_backoff : ℕ → ℕ → Run A
    retry_with_linear_backoff max_attempts delay_ms = execute (linear max_attempts delay_ms)
