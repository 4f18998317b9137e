-- ===== src/Retry/Breaker.antt =====
-- src/retry.rs, `CircuitBreaker`: the breaker around a single operation. The fields behind mutexes are
-- the fields of its state; the clock's reading is an argument.
use cyberfly_rust_node.Common.{
  ℕ, suc, ◌+◌, ◌-◌, ◌%◌, ◌^◌, ◌<◌, ◌≡◌, refl, Bool, true, false, Option, none, some, List, [], ◌∷◌,
  arith, leb, if◌then◌else◌, length,
}
use cyberfly_rust_node.Common.Text.{codes}
use cyberfly_rust_node.Common.Result.{Result, ok, err}
use cyberfly_rust_node.Retry.Executor.{DbError, resource_exhausted}

pub data CircuitBreakerState : Type 0 where
  closed open_ half_open : CircuitBreakerState

pub record CircuitBreaker : Type 0 where
  pub failure_threshold : ℕ
  pub recovery_timeout : ℕ
  pub failure_count : ℕ
  pub last_failure_time : Option ℕ
  pub state : CircuitBreakerState

unfoldable pub new_breaker : ℕ → ℕ → CircuitBreaker
new_breaker failure_threshold recovery_timeout = record {
  failure_threshold = failure_threshold;
  recovery_timeout = recovery_timeout;
  failure_count = 0;
  last_failure_time = none;
  state = closed;
}

unfoldable pub should_allow_request : ℕ → CircuitBreaker → CircuitBreaker × Bool
should_allow_request now b = elim b.state [
  | closed ↦ (b, true)
  | open_ ↦ elim b.last_failure_time [
    | none ↦ (b, true)
    | some last_time ↦
        if leb b.recovery_timeout (now - last_time)
        then (record b { state = half_open }, true)
        else (b, false)
  ]
  | half_open ↦ (b, true)
]

unfoldable pub on_success : CircuitBreaker → CircuitBreaker
on_success b = record b { failure_count = 0; state = closed }

unfoldable pub on_failure : ℕ → CircuitBreaker → CircuitBreaker
on_failure now b =
    let count = (b.failure_count + 1) % 2 ^ 32 in
    record b {
      failure_count = count;
      last_failure_time = some now;
      state = if leb b.failure_threshold count then open_ else b.state;
    }

-- CircuitBreaker::execute, with the operation's result, where it is called: the clock is read before
-- the call and after it.
unfoldable pub execute_guarded :
    {A : Type 0} → ℕ → ℕ → Result DbError A → CircuitBreaker → CircuitBreaker × Result DbError A
execute_guarded before after result b =
    let (b', allowed) = should_allow_request before b in
    if allowed
    then elim result [ ok a ↦ (on_success b', ok a) | err e ↦ (on_failure after b', err e) ]
    else (b', err (resource_exhausted (codes "Circuit breaker is open")))

-- Calls of an operation that fails with `e`, at the given times before and after.
unfoldable pub failing : DbError → List (ℕ × ℕ) → CircuitBreaker → CircuitBreaker
failing e [] b = b
failing e ((before, after) ∷ calls) b =
    failing e calls (execute_guarded {A = Unit {0}} before after (err e) b).0

failing_closed :
    (e : DbError) (calls : List (ℕ × ℕ)) (b : CircuitBreaker)
    → b.state ≡ closed
    → b.failure_count + length calls < b.failure_threshold
    → b.failure_threshold < 2 ^ 32
    → ((failing e calls b).state ≡ closed)
      × ((failing e calls b).failure_count ≡ b.failure_count + length calls)
      × ((failing e calls b).failure_threshold ≡ b.failure_threshold)
      × ((failing e calls b).recovery_timeout ≡ b.recovery_timeout)
unfolding failing execute_guarded should_allow_request on_failure
failing_closed e [] b h lt small = ground arith
failing_closed e ((before, after) ∷ calls) b h lt small =
    ground (arith, failing_closed e calls (execute_guarded {A = Unit {0}} before after (err e) b).0)

-- A new breaker whose operation fails once less than the threshold still calls it; with one failure
-- more at `after` it is open, and until the recovery timeout has passed since it refuses the operation,
-- whatever its result would be. The threshold is positive and a u32.
pub breaker_blocks :
    (e : DbError) (calls : List (ℕ × ℕ)) (recovery_timeout before after now later : ℕ)
    (result : Result DbError ℕ)
    → suc (length calls) < 2 ^ 32
    → now - after < recovery_timeout
    → let b = failing e calls (new_breaker (suc (length calls)) recovery_timeout) in
      let c = (execute_guarded {A = ℕ} before after (err e) b).0 in
      (b.state ≡ closed)
      × (c.state ≡ open_)
      × (execute_guarded now later result c
          ≡ (c, err (resource_exhausted (codes "Circuit breaker is open"))))
unfolding execute_guarded should_allow_request on_failure new_breaker
breaker_blocks e calls recovery_timeout before after now later result small early =
    let b : CircuitBreaker = new_breaker (suc (length calls)) recovery_timeout in
    let h = failing_closed e calls b refl (omega arith) small in ground (arith, h)
