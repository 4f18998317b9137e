-- ===== src/Retry/Tests.antt =====
-- An operation that fails twice, for src/retry.rs, and the theorems applied to it.
use cyberfly_rust_node.Common.{ℕ, ◌≡◌, refl, [], ◌∷◌, some, replicate, leb, if◌then◌else◌}
use cyberfly_rust_node.Common.Text.{codes}
use cyberfly_rust_node.Common.Result.{Result, ok, err}
use cyberfly_rust_node.Retry.Executor.{
  DbError, timeout_error, is_recoverable, linear, exponential, custom, execute, execute_linear,
  linear_loop,
}
use cyberfly_rust_node.Retry.Spec.{backoff, Describes, execute-Describes}

abbrev flaky : ℕ → Result DbError ℕ
flaky i = if leb i 2 then err (timeout_error (codes "slow")) else ok i

third_call :
    execute flaky (linear 5 100)
    ≡ record { outcome = some (ok 3); calls = 3; sleeps = 100 ∷ 100 ∷ [] }
unfolding execute execute_linear linear_loop is_recoverable
third_call = refl

execute-Describes_example :
    Describes flaky 1 (replicate 2 100) (execute flaky (linear 3 100))
    × Describes flaky 1 (backoff flaky 2 100 1600) (execute flaky (exponential 3 100 1600))
    × Describes flaky 1 (5 ∷ 10 ∷ []) (execute flaky (custom (5 ∷ 10 ∷ [])))
execute-Describes_example = execute-Describes flaky 2 100 1600 (5 ∷ 10 ∷ [])
