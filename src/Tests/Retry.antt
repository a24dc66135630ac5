-- ===== src/Tests/Retry.antt =====
-- Runs of the breaker and of the retry loop of src/monitoring/retry.rs.
use fuji.Base.{
  ℕ, ◌+◌, ◌<◌, ◌*◌, ◌≡◌, refl, ◌↔◌, true, false, none, some, List, [], ◌∷◌, leb, max, arith, ok,
  err, get, from_secs, if◌then◌else◌,
}
use fuji.Monitoring.Retry.{
  CircuitBreakerState, new_breaker, should_allow_attempt, time_until_close, new, get_policy,
}
use fuji.Monitoring.Retry.Breaker.{
  Event, failure, apply, apply_all, fail_all, IsValid, breaker_run-IsValid,
  should_allow_attempt-time_until_close, opens_at_threshold, open_ignores_failures,
}
use fuji.Monitoring.Retry.Loop.{Round, execute_with_retry}
use fuji.Monitoring.Retry.Loop.Outcome.{Ends, execute_with_retry-Ends}
use fuji.Monitoring.Retry.Loop.Success.{Retries, Succeeds, execute_with_retry-Succeeds}

abbrev three_failures : List Event
three_failures = failure 10 ∷ failure 20 ∷ failure 30 ∷ []

abbrev tripped : CircuitBreakerState
tripped = apply_all three_failures (new_breaker 3 (from_secs 60))

breaker_run-IsValid_example : IsValid tripped
breaker_run-IsValid_example = breaker_run-IsValid three_failures 3 (from_secs 60) (omega arith)

should_allow_attempt-time_until_close_example :
    (should_allow_attempt 40 tripped ≡ true) ↔ (time_until_close 40 tripped ≡ none)
should_allow_attempt-time_until_close_example =
    should_allow_attempt-time_until_close 40 tripped breaker_run-IsValid_example

opens_at_threshold_example :
    (fail_all (10 ∷ 20 ∷ 30 ∷ []) (new_breaker 3 (from_secs 60))).is_open ≡ true
opens_at_threshold_example =
    opens_at_threshold (10 ∷ 20 ∷ 30 ∷ []) 3 (from_secs 60) (omega arith) (omega arith)

tripped_blocks : should_allow_attempt 40 tripped ≡ false
unfolding should_allow_attempt new_breaker apply_all apply
tripped_blocks = refl

-- A clock that went back lets the attempt pass.
earlier_passes : should_allow_attempt 5 tripped ≡ true
unfolding should_allow_attempt new_breaker apply_all apply
earlier_passes = refl

tripped_is_open : tripped.is_open ≡ true
unfolding new_breaker apply_all apply
tripped_is_open = refl

open_ignores_failures_example :
    (should_allow_attempt 70_000_000_000 (fail_all (65_000_000_000 ∷ []) tripped)
      ≡ should_allow_attempt 70_000_000_000 tripped)
    × (time_until_close 70_000_000_000 (fail_all (65_000_000_000 ∷ []) tripped)
        ≡ time_until_close 70_000_000_000 tripped)
open_ignores_failures_example =
    open_ignores_failures (65_000_000_000 ∷ []) 70_000_000_000 tripped tripped_is_open

-- An operation that succeeds at its third attempt.
abbrev rounds : ℕ → Round ℕ
rounds n = record {
  checked_at = n * 100;
  blocked_at = n * 100 + 1;
  outcome = if leb 3 n then ok 42 else err "refused";
  failed_at = n * 100 + 50;
  next_backoff = some (from_secs 1);
}

execute_with_retry-Ends_example :
    Ends "m"
      (max 1 (get_policy "m" new).max_attempts)
      rounds
      new
      (execute_with_retry "m" rounds new)
execute_with_retry-Ends_example = execute_with_retry-Ends "m" rounds new

early_failures : (i : ℕ) → 0 < i → i < 3 → Retries (rounds i)
early_failures i low high = ("refused", from_secs 1, ground arith, refl)

execute_with_retry-Succeeds_example : Succeeds "m" 42 3 (execute_with_retry "m" rounds new)
unfolding new get_policy get
execute_with_retry-Succeeds_example =
    execute_with_retry-Succeeds "m" rounds new 42 3 refl (omega arith) (omega arith) (omega arith)
      early_failures refl
