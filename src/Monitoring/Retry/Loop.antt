-- ===== src/Monitoring/Retry/Loop.antt =====
-- `execute_with_retry` of src/monitoring/retry.rs.
pub mod Outcome
pub mod Success
use fuji.Base.{
  ℕ, zero, suc, ◌+◌, ◌/◌, String, true, false, Option, none, some, leb, Result, ok, err,
}
use fuji.Monitoring.Retry.{
  RetryPolicy, RetryHandler, get_policy, get_circuit_breaker, update_circuit_breaker,
  should_allow_attempt, time_until_close,
}

-- What one round of the loop is answered: the clock where the breaker is asked, and once more where
-- it blocks; the operation; the clock where a failure is recorded; and `next_backoff` of the crate,
-- the delay that is then slept.
pub record Round (A : Type 0) : Type 0 where
  pub checked_at : ℕ
  pub blocked_at : ℕ
  pub outcome : Result String A
  pub failed_at : ℕ
  pub next_backoff : Option ℕ

pub data LastError : Type 0 where
  operation_failed : String → LastError
  closes_in_secs : ℕ → LastError
  breaker_open : LastError

-- `total_time`, a reading of the monotonic clock that nothing else depends on, is left out.
pub record RetryResult (A : Type 0) : Type 0 where
  pub value : Option A
  pub attempts : ℕ
  pub last_error : Option LastError

module _ {A : Type 0} where
  unfoldable pub blocked : ℕ → Round A → Option ℕ → RetryResult A
  blocked attempts round remaining = record {
    value = none;
    attempts = attempts;
    last_error = some (elim remaining [
      | some left ↦ closes_in_secs (left / 1_000_000_000)
      | none ↦ breaker_open
    ]);
  }

  -- The loop, with the number of attempts already made. `none` means that the fuel ran out.
  unfoldable pub run_attempts :
      ℕ
      → String
      → RetryPolicy
      → (ℕ → Round A)
      → ℕ
      → RetryHandler
      → Option (RetryHandler × RetryResult A)
  unfolding blocked
  run_attempts zero mount_id policy rounds made h = none
  run_attempts (suc fuel) mount_id policy rounds made h =
      let attempts = made + 1 in
      let round : Round A = rounds attempts in
      let (breaker, h') = get_circuit_breaker mount_id h in
      elim (should_allow_attempt round.checked_at breaker) [
        | false ↦ some (h', blocked attempts round (time_until_close round.blocked_at breaker))
        | true ↦ elim round.outcome [
          | ok value ↦ some (
            (update_circuit_breaker mount_id round.failed_at true h').0,
            record { value = some value; attempts = attempts; last_error = none },
          )
          | err e ↦
              let h'' = (update_circuit_breaker mount_id round.failed_at false h').0 in
              let gave_up : RetryResult A = record {
                value = none;
                attempts = attempts;
                last_error = some (operation_failed e);
              } in
              elim (leb policy.max_attempts attempts) [
                | true ↦ some (h'', gave_up)
                | false ↦ elim round.next_backoff [
                  | some delay ↦ run_attempts fuel mount_id policy rounds attempts h''
                  | none ↦ some (h'', gave_up)
                ]
              ]
        ]
      ]

  -- The fuel is one more than the attempts that the policy allows.
  unfoldable pub execute_with_retry :
      String → (ℕ → Round A) → RetryHandler → Option (RetryHandler × RetryResult A)
  unfolding run_attempts
  execute_with_retry mount_id rounds h =
      let policy = get_policy mount_id h in
      run_attempts (suc policy.max_attempts) mount_id policy rounds 0 h
