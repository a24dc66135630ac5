-- ===== src/Monitoring/Retry/Loop/Success.antt =====
-- When the retry loop of src/monitoring/retry.rs returns a value.
use fuji.Base.{
  ℕ, zero, suc, ◌+◌, ◌-◌, ◌^◌, ◌≤◌, ◌<◌, ◌≡◌, refl, sym, subst, inl, inr, String, Bool, true, false,
  Option, none, some, arith, ok, err, get, get-insert, eq_refl, Option-cases, if◌then◌else◌,
}
use fuji.Monitoring.Retry.{
  RetryPolicy, RetryHandler, CircuitBreakerState, get_policy, get_circuit_breaker,
  update_circuit_breaker, should_allow_attempt, record_success, record_failure, new_breaker,
}
use fuji.Monitoring.Retry.Loop.{Round, RetryResult, run_attempts, execute_with_retry}
use fuji.Monitoring.Retry.Loop.Outcome.{run_attempts-again}

abbrev breaker_of : String → RetryHandler → CircuitBreakerState
breaker_of mount_id h = (get_circuit_breaker mount_id h).0

get_circuit_breaker-stores :
    (mount_id : String) (h : RetryHandler)
    → get mount_id (get_circuit_breaker mount_id h).1.circuit_breakers
      ≡ some (breaker_of mount_id h)
unfolding get_circuit_breaker
get_circuit_breaker-stores mount_id h = elim (Option-cases (get mount_id h.circuit_breakers)) [
  | inl e ↦ rw (e, breaker_of, get_circuit_breaker) (simp (get-insert, eq_refl, e))
  | inr (b, e) ↦ rw (e, breaker_of, get_circuit_breaker) e
]

abbrev recorded : String → ℕ → Bool → RetryHandler → RetryHandler
recorded mount_id now success h =
    (update_circuit_breaker mount_id now success (get_circuit_breaker mount_id h).1).0

-- What a round records is the breaker of the next round.
breaker_of-update :
    (mount_id : String) (now : ℕ) (success : Bool) (h : RetryHandler)
    → get mount_id (recorded mount_id now success h).circuit_breakers
      ≡ some (
          if success
          then record_success (breaker_of mount_id h)
          else record_failure now (breaker_of mount_id h))
unfolding update_circuit_breaker
breaker_of-update mount_id now success h =
    rw (get_circuit_breaker-stores mount_id h, recorded, update_circuit_breaker)
      (simp (get-insert, eq_refl))

breaker_of-get :
    (mount_id : String) (h : RetryHandler) {b : CircuitBreakerState}
    → get mount_id h.circuit_breakers ≡ some b
    → breaker_of mount_id h ≡ b
unfolding get_circuit_breaker
breaker_of-get mount_id h e = rw (e, breaker_of, get_circuit_breaker)

-- A closed breaker that has counted so many failures, below a threshold.
record IsCounting (made threshold : ℕ) (b : CircuitBreakerState) : Type 0 where
  closed : b.is_open ≡ false
  count : b.failure_count ≡ made
  opens_at : b.failure_threshold ≡ threshold

IsCounting-record_failure :
    (made threshold now : ℕ) (b : CircuitBreakerState)
    → suc made < threshold
    → threshold < 2 ^ 32
    → IsCounting made threshold b
    → IsCounting (made + 1) threshold (record_failure now b)
unfolding record_failure
IsCounting-record_failure made threshold now b h fits c = ground arith

closed_allows :
    (now : ℕ) (b : CircuitBreakerState) → b.is_open ≡ false → should_allow_attempt now b ≡ true
unfolding should_allow_attempt
closed_allows now b e = rw e

fresh_breaker :
    (mount_id : String) (h : RetryHandler)
    → get mount_id h.circuit_breakers ≡ none
    → IsCounting 0 (get_policy mount_id h).max_attempts (breaker_of mount_id h)
unfolding get_circuit_breaker new_breaker
fresh_breaker mount_id h e =
    rw (e, breaker_of, get_circuit_breaker)
      (record { closed = refl; count = refl; opens_at = refl })

module _ {A : Type 0} where
  -- The operation fails in a round, and the backoff answers with a delay.
  abbrev pub Retries : Round A → Type 0
  Retries r = (m : String) × (delay : ℕ) × (r.outcome ≡ err m) × (r.next_backoff ≡ some delay)

  -- The loop returned this value at this attempt, and left a closed breaker with no failures.
  pub record Succeeds (mount_id : String) (v : A) (n : ℕ)
      (o : Option (RetryHandler × RetryResult A)) : Type 0 where
    pub after : RetryHandler
    pub returns : o ≡ some (after, record { value = some v; attempts = n; last_error = none })
    pub breaker : CircuitBreakerState
    pub stored : get mount_id after.circuit_breakers ≡ some breaker
    pub closed : breaker.is_open ≡ false
    pub count : breaker.failure_count ≡ 0

  module _ (mount_id : String) (policy : RetryPolicy) (rounds : ℕ → Round A) (v : A) where
    last_attempt :
        (fuel made : ℕ) (h : RetryHandler)
        → (breaker_of mount_id h).is_open ≡ false
        → (rounds (made + 1)).outcome ≡ ok v
        → Succeeds mount_id v (made + 1) (run_attempts (suc fuel) mount_id policy rounds made h)
    unfolding run_attempts record_success
    last_attempt fuel made h closed e = record {
      after = recorded mount_id (rounds (made + 1)).failed_at true h;
      returns = rw (run_attempts, closed_allows _ (breaker_of mount_id h) closed, e);
      breaker = record_success (breaker_of mount_id h);
      stored = breaker_of-update mount_id _ true h;
      closed = refl;
      count = refl;
    }

    later_success :
        (k fuel made n : ℕ) (h : RetryHandler)
        → n ≡ made + suc k
        → n ≤ policy.max_attempts
        → k < fuel
        → policy.max_attempts < 2 ^ 32
        → IsCounting made policy.max_attempts (breaker_of mount_id h)
        → ((i : ℕ) → made < i → i < n → Retries (rounds i))
        → (rounds n).outcome ≡ ok v
        → Succeeds mount_id v n (run_attempts fuel mount_id policy rounds made h)
    later_success k zero made n h e limit enough fits c fails done = absurd (omega arith)
    later_success zero (suc fuel) made n h e limit enough fits c fails done =
        let at : n ≡ made + 1 = omega arith in
        rw at (last_attempt fuel made h c.closed (rw at at done))
    later_success (suc k) (suc fuel) made n h e limit enough fits c fails done =
        let (m, delay, failed, waits) = fails (made + 1) (omega arith) (omega arith) in
        rw
          (run_attempts-again fuel mount_id policy rounds made h
            (closed_allows _ (breaker_of mount_id h) c.closed) m delay failed (ground arith) waits)
          (later_success k fuel (made + 1) n
            (recorded mount_id (rounds (made + 1)).failed_at false h) (omega arith) limit
            (omega arith) fits
            (subst (IsCounting (made + 1) policy.max_attempts)
              (sym (breaker_of-get mount_id _ (breaker_of-update mount_id _ false h)))
              (IsCounting-record_failure made policy.max_attempts _ (breaker_of mount_id h)
                (omega arith) fits c))
            (λ i low high. fails i (omega arith) high) done)

  -- On a mount with no breaker yet and a policy whose maximum of attempts fits a `u32`, if the
  -- first attempt that succeeds is one of those that the policy allows, and each failure before it
  -- is answered by a delay, then the loop returns the value of that attempt and leaves a closed
  -- breaker with no failures.
  pub execute_with_retry-Succeeds :
      (mount_id : String) (rounds : ℕ → Round A) (h : RetryHandler) (v : A) (n : ℕ)
      → get mount_id h.circuit_breakers ≡ none
      → 0 < n
      → n ≤ (get_policy mount_id h).max_attempts
      → (get_policy mount_id h).max_attempts < 2 ^ 32
      → ((i : ℕ) → 0 < i → i < n → Retries (rounds i))
      → (rounds n).outcome ≡ ok v
      → Succeeds mount_id v n (execute_with_retry mount_id rounds h)
  unfolding execute_with_retry
  execute_with_retry-Succeeds mount_id rounds h v n fresh pos limit fits fails done =
      later_success mount_id (get_policy mount_id h) rounds v (n - 1)
        (suc (get_policy mount_id h).max_attempts) 0 n h (omega arith) limit (omega arith) fits
        (fresh_breaker mount_id h fresh) fails done
