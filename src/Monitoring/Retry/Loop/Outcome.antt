-- ===== src/Monitoring/Retry/Loop/Outcome.antt =====
-- How the retry loop of src/monitoring/retry.rs ends, for every answer of its environment.
use fuji.Base.{
  ℕ, zero, suc, ◌+◌, ◌≤◌, ◌<◌, ◌≡◌, refl, ◌⊎◌, inl, inr, ◌∙◌, String, Bool, true, false, Option,
  none, some, max, arith, leb, ok, err, get, insert, get-insert, eq_iff, str_eq, Bool-cases,
  Option-cases, Result-cases,
}
use fuji.Monitoring.Retry.{
  RetryPolicy, RetryHandler, CircuitBreakerState, get_policy, get_circuit_breaker,
  update_circuit_breaker, should_allow_attempt, time_until_close,
}
use fuji.Monitoring.Retry.Loop.{
  Round, LastError, operation_failed, RetryResult, blocked, run_attempts, execute_with_retry,
}

-- Two handlers with the same policies and, but for one mount, the same breakers.
pub record Frame (mount_id : String) (h h' : RetryHandler) : Type 0 where
  pub policies : h'.retry_policies ≡ h.retry_policies
  pub breakers :
      (j : String) → (mount_id ≡ j) ⊎ (get j h'.circuit_breakers ≡ get j h.circuit_breakers)

Frame-trans :
    {mount_id : String} {h h' h'' : RetryHandler}
    → Frame mount_id h h'
    → Frame mount_id h' h''
    → Frame mount_id h h''
Frame-trans f g = record {
  policies = g.policies ∙ f.policies;
  breakers = λ j. elim (f.breakers j) [
    | inl e ↦ inl e
    | inr p ↦ elim (g.breakers j) [ inl e ↦ inl e | inr q ↦ inr (q ∙ p) ]
  ];
}

insert-Frame :
    (mount_id : String) (b : CircuitBreakerState) (h : RetryHandler)
    → Frame mount_id h (record h { circuit_breakers = insert mount_id b h.circuit_breakers })
insert-Frame mount_id b h = record {
  policies = refl;
  breakers = λ j. elim (Bool-cases (str_eq mount_id j)) [
    | inl e ↦ inl ((eq_iff mount_id j).0 e)
    | inr e ↦ inr (get-insert mount_id j b h.circuit_breakers ∙ rw e refl)
  ];
}

get_circuit_breaker-Frame :
    (mount_id : String) (h : RetryHandler) → Frame mount_id h (get_circuit_breaker mount_id h).1
unfolding get_circuit_breaker
get_circuit_breaker-Frame mount_id h = elim (Option-cases (get mount_id h.circuit_breakers)) [
  | inl e ↦ rw (e, get_circuit_breaker) (insert-Frame mount_id _ h)
  | inr (b, e) ↦ rw (e, get_circuit_breaker) (record { policies = refl; breakers = λ j. inr refl })
]

update-Frame :
    (mount_id : String) (now : ℕ) (success : Bool) (h : RetryHandler)
    → Frame mount_id h (update_circuit_breaker mount_id now success h).0
unfolding update_circuit_breaker
update-Frame mount_id now success h = elim (Option-cases (get mount_id h.circuit_breakers)) [
  | inl e ↦ rw (e, update_circuit_breaker) (record { policies = refl; breakers = λ j. inr refl })
  | inr (b, e) ↦ rw (e, update_circuit_breaker) (insert-Frame mount_id _ h)
]

round-Frame :
    (mount_id : String) (now : ℕ) (success : Bool) (h : RetryHandler)
    → Frame mount_id h
        (update_circuit_breaker mount_id now success (get_circuit_breaker mount_id h).1).0
round-Frame mount_id now success h =
    Frame-trans (get_circuit_breaker-Frame mount_id h) (update-Frame mount_id now success _)

module _ {A : Type 0} where
  -- A result is the value of the attempt that is counted last, or has an error and no value.
  abbrev pub IsResult : (ℕ → Round A) → RetryResult A → Type 0
  IsResult rounds r =
      ((v : A) × (r.value ≡ some v) × (r.last_error ≡ none) × ((rounds r.attempts).outcome ≡ ok v))
      ⊎ ((e : LastError) × (r.value ≡ none) × (r.last_error ≡ some e))

  -- The loop ends, within a number of attempts, with a result, and has touched one breaker.
  pub record Ends (mount_id : String) (limit : ℕ) (rounds : ℕ → Round A) (h : RetryHandler)
      (o : Option (RetryHandler × RetryResult A)) : Type 0 where
    pub after : RetryHandler
    pub result : RetryResult A
    pub returns : o ≡ some (after, result)
    pub counted : result.attempts ≤ limit
    pub is_result : IsResult rounds result
    pub frame : Frame mount_id h after

  -- A loop that goes on after a round ends as its rest ends.
  Ends-again :
      {mount_id : String} {limit limit' : ℕ} {rounds : ℕ → Round A} {h h' : RetryHandler}
      {o o' : Option (RetryHandler × RetryResult A)}
      → o ≡ o'
      → limit' ≤ limit
      → Frame mount_id h h'
      → Ends mount_id limit' rounds h' o'
      → Ends mount_id limit rounds h o
  Ends-again e l f r = record {
    after = r.after;
    result = r.result;
    returns = e ∙ r.returns;
    counted = omega arith;
    is_result = r.is_result;
    frame = Frame-trans f r.frame;
  }

  module _ (fuel : ℕ) (mount_id : String) (policy : RetryPolicy) (rounds : ℕ → Round A) (made : ℕ)
      (h : RetryHandler) where
    abbrev round : Round A
    round = rounds (made + 1)

    abbrev asked : CircuitBreakerState × RetryHandler
    asked = get_circuit_breaker mount_id h

    abbrev failed : RetryHandler
    failed = (update_circuit_breaker mount_id round.failed_at false asked.1).0

    abbrev loop : Option (RetryHandler × RetryResult A)
    loop = run_attempts (suc fuel) mount_id policy rounds made h

    abbrev limit : ℕ
    limit = max (made + 1) policy.max_attempts

    blocked-Ends :
        should_allow_attempt round.checked_at asked.0 ≡ false → Ends mount_id limit rounds h loop
    unfolding run_attempts
    blocked-Ends stop = record {
      after = asked.1;
      result = blocked (made + 1) round (time_until_close round.blocked_at asked.0);
      returns = rw (run_attempts, stop);
      counted = omega arith;
      is_result = inr (_, refl, refl);
      frame = get_circuit_breaker-Frame mount_id h;
    }

    module _ (pass : should_allow_attempt round.checked_at asked.0 ≡ true) where
      succeeded-Ends : (v : A) → round.outcome ≡ ok v → Ends mount_id limit rounds h loop
      unfolding run_attempts
      succeeded-Ends v e = record {
        after = (update_circuit_breaker mount_id round.failed_at true asked.1).0;
        result = record { value = some v; attempts = made + 1; last_error = none };
        returns = rw (run_attempts, pass, e);
        counted = omega arith;
        is_result = inl (v, refl, refl, e);
        frame = round-Frame mount_id round.failed_at true h;
      }

      gave_up-Ends :
          (m : String)
          → round.outcome ≡ err m
          → (leb policy.max_attempts (made + 1) ≡ true) ⊎ (round.next_backoff ≡ none)
          → Ends mount_id limit rounds h loop
      unfolding run_attempts
      gave_up-Ends m e stop = record {
        after = failed;
        result = record {
          value = none;
          attempts = made + 1;
          last_error = some (operation_failed m);
        };
        returns = ground arith;
        counted = omega arith;
        is_result = inr (_, refl, refl);
        frame = round-Frame mount_id round.failed_at false h;
      }

      -- A failed attempt that is retried leaves the loop to its rest.
      pub run_attempts-again :
          (m : String) (delay : ℕ)
          → round.outcome ≡ err m
          → leb policy.max_attempts (made + 1) ≡ false
          → round.next_backoff ≡ some delay
          → loop ≡ run_attempts fuel mount_id policy rounds (made + 1) failed
      unfolding run_attempts
      run_attempts-again m delay e more d = rw (run_attempts, pass, e, more, d)

  run_attempts-Ends :
      (fuel : ℕ) (mount_id : String) (policy : RetryPolicy) (rounds : ℕ → Round A) (made : ℕ)
      (h : RetryHandler)
      → made ≤ policy.max_attempts
      → policy.max_attempts < made + fuel
      → Ends mount_id
          (max (made + 1) policy.max_attempts)
          rounds
          h
          (run_attempts fuel mount_id policy rounds made h)
  run_attempts-Ends zero mount_id policy rounds made h low high = absurd (omega arith)
  run_attempts-Ends (suc fuel) mount_id policy rounds made h low high =
      let r : Round A = rounds (made + 1) in
      let b : CircuitBreakerState = (get_circuit_breaker mount_id h).0 in
      elim (Bool-cases (should_allow_attempt r.checked_at b)) [
        | inr stop ↦ blocked-Ends fuel mount_id policy rounds made h stop
        | inl pass ↦ elim (Result-cases r.outcome) [
          | inl (v, e) ↦ succeeded-Ends fuel mount_id policy rounds made h pass v e
          | inr (m, e) ↦ elim (Bool-cases (leb policy.max_attempts (made + 1))) [
            | inl last ↦ gave_up-Ends fuel mount_id policy rounds made h pass m e (inl last)
            | inr more ↦ elim (Option-cases r.next_backoff) [
              | inl over ↦ gave_up-Ends fuel mount_id policy rounds made h pass m e (inr over)
              | inr (delay, d) ↦
                  Ends-again
                    (run_attempts-again fuel mount_id policy rounds made h pass m delay e more d)
                    (ground (arith, more)) (round-Frame mount_id r.failed_at false h)
                    (run_attempts-Ends fuel mount_id policy rounds (made + 1)
                      (update_circuit_breaker mount_id r.failed_at false
                        (get_circuit_breaker mount_id h).1).0
                      (ground (arith, more)) (omega arith))
            ]
          ]
        ]
      ]

  -- Whatever the operation, the clock and the backoff answer, the retry loop ends, after no more
  -- attempts than the mount's policy allows, or than one where it allows none. It ends with the
  -- value of the last attempt or with an error and no value; it changes no policy, and no breaker
  -- of another mount.
  pub execute_with_retry-Ends :
      (mount_id : String) (rounds : ℕ → Round A) (h : RetryHandler)
      → Ends mount_id
          (max 1 (get_policy mount_id h).max_attempts)
          rounds
          h
          (execute_with_retry mount_id rounds h)
  unfolding execute_with_retry
  execute_with_retry-Ends mount_id rounds h =
      run_attempts-Ends (suc (get_policy mount_id h).max_attempts) mount_id (get_policy mount_id h)
        rounds 0 h (omega arith) (omega arith)
