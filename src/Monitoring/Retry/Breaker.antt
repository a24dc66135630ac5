-- ===== src/Monitoring/Retry/Breaker.antt =====
-- The circuit breaker of src/monitoring/retry.rs: when it opens, and when it lets an attempt pass.
use fuji.Base.{
  ℕ, ◌+◌, ◌%◌, ◌^◌, ◌<◌, ◌≡◌, refl, ◌↔◌, ◌⊎◌, true, false, none, some, List, [], ◌∷◌, map, arith,
  leb, length, inl, inr, Bool-cases, ◌∙◌, sym,
}
use fuji.Monitoring.Retry.{
  CircuitBreakerState, new_breaker, record_success, record_failure, should_allow_attempt,
  time_until_close,
}

-- A call on the breaker: a success, or a failure at a time.
pub data Event : Type 0 where
  success : Event
  failure : ℕ → Event

unfoldable pub apply : Event → CircuitBreakerState → CircuitBreakerState
unfolding record_success record_failure
apply success b = record_success b
apply (failure now) b = record_failure now b

unfoldable pub apply_all : List Event → CircuitBreakerState → CircuitBreakerState
apply_all [] b = b
apply_all (e ∷ es) b = apply_all es (apply e b)

-- An open breaker says since when, and a closed one has no such time and has counted no failure
-- or fewer than the threshold.
pub record IsValid (b : CircuitBreakerState) : Type 0 where
  pub status :
      ((b.is_open ≡ true) × ((t : ℕ) × (b.opened_at ≡ some t)))
      ⊎ ((b.is_open ≡ false)
          × (b.opened_at ≡ none)
          × ((b.failure_count ≡ 0) ⊎ (b.failure_count < b.failure_threshold)))
  pub fits : b.failure_count < 2 ^ 32
  pub threshold_fits : b.failure_threshold < 2 ^ 32

pub new_breaker-IsValid : (n timeout : ℕ) → n < 2 ^ 32 → IsValid (new_breaker n timeout)
unfolding new_breaker
new_breaker-IsValid n timeout h = record {
  status = inr (refl, refl, inl refl);
  fits = omega arith;
  threshold_fits = h;
}

pub record_failure-IsValid :
    (now : ℕ) (b : CircuitBreakerState) → IsValid b → IsValid (record_failure now b)
unfolding record_failure
record_failure-IsValid now b v = record {
  status = elim v.status [
    | inl (was, (t, p)) ↦ inl (ground arith, (t, ground arith))
    | inr (was, p, below) ↦
        elim (Bool-cases (leb b.failure_threshold ((b.failure_count + 1) % 2 ^ 32))) [
          | inl full ↦ inl (ground arith, (now, ground arith))
          | inr room ↦ inr (ground arith, ground arith, inr (ground arith))
        ]
  ];
  fits = ground arith;
  threshold_fits = ground arith;
}

pub apply-IsValid : (e : Event) (b : CircuitBreakerState) → IsValid b → IsValid (apply e b)
unfolding apply
apply-IsValid success b v = record {
  status = inr (refl, refl, inl refl);
  fits = omega arith;
  threshold_fits = v.threshold_fits;
}
apply-IsValid (failure now) b v = record_failure-IsValid now b v

apply_all-IsValid :
    (es : List Event) (b : CircuitBreakerState) → IsValid b → IsValid (apply_all es b)
unfolding apply_all
apply_all-IsValid [] b v = v
apply_all-IsValid (e ∷ es) b v = apply_all-IsValid es (apply e b) (apply-IsValid e b v)

-- After any calls on a new breaker whose threshold fits a `u32`, its counters fit, an open
-- breaker knows since when it is open, and a closed one has no such time and has counted no
-- failure or fewer than the threshold.
pub breaker_run-IsValid :
    (es : List Event) (n timeout : ℕ) → n < 2 ^ 32 → IsValid (apply_all es (new_breaker n timeout))
breaker_run-IsValid es n timeout h = apply_all-IsValid es _ (new_breaker-IsValid n timeout h)

-- On a breaker that is valid, as every run of calls on a new one leaves it, an attempt passes
-- exactly when there is no time left until it closes.
pub should_allow_attempt-time_until_close :
    (now : ℕ) (b : CircuitBreakerState)
    → IsValid b
    → (should_allow_attempt now b ≡ true) ↔ (time_until_close now b ≡ none)
unfolding should_allow_attempt time_until_close
should_allow_attempt-time_until_close now b v = elim v.status [
  | inl (was, (t, p)) ↦ (λ h. ground arith, λ h. ground arith)
  | inr (was, p, below) ↦ (λ h. ground arith, λ h. ground arith)
]

-- Failures one after another.
abbrev pub fail_all : List ℕ → CircuitBreakerState → CircuitBreakerState
fail_all ts b = apply_all (map failure ts) b

is_open-fail_all :
    (ts : List ℕ) (b : CircuitBreakerState) → b.is_open ≡ true → (fail_all ts b).is_open ≡ true
unfolding apply_all apply
is_open-fail_all [] b h = h
is_open-fail_all (t ∷ ts) b h = is_open-fail_all ts (record_failure t b) (ground arith)

opens_at :
    (ts : List ℕ) (b : CircuitBreakerState)
    → b.is_open ≡ false
    → b.failure_count < b.failure_threshold
    → b.failure_threshold < 2 ^ 32
    → (fail_all ts b).is_open ≡ leb b.failure_threshold (b.failure_count + length ts)
unfolding apply_all apply
opens_at [] b closed below fits = ground arith
opens_at (t ∷ ts) b closed below fits =
    elim (Bool-cases (leb b.failure_threshold (b.failure_count + 1))) [
      | inl last ↦ is_open-fail_all ts (record_failure t b) (ground arith) ∙ sym (ground arith)
      | inr more ↦
          opens_at ts (record_failure t b) (ground arith) (ground arith) (ground arith)
          ∙ ground arith
    ]

-- A new breaker whose threshold is positive and fits a `u32` is open after consecutive failures
-- exactly if they are at least as many as the threshold.
pub opens_at_threshold :
    (ts : List ℕ) (n timeout : ℕ)
    → 0 < n
    → n < 2 ^ 32
    → (fail_all ts (new_breaker n timeout)).is_open ≡ leb n (length ts)
unfolding new_breaker
opens_at_threshold ts n timeout h fits =
    opens_at ts (new_breaker n timeout) refl h fits ∙ ground arith

-- While a breaker is open, failures change neither whether an attempt passes at a given time nor
-- the time left: an attempt that fails after the timeout does not open the breaker anew.
pub open_ignores_failures :
    (ts : List ℕ) (now : ℕ) (b : CircuitBreakerState)
    → b.is_open ≡ true
    → (should_allow_attempt now (fail_all ts b) ≡ should_allow_attempt now b)
      × (time_until_close now (fail_all ts b) ≡ time_until_close now b)
unfolding apply_all apply should_allow_attempt time_until_close
open_ignores_failures [] now b h = (refl, refl)
open_ignores_failures (t ∷ ts) now b h =
    let (allowed, left) = open_ignores_failures ts now (record_failure t b) (ground arith) in
    (allowed ∙ ground arith, left ∙ ground arith)
