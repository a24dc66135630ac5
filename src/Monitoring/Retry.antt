-- ===== src/Monitoring/Retry.antt =====
-- src/monitoring/retry.rs: retry policies, circuit breakers and the retry loop. Times are
-- nanoseconds. What the operation, the clock and the `backoff` crate answer in a round is an argument.
pub mod Breaker
pub mod Loop
use fuji.Base.{
  ℕ, ◌+◌, ◌-◌, ◌*◌, ◌%◌, ◌^◌, String, Bool, true, false, ◌&&◌, not, Option, none, some, [], leb,
  ltb, if◌then◌else◌, Dict, get, insert, Decimal, from_secs, duration_max,
}

pub record RetryPolicy : Type 0 where
  pub initial_delay : ℕ
  pub max_delay : ℕ
  pub multiplier : Decimal
  pub jitter : Decimal
  pub max_attempts : ℕ
  pub reset_after : ℕ

abbrev pub default_policy : RetryPolicy
default_policy = record {
  initial_delay = from_secs 1;
  max_delay = from_secs 300;
  multiplier = record { mantissa = 20; decimals = 1 };
  jitter = record { mantissa = 1; decimals = 1 };
  max_attempts = 5;
  reset_after = from_secs 300;
}

pub record CircuitBreakerState : Type 0 where
  pub failure_count : ℕ
  pub last_failure : Option ℕ
  pub is_open : Bool
  pub opened_at : Option ℕ
  pub failure_threshold : ℕ
  pub open_timeout : ℕ

unfoldable pub new_breaker : ℕ → ℕ → CircuitBreakerState
new_breaker failure_threshold open_timeout = record {
  failure_count = 0;
  last_failure = none;
  is_open = false;
  opened_at = none;
  failure_threshold = failure_threshold;
  open_timeout = open_timeout;
}

unfoldable pub record_success : CircuitBreakerState → CircuitBreakerState
record_success b = record b { failure_count = 0; is_open = false; opened_at = none }

-- The `u32` counter wraps in a release build. The two readings of the clock are one argument.
unfoldable pub record_failure : ℕ → CircuitBreakerState → CircuitBreakerState
record_failure now b =
    let count = (b.failure_count + 1) % 2 ^ 32 in
    let c = record b { failure_count = count; last_failure = some now } in
    if leb b.failure_threshold count && not b.is_open
    then record c { is_open = true; opened_at = some now }
    else c

-- `(Utc::now() - opened_at).to_std().unwrap_or(Duration::MAX)`: a clock that went back reads as
-- an endless time.
unfoldable pub elapsed_since : ℕ → ℕ → ℕ
elapsed_since opened now = if leb opened now then now - opened else duration_max

unfoldable pub should_allow_attempt : ℕ → CircuitBreakerState → Bool
unfolding elapsed_since
should_allow_attempt now b = if not b.is_open then true else elim b.opened_at [
  | some opened ↦ leb b.open_timeout (elapsed_since opened now)
  | none ↦ false
]

unfoldable pub time_until_close : ℕ → CircuitBreakerState → Option ℕ
unfolding elapsed_since
time_until_close now b = if not b.is_open then none else elim b.opened_at [
  | some opened ↦
      let elapsed = elapsed_since opened now in
      if ltb elapsed b.open_timeout then some (b.open_timeout - elapsed) else none
  | none ↦ none
]

pub record RetryHandler : Type 0 where
  pub retry_policies : Dict RetryPolicy
  pub circuit_breakers : Dict CircuitBreakerState

unfoldable pub new : RetryHandler
new = record { retry_policies = []; circuit_breakers = [] }

unfoldable pub set_policy : String → RetryPolicy → RetryHandler → RetryHandler
set_policy mount_id policy h = record h { retry_policies = insert mount_id policy h.retry_policies }

unfoldable pub get_policy : String → RetryHandler → RetryPolicy
get_policy mount_id h = elim (get mount_id h.retry_policies) [
  | some policy ↦ policy
  | none ↦ default_policy
]

-- Gets the breaker of a mount, made from the mount's policy where there is none.
unfoldable pub get_circuit_breaker : String → RetryHandler → CircuitBreakerState × RetryHandler
unfolding get_policy
get_circuit_breaker mount_id h = elim (get mount_id h.circuit_breakers) [
  | some b ↦ (b, h)
  | none ↦
      let b = new_breaker (get_policy mount_id h).max_attempts (from_secs 60) in
      (b, record h { circuit_breakers = insert mount_id b h.circuit_breakers })
]

-- The clock is read for a failure only. The answer says if the mount has a breaker.
unfoldable pub update_circuit_breaker : String → ℕ → Bool → RetryHandler → RetryHandler × Bool
update_circuit_breaker mount_id now success h = elim (get mount_id h.circuit_breakers) [
  | some b ↦
      let c = if success then record_success b else record_failure now b in
      (record h { circuit_breakers = insert mount_id c h.circuit_breakers }, true)
  | none ↦ (h, false)
]

unfoldable pub reset : String → ℕ → RetryHandler → RetryHandler
unfolding update_circuit_breaker
reset mount_id now h = (update_circuit_breaker mount_id now true h).0

unfoldable pub get_circuit_breaker_status : String → RetryHandler → Option CircuitBreakerState
get_circuit_breaker_status mount_id h = get mount_id h.circuit_breakers
