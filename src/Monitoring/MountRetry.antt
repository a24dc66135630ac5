-- ===== src/Monitoring/MountRetry.antt =====
-- src/monitoring/mount_retry.rs: the retry coordinator. A mount attempt, which calls a protocol's
-- handler and the operating system, is what a round of the retry loop is answered.
pub mod Policy
pub mod Outcome
use Prim.Native.String.{◌++◌ as append}
use fuji.Base.{
  ℕ, String, Bool, true, false, Option, none, some, Result, ok, err, get, insert, from_secs,
  from_millis, Decimal,
}
use fuji.Mount.Config.{
  MountConfig, active, reconnecting, error, update_status, increment_reconnect_attempts,
}
use fuji.Mount.Options.Text.{show_usize}
use fuji.Config.{Config}
use fuji.Monitoring.Retry.{
  RetryPolicy, RetryHandler, CircuitBreakerState, new_breaker, should_allow_attempt,
  time_until_close, set_policy, get_circuit_breaker_status,
}
use fuji.Monitoring.Retry.Loop.{Round, RetryResult, execute_with_retry}
use fuji.Monitoring.MountRetry.Policy.{policy_for_mount}

-- The handler of the coordinator and the configuration that it shares with the daemon.
pub record Shared : Type 0 where
  pub handler : RetryHandler
  pub config : Config

-- What a call is answered: the clock where it asks the breaker, stamps a status and asks the breaker
-- again, the rounds of the loop, and the clock where the last status is stamped.
pub record Answers : Type 0 where
  pub asked_at : ℕ
  pub reconnecting_at : ℕ
  pub mount_asked_at : ℕ
  pub rounds : ℕ → Round (Unit {0})
  pub done_at : ℕ

pub data MountError : Type 0 where
  circuit_open : String → MountError
  failed_after : ℕ → MountError

pub message : MountError → String
message (circuit_open mount_id) = append "Circuit breaker is open for mount " mount_id
message (failed_after attempts) =
    append "Mount failed after " (append (show_usize attempts) " attempts")

-- `get_mount_mut` and a change of the mount that is found.
unfoldable pub change_mount : (MountConfig → MountConfig) → String → Config → Config
change_mount f mount_id c = elim (get mount_id c.mounts) [
  | some w ↦ record c { mounts = insert mount_id (record w { config = f (w.config) }) c.mounts }
  | none ↦ c
]

unfoldable pub after_success : ℕ → MountConfig → MountConfig
unfolding update_status
after_success now m = record (update_status now active m) {
  reconnect_attempts = 0;
  updated_at = now;
}

unfoldable pub to_reconnecting : ℕ → MountConfig → MountConfig
unfolding update_status increment_reconnect_attempts
to_reconnecting now m = update_status now reconnecting (increment_reconnect_attempts now m)

unfoldable pub to_failed : ℕ → String → MountConfig → MountConfig
unfolding update_status
to_failed now message m = update_status now (error message) m

abbrev pub breaker_or_new : String → RetryHandler → CircuitBreakerState
breaker_or_new mount_id h = elim (get_circuit_breaker_status mount_id h) [
  | some b ↦ b
  | none ↦ new_breaker 5 (from_secs 60)
]

-- What is done with the result of the loop.
unfoldable pub conclude :
    Answers
    → String
    → Config
    → RetryHandler × RetryResult (Unit {0})
    → Shared × Result MountError (Unit {0})
conclude answers mount_id c (h, result) = elim result.value [
  | some u ↦ (
    record { handler = h; config = change_mount (after_success answers.done_at) mount_id c },
    ok tt,
  )
  | none ↦ (record { handler = h; config = c }, err (failed_after result.attempts))
]

module _ (parse_f64 : String → Option Decimal) where
  -- `none` means that the loop ran out of fuel.
  unfoldable pub mount_with_retry :
      Answers → MountConfig → Shared → Option (Shared × Result MountError (Unit {0}))
  unfolding conclude
  mount_with_retry answers mount s =
      let h = set_policy mount.id (policy_for_mount parse_f64 mount) s.handler in
      elim (should_allow_attempt answers.mount_asked_at (breaker_or_new mount.id h)) [
        | false ↦ some (record { handler = h; config = s.config }, err (circuit_open mount.id))
        | true ↦ elim (execute_with_retry mount.id answers.rounds h) [
          | some ended ↦ some (conclude answers mount.id s.config ended)
          | none ↦ none
        ]
      ]

  -- What `attempt_reconnection` makes of the result of mounting.
  unfoldable pub report : Answers → String → Shared × Result MountError (Unit {0}) → Shared × Bool
  report answers mount_id (s, ok u) = (s, true)
  report answers mount_id (s, err e) = (
    record s { config = change_mount (to_failed answers.done_at (message e)) mount_id s.config },
    false,
  )

  unfoldable pub reconnect : Answers → MountConfig → Shared → Option (Shared × Bool)
  unfolding report
  reconnect answers mount s =
      let marked = record s {
        config = change_mount (to_reconnecting answers.reconnecting_at) mount.id s.config;
      } in
      elim (mount_with_retry answers mount marked) [
        | some ended ↦ some (report answers mount.id ended)
        | none ↦ none
      ]

  unfoldable pub attempt_reconnection : Answers → MountConfig → Shared → Option (Shared × Bool)
  unfolding reconnect
  attempt_reconnection answers mount s = elim (get_circuit_breaker_status mount.id s.handler) [
    | some b ↦ elim (should_allow_attempt answers.asked_at b) [
      | false ↦ some (s, false)
      | true ↦ reconnect answers mount s
    ]
    | none ↦ reconnect answers mount s
  ]

-- The policy that an unmount sets.
abbrev pub unmount_policy : RetryPolicy
unmount_policy = record {
  initial_delay = from_millis 100;
  max_delay = from_secs 5;
  multiplier = record { mantissa = 20; decimals = 1 };
  jitter = record { mantissa = 2; decimals = 1 };
  max_attempts = 3;
  reset_after = from_secs 30;
}

unfoldable pub unmount_with_retry :
    (ℕ → Round (Unit {0}))
    → MountConfig
    → RetryHandler
    → Option (RetryHandler × Result MountError (Unit {0}))
unmount_with_retry rounds mount h =
    elim (execute_with_retry mount.id rounds (set_policy mount.id unmount_policy h)) [
      | some (h', result) ↦ elim result.value [
        | some u ↦ some (h', ok tt)
        | none ↦ some (h', err (failed_after result.attempts))
      ]
      | none ↦ none
    ]
