-- ===== src/Monitoring/Scheduler/Checks.antt =====
-- The run of the checks of one mount in src/monitoring/scheduler.rs. `check` is the answer of a
-- single check of src/monitoring/health_checks.rs: whether it is healthy, or a text of an error.
use fuji.Base.{
  ℕ, suc, ◌-◌, ◌%◌, ◌^◌, String, Bool, true, false, Option, none, some, List, [], ◌∷◌, length, ltb,
  ◌==◌, if◌then◌else◌, get, insert, Result, ok, err,
}
use fuji.Mount.Config.{MountConfig}
use fuji.Monitoring.Scheduler.{
  HealthState, healthy, degraded, failed, HealthStatus, HealthCheckScheduler, not_found, Outcome,
  ended, waits,
}

pub record Tally : Type 0 where
  pub healthy_count : ℕ
  pub last_error : Option String
  pub health_score : ℕ

-- Subtraction stops at 0, as `saturating_sub` does.
abbrev pub count_answer : Result String Bool → Tally → Tally
count_answer (ok true) t = record t { healthy_count = suc t.healthy_count }
count_answer (ok false) t = record t { health_score = t.health_score - 20 }
count_answer (err e) t = record t { last_error = some e; health_score = t.health_score - 30 }

-- Without a configuration every check counts as unhealthy.
abbrev pub answer_of :
    (MountConfig → String → Result String Bool) → Option MountConfig → String → Result String Bool
answer_of check none check_type = ok false
answer_of check (some mount) check_type = check mount check_type

unfoldable pub run_all : (String → Result String Bool) → List String → Tally → Tally
run_all answer [] t = t
run_all answer (check_type ∷ check_types) t =
    run_all answer check_types (count_answer (answer check_type) t)

abbrev pub state_of : ℕ → ℕ → HealthState
state_of healthy_count total_count =
    if healthy_count == total_count
    then healthy
    else if ltb 0 healthy_count
    then degraded
    else failed

unfoldable pub run_health_checks_static :
    (MountConfig → String → Result String Bool)
    → ℕ
    → String
    → List String
    → Option MountConfig
    → HealthStatus
unfolding run_all
run_health_checks_static check now mount_id check_types mount =
    let t =
      run_all (answer_of check mount) check_types
        (record { healthy_count = 0; last_error = none; health_score = 100 }) in
    record {
      mount_id = mount_id;
      status = state_of t.healthy_count (length check_types);
      last_check = now;
      failure_count = 0;
      last_error = t.last_error;
      health_score = t.health_score % 2 ^ 8;
    }

-- `run_health_checks` takes the write lock of the registered checks to note the time.
unfoldable pub run_health_checks :
    (MountConfig → String → Result String Bool)
    → ℕ
    → String
    → List String
    → HealthCheckScheduler
    → HealthCheckScheduler × Outcome HealthStatus
unfolding run_health_checks_static
run_health_checks check now mount_id check_types s = if s.checks_held then (s, waits) else (
  elim (get mount_id s.health_checks) [
    | some job ↦ record s {
      health_checks = insert mount_id (record job { last_run = some now }) s.health_checks;
    }
    | none ↦ s
  ],
  ended
      (ok (run_health_checks_static check now mount_id check_types (get mount_id s.mount_configs))),
)

-- The read lock of the registered checks is kept while the checks are run.
unfoldable pub trigger_health_check :
    (MountConfig → String → Result String Bool)
    → ℕ
    → String
    → HealthCheckScheduler
    → HealthCheckScheduler × Outcome HealthStatus
unfolding run_health_checks
trigger_health_check check now mount_id s =
    if s.checks_held then (s, waits) else elim (get mount_id s.health_checks) [
      | none ↦ (s, ended (err not_found))
      | some job ↦
          let (t, outcome) =
            run_health_checks check now mount_id job.check_types
              (record s { checks_held = true }) in
          elim outcome [
            | waits ↦ (t, waits)
            | ended r ↦ (record t { checks_held = false }, ended r)
          ]
    ]

-- A job of the cron scheduler.
unfoldable pub fire :
    (MountConfig → String → Result String Bool)
    → ℕ
    → String
    → HealthCheckScheduler
    → HealthCheckScheduler × Outcome (Unit {0})
unfolding run_health_checks_static
fire check now mount_id s =
    if s.checks_held then (s, waits) else elim (get mount_id s.health_checks) [
      | none ↦ (s, ended (ok tt))
      | some job ↦ elim (get mount_id s.mount_configs) [
        | none ↦ (s, ended (ok tt))
        | some mount ↦ (
          record s {
            last_statuses =
                insert mount_id
                  (run_health_checks_static check now mount_id job.check_types (some mount))
                  s.last_statuses;
          },
          ended (ok tt),
        )
      ]
    ]
