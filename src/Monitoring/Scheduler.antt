-- ===== src/Monitoring/Scheduler.antt =====
-- src/monitoring/scheduler.rs: the scheduler of health checks, and the statuses of
-- src/monitoring/mod.rs. tokio-cron-scheduler is a parameter: whether it can be made and shut down,
-- which cron expressions it takes, and the identifier that it gives a job. A single check, which
-- calls the operating system, is an argument. The lock of the registered checks is part of the
-- state, since it is kept while it is waited for.
pub mod Checks
pub mod Lock
pub mod Score
use fuji.Base.{
  ℕ, ◌+◌, String, Bool, true, false, Option, none, some, List, [], ◌∷◌, ltb, str_eq, from_secs,
  if◌then◌else◌, Dict, get, insert, remove, Result, ok, err,
}
use fuji.Mount.Config.{MountConfig, MountType, nfs, smb, sshfs}

pub data HealthState : Type 0 where
  healthy degraded failed checking recovering : HealthState

pub record HealthStatus : Type 0 where
  pub mount_id : String
  pub status : HealthState
  pub last_check : ℕ
  pub failure_count : ℕ
  pub last_error : Option String
  pub health_score : ℕ

pub record HealthCheckJob : Type 0 where
  pub mount_id : String
  pub interval : String
  pub check_types : List String
  pub job_id : Option String
  pub last_run : Option ℕ

-- `checks_held` is whether a task that waits holds the lock of the registered checks.
pub record HealthCheckScheduler : Type 0 where
  pub running : Bool
  pub health_checks : Dict HealthCheckJob
  pub last_statuses : Dict HealthStatus
  pub default_interval : String
  pub cleanup_interval : ℕ
  pub max_status_age : ℕ
  pub mount_configs : Dict MountConfig
  pub checks_held : Bool

abbrev pub new_scheduler : HealthCheckScheduler
new_scheduler = record {
  running = false;
  health_checks = [];
  last_statuses = [];
  default_interval = "*/30 * * * * *";
  cleanup_interval = 300;
  max_status_age = 3600;
  mount_configs = [];
  checks_held = false;
}

pub data SchedulerError : Type 0 where
  not_created not_shut_down not_found not_running no_cron_job not_added no_status : SchedulerError

pub data Outcome (A : Type 0) : Type 0 where
  ended : Result SchedulerError A → Outcome A
  waits : Outcome A

unfoldable pub start : Bool → HealthCheckScheduler → HealthCheckScheduler × Outcome (Unit {0})
start created s =
    if s.running
    then (s, ended (ok tt))
    else if created
    then (record s { running = true }, ended (ok tt))
    else (s, ended (err not_created))

-- The scheduler is taken out before it is shut down.
unfoldable pub stop : Bool → HealthCheckScheduler → HealthCheckScheduler × Outcome (Unit {0})
stop shut_down s =
    if s.running
    then (record s { running = false }, ended (if shut_down then ok tt else err not_shut_down))
    else (s, ended (ok tt))

unfoldable pub retain_newer : ℕ → ℕ → Dict HealthStatus → Dict HealthStatus
retain_newer now max_age [] = []
retain_newer now max_age ((id, status) ∷ m) =
    let rest = retain_newer now max_age m in
    if ltb now (status.last_check + from_secs max_age) then (id, status) ∷ rest else rest

unfoldable pub cleanup_old_status_entries : ℕ → HealthCheckScheduler → HealthCheckScheduler
unfolding retain_newer
cleanup_old_status_entries now s = record s {
  last_statuses = retain_newer now s.max_status_age s.last_statuses;
}

abbrev pub type_interval : MountType → String
type_interval (nfs host share options) = "*/60 * * * * *"
type_interval (smb host share username password domain options) = "*/15 * * * * *"
type_interval (sshfs host username path key port options) = "*/30 * * * * *"

-- The interval of the mount's metadata, if it is a cron expression.
abbrev pub custom_interval : (String → Bool) → String → Option String → String
custom_interval valid_cron default none = default
custom_interval valid_cron default (some interval) =
    if valid_cron interval then interval else default

unfoldable pub determine_check_interval :
    (String → Bool) → MountConfig → HealthCheckScheduler → String
determine_check_interval valid_cron mount s =
    let interval =
      custom_interval valid_cron s.default_interval (get "health_check_interval" mount.metadata) in
    if str_eq interval s.default_interval then type_interval mount.mount_type else interval

-- `added` is what the cron scheduler answers to the job.
unfoldable pub schedule_health_check :
    (String → Bool)
    → Option String
    → String
    → HealthCheckScheduler
    → HealthCheckScheduler × Outcome (Unit {0})
schedule_health_check valid_cron added mount_id s =
    if s.checks_held then (s, waits) else elim (get mount_id s.health_checks) [
      | none ↦ (s, ended (err not_found))
      | some job ↦
          if s.running
          then if valid_cron job.interval
            then elim added [
              | none ↦ (s, ended (err not_added))
              | some job_id ↦ (
                record s {
                  health_checks =
                      insert mount_id (record job { job_id = some job_id }) s.health_checks;
                },
                ended (ok tt),
              )
            ]
            else (s, ended (err no_cron_job))
          else (s, ended (err not_running))
    ]

abbrev pub new_job : String → String → HealthCheckJob
new_job mount_id interval = record {
  mount_id = mount_id;
  interval = interval;
  check_types = "file_access" ∷ "ping" ∷ [];
  job_id = none;
  last_run = none;
}

-- The configuration is stored first, then the job, and then the job is scheduled.
unfoldable pub register_health_checks :
    (String → Bool)
    → Option String
    → MountConfig
    → HealthCheckScheduler
    → HealthCheckScheduler × Outcome (Unit {0})
unfolding determine_check_interval schedule_health_check
register_health_checks valid_cron added mount s =
    let stored = record s { mount_configs = insert mount.id mount s.mount_configs } in
    let interval = determine_check_interval valid_cron mount s in
    if s.checks_held
    then (stored, waits)
    else schedule_health_check valid_cron added mount.id (record stored {
      health_checks = insert mount.id (new_job mount.id interval) s.health_checks;
    })

-- What the cron scheduler answers to the removal of the job is logged.
unfoldable pub unregister_health_checks :
    String → HealthCheckScheduler → HealthCheckScheduler × Outcome (Unit {0})
unregister_health_checks mount_id s = if s.checks_held then (s, waits) else (
  record s {
    health_checks = remove mount_id s.health_checks;
    mount_configs = remove mount_id s.mount_configs;
    last_statuses = remove mount_id s.last_statuses;
  },
  ended (ok tt),
)

unfoldable pub get_health_status :
    String → HealthCheckScheduler → Result SchedulerError HealthStatus
get_health_status mount_id s = elim (get mount_id s.last_statuses) [
  | some status ↦ ok status
  | none ↦ err no_status
]
