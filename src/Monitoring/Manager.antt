-- ===== src/Monitoring/Manager.antt =====
-- `MonitoringManager` of src/monitoring/mod.rs, which puts the scheduler of health checks and the
-- validation of dependencies together. Its retry handler and its dependency graph hold nothing
-- that it uses.
use Prim.Native.String.{◌++◌ as append}
use fuji.Base.{
  ℕ, String, Bool, true, false, Option, some, List, [], ◌∷◌, ◌++◌, str_eq, if◌then◌else◌, Result,
  ok, err,
}
use fuji.Mount.Config.{MountConfig}
use fuji.Monitoring.Dependency.{DependencyValidation, validate_dependencies}
use fuji.Monitoring.Scheduler.{
  HealthState, HealthStatus, HealthCheckScheduler, new_scheduler, SchedulerError, Outcome, ended,
  waits, start, stop, register_health_checks, unregister_health_checks, get_health_status,
}

pub record MonitoringManager : Type 0 where
  pub scheduler : HealthCheckScheduler
  pub mounts : List MountConfig
  pub running : Bool

abbrev pub new_manager : MonitoringManager
new_manager = record { scheduler = new_scheduler; mounts = []; running = false }

-- The new state if the call of the scheduler came to a good end, and the old one with its effects
-- on the scheduler if not.
abbrev pub after_scheduler :
    (MonitoringManager → MonitoringManager)
    → HealthCheckScheduler × Outcome (Unit {0})
    → MonitoringManager
    → MonitoringManager × Outcome (Unit {0})
after_scheduler f (s, outcome) m =
    let called = record m { scheduler = s } in
    elim outcome [
      | waits ↦ (called, waits)
      | ended (err e) ↦ (called, ended (err e))
      | ended (ok u) ↦ (f called, ended (ok tt))
    ]

unfoldable pub start_manager : Bool → MonitoringManager → MonitoringManager × Outcome (Unit {0})
unfolding start
start_manager created m =
    if m.running
    then (m, ended (ok tt))
    else after_scheduler (λ n. record n { running = true }) (start created m.scheduler) m

unfoldable pub stop_manager : Bool → MonitoringManager → MonitoringManager × Outcome (Unit {0})
unfolding stop
stop_manager shut_down m =
    if m.running
    then after_scheduler (λ n. record n { running = false }) (stop shut_down m.scheduler) m
    else (m, ended (ok tt))

-- The validation never fails, and what it found is not looked at.
unfoldable pub add_mount :
    (String → Bool)
    → Option String
    → MountConfig
    → MonitoringManager
    → MonitoringManager × Outcome (Unit {0})
unfolding register_health_checks validate_dependencies
add_mount valid_cron added mount m =
    let validation : DependencyValidation = validate_dependencies mount in
    after_scheduler (λ n. record n { mounts = n.mounts ++ mount ∷ [] })
      (register_health_checks valid_cron added mount m.scheduler) m

unfoldable pub retain_other : String → List MountConfig → List MountConfig
retain_other mount_id [] = []
retain_other mount_id (m ∷ ms) =
    let rest = retain_other mount_id ms in if str_eq m.id mount_id then rest else m ∷ rest

unfoldable pub remove_mount : String → MonitoringManager → MonitoringManager × Outcome (Unit {0})
unfolding unregister_health_checks retain_other
remove_mount mount_id m =
    after_scheduler (λ n. record n { mounts = retain_other mount_id n.mounts })
      (unregister_health_checks mount_id m.scheduler) m

abbrev pub status_or_failed : ℕ → String → Result SchedulerError HealthStatus → HealthStatus
status_or_failed now mount_id (ok status) = status
status_or_failed now mount_id (err e) = record {
  mount_id = mount_id;
  status = HealthState.failed;
  last_check = now;
  failure_count = 0;
  last_error = some (append "No health status available for mount " mount_id);
  health_score = 0;
}

unfoldable pub statuses_of : ℕ → List MountConfig → HealthCheckScheduler → List HealthStatus
unfolding get_health_status
statuses_of now [] s = []
statuses_of now (m ∷ ms) s =
    status_or_failed now m.id (get_health_status m.id s) ∷ statuses_of now ms s

unfoldable pub get_all_health_status : ℕ → MonitoringManager → List HealthStatus
unfolding statuses_of
get_all_health_status now m = statuses_of now m.mounts m.scheduler
