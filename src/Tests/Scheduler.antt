-- ===== src/Tests/Scheduler.antt =====
-- Runs of the scheduler of health checks of src/monitoring/scheduler.rs.
use fuji.Base.{
  ◌+◌, ◌≤◌, ◌<◌, String, Bool, true, none, some, List, [], ◌∷◌, ◌≡◌, refl, ◌⊎◌, get, str_eq,
  if◌then◌else◌, Result, ok, err,
}
use fuji.Mount.Config.{MountConfig}
use fuji.Monitoring.Scheduler.{
  healthy, degraded, failed, HealthStatus, HealthCheckJob, HealthCheckScheduler, new_scheduler,
  new_job, waits, register_health_checks, unregister_health_checks,
}
use fuji.Monitoring.Scheduler.Checks.{run_health_checks_static, trigger_health_check}
use fuji.Monitoring.Scheduler.Lock.{Call, registered, fired, calls, trigger_health_check-waits}
use fuji.Monitoring.Scheduler.Score.{good, bad, errors, run_health_checks_static-score}
use fuji.Tests.Merge.{share}

abbrev mount : MountConfig
mount = (share "/mnt/a").config

abbrev check : MountConfig → String → Result String Bool
check m kind = if str_eq kind "ping" then err "no answer" else ok true

abbrev job : HealthCheckJob
job = new_job "m" "*/60 * * * * *"

abbrev scheduler : HealthCheckScheduler
scheduler = record new_scheduler { running = true; health_checks = ("m", job) ∷ [] }

abbrev any_cron : String → Bool
any_cron interval = true

abbrev later : List Call
later = registered any_cron (some "1") mount ∷ fired check 9 "m" ∷ []

job_there : get "m" scheduler.health_checks ≡ some job
unfolding get
job_there = refl

trigger_health_check-waits_example :
    ((trigger_health_check check 5 "m" scheduler).1 ≡ waits)
    × ((calls later (trigger_health_check check 5 "m" scheduler).0).checks_held ≡ true)
    × ((calls later (trigger_health_check check 5 "m" scheduler).0).health_checks
        ≡ scheduler.health_checks)
    × ((register_health_checks any_cron none mount
          (calls later (trigger_health_check check 5 "m" scheduler).0)).1
        ≡ waits)
    × ((unregister_health_checks "m" (calls later (trigger_health_check check 5 "m" scheduler).0)).1
        ≡ waits)
trigger_health_check-waits_example =
    trigger_health_check-waits check 5 "m" job scheduler later any_cron none mount "m" refl
      job_there

abbrev kinds : List String
kinds = "file_access" ∷ "ping" ∷ []

abbrev status : HealthStatus
status = run_health_checks_static check 5 "m" kinds (some mount)

run_health_checks_static-score_example :
    (status.health_score ≡ 70)
    × (status.health_score ≤ 100)
    × (((bad (check mount) kinds + errors (check mount) kinds ≡ 0) × (status.status ≡ healthy))
        ⊎ ((0 < bad (check mount) kinds + errors (check mount) kinds)
            × (0 < good (check mount) kinds)
            × (status.status ≡ degraded))
        ⊎ ((0 < bad (check mount) kinds + errors (check mount) kinds)
            × (good (check mount) kinds ≡ 0)
            × (status.status ≡ failed)))
run_health_checks_static-score_example = run_health_checks_static-score check 5 "m" kinds mount
