-- ===== src/Monitoring/Scheduler/Lock.antt =====
-- The lock of the registered checks in src/monitoring/scheduler.rs: a check that is triggered by
-- hand keeps it, and waits for it.
use fuji.Base.{
  ℕ, String, Bool, true, false, Option, some, List, [], ◌∷◌, ◌≡◌, refl, ap, ◌∙◌, arith, Dict, get,
  Result,
}
use fuji.Mount.Config.{MountConfig}
use fuji.Monitoring.Scheduler.{
  HealthStatus, HealthCheckJob, HealthCheckScheduler, Outcome, waits, start, stop,
  cleanup_old_status_entries, register_health_checks, unregister_health_checks,
}
use fuji.Monitoring.Scheduler.Checks.{run_health_checks, trigger_health_check, fire}

-- The calls of other code, each with what the cron scheduler and the checks answer.
pub data Call : Type 0 where
  started stopped : Bool → Call
  cleaned : ℕ → Call
  registered : (String → Bool) → Option String → MountConfig → Call
  unregistered : String → Call
  triggered fired : (MountConfig → String → Result String Bool) → ℕ → String → Call

unfoldable pub call : Call → HealthCheckScheduler → HealthCheckScheduler
unfolding start stop cleanup_old_status_entries register_health_checks unregister_health_checks
    trigger_health_check fire
call (started created) s = (start created s).0
call (stopped shut_down) s = (stop shut_down s).0
call (cleaned now) s = cleanup_old_status_entries now s
call (registered valid_cron added mount) s = (register_health_checks valid_cron added mount s).0
call (unregistered mount_id) s = (unregister_health_checks mount_id s).0
call (triggered check now mount_id) s = (trigger_health_check check now mount_id s).0
call (fired check now mount_id) s = (fire check now mount_id s).0

unfoldable pub calls : List Call → HealthCheckScheduler → HealthCheckScheduler
unfolding call
calls [] s = s
calls (c ∷ cs) s = calls cs (call c s)

abbrev guarded : HealthCheckScheduler → Bool × Dict HealthCheckJob
guarded s = (s.checks_held, s.health_checks)

guarded-call :
    (c : Call) (s : HealthCheckScheduler) → s.checks_held ≡ true → guarded (call c s) ≡ guarded s
unfolding call start stop cleanup_old_status_entries register_health_checks unregister_health_checks
    trigger_health_check fire
guarded-call (started created) s h = ground arith
guarded-call (stopped shut_down) s h = ground arith
guarded-call (cleaned now) s h = refl
guarded-call (registered valid_cron added mount) s h = ground (arith, h)
guarded-call (unregistered mount_id) s h = ground (arith, h)
guarded-call (triggered check now mount_id) s h = ground (arith, h)
guarded-call (fired check now mount_id) s h = ground (arith, h)

guarded-calls :
    (cs : List Call) (s : HealthCheckScheduler)
    → s.checks_held ≡ true
    → guarded (calls cs s) ≡ guarded s
unfolding calls
guarded-calls [] s h = refl
guarded-calls (c ∷ cs) s h =
    let q = guarded-call c s h in
    guarded-calls cs (call c s) (ap (λ (g : Bool × Dict HealthCheckJob). g.0) q ∙ h) ∙ q

trigger-blocks :
    (check : MountConfig → String → Result String Bool) (now : ℕ) (mount_id : String)
    (job : HealthCheckJob) (s : HealthCheckScheduler)
    → s.checks_held ≡ false
    → get mount_id s.health_checks ≡ some job
    → trigger_health_check check now mount_id s ≡ (record s { checks_held = true }, waits)
unfolding trigger_health_check run_health_checks
trigger-blocks check now mount_id job s free e = ground (arith, free, e)

register-blocks :
    (valid_cron : String → Bool) (added : Option String) (mount : MountConfig)
    (s : HealthCheckScheduler)
    → s.checks_held ≡ true
    → (register_health_checks valid_cron added mount s).1 ≡ waits
unfolding register_health_checks
register-blocks valid_cron added mount s h = ground (arith, h)

unregister-blocks :
    (mount_id : String) (s : HealthCheckScheduler)
    → s.checks_held ≡ true
    → (unregister_health_checks mount_id s).1 ≡ waits
unfolding unregister_health_checks
unregister-blocks mount_id s h = ground (arith, h)

-- A check that is triggered for a registered mount, while the lock of the registered checks is
-- free, waits for ever: after any further calls the lock is held and the same checks are
-- registered, and registering or unregistering a mount waits too.
pub trigger_health_check-waits :
    (check : MountConfig → String → Result String Bool) (now : ℕ) (mount_id : String)
    (job : HealthCheckJob) (s : HealthCheckScheduler) (cs : List Call) (valid_cron : String → Bool)
    (added : Option String) (mount : MountConfig) (other : String)
    → s.checks_held ≡ false
    → get mount_id s.health_checks ≡ some job
    → let d = trigger_health_check check now mount_id s in
      let after = calls cs d.0 in
      (d.1 ≡ waits)
      × (after.checks_held ≡ true)
      × (after.health_checks ≡ s.health_checks)
      × ((register_health_checks valid_cron added mount after).1 ≡ waits)
      × ((unregister_health_checks other after).1 ≡ waits)
trigger_health_check-waits check now mount_id job s cs valid_cron added mount other free e =
    let q = trigger-blocks check now mount_id job s free e in
    let state =
      ap (λ (d : HealthCheckScheduler × Outcome HealthStatus). guarded (calls cs d.0)) q
      ∙ guarded-calls cs (record s { checks_held = true }) refl in
    let held = ap (λ (g : Bool × Dict HealthCheckJob). g.0) state in
    let after = calls cs (trigger_health_check check now mount_id s).0 in
    (
      ap (λ (d : HealthCheckScheduler × Outcome HealthStatus). d.1) q,
      held,
      ap (λ (g : Bool × Dict HealthCheckJob). g.1) state,
      register-blocks valid_cron added mount after held,
      unregister-blocks other after held,
    )
