-- ===== src/Sync/Coordinator/Postpone.antt =====
-- How a sync request postpones the periodic syncs of src/sync/coordinator.rs.
use fuji.Base.{ℕ, ◌+◌, ◌≤◌, String, Option, some, List, [], ◌∷◌, ◌≡◌, refl, sym, subst, arith, ok}
use fuji.Mount.Config.{MountConfig}
use fuji.Config.{ClusterConfig}
use fuji.Cluster.{should_initiate_sync}
use fuji.Sync.Protocol.{
  SyncRequest, sync_request, sync_response, config_update, sync_complete, heartbeat,
}
use fuji.Sync.Coordinator.{SyncCoordinator, ends}
use fuji.Sync.Coordinator.Initiate.{check_and_initiate_sync}
use fuji.Sync.Coordinator.Run.{Event, message, tick, timed_out, forced, joined, step, run}
use fuji.Sync.Coordinator.Schedule.{Schedule, schedule, asked_at, schedule-step}

abbrev pub time_of : {Value : Type 0} → Event Value → ℕ
time_of (message now sender m) = now
time_of (tick now) = now
time_of (timed_out now t) = now
time_of (forced delivers now reason) = now
time_of (joined connects now i) = now

abbrev pub AllSince : {Value : Type 0} → ℕ → List (Event Value) → Type 0
AllSince now [] = Unit
AllSince now (e ∷ es) = (now ≤ time_of e) × AllSince now es

-- With these settings, and asked no longer ago than the timeout.
record IsQuiet (later : ℕ) (c : ClusterConfig) (q : Schedule) : Type 0 where
  settings : q.0 ≡ some c
  last : ℕ
  was_asked : q.1 ≡ some last
  early : later ≤ last + c.sync_timeout

asked_at-IsQuiet :
    (Value : Type 0) (now later : ℕ) (c : ClusterConfig) (e : Event Value) (q : Schedule)
    → later ≤ now + c.sync_timeout
    → now ≤ time_of e
    → IsQuiet later c q
    → IsQuiet later c (asked_at e q)
asked_at-IsQuiet Value now later c (message t sender (sync_request r)) q h k i = record {
  settings = i.settings;
  last = t;
  was_asked = refl;
  early = omega (arith, h, k);
}
asked_at-IsQuiet Value now later c (message t sender (sync_response r)) q h k i = i
asked_at-IsQuiet Value now later c (message t sender (config_update u)) q h k i = i
asked_at-IsQuiet Value now later c (message t sender (sync_complete d)) q h k i = i
asked_at-IsQuiet Value now later c (message t sender (heartbeat b)) q h k i = i
asked_at-IsQuiet Value now later c (tick t) q h k i = i
asked_at-IsQuiet Value now later c (timed_out t o) q h k i = i
asked_at-IsQuiet Value now later c (forced delivers t reason) q h k i = i
asked_at-IsQuiet Value now later c (joined connects t j) q h k i = i

quiet-check :
    (Value : Type 0) (later : ℕ) (c : ClusterConfig) (s : SyncCoordinator)
    → IsQuiet later c (schedule s)
    → check_and_initiate_sync {Value = Value} later s ≡ ends s (ok tt)
unfolding check_and_initiate_sync should_initiate_sync
quiet-check Value later c s q = ground (arith, q.settings, q.was_asked, q.early)

module _ {Value : Type 0} (to_value : MountConfig → Option Value) (null : Value)
    (sign : String → String) where
  run-IsQuiet :
      (now later : ℕ) (c : ClusterConfig) (es : List (Event Value)) (s : SyncCoordinator)
      → later ≤ now + c.sync_timeout
      → AllSince now es
      → IsQuiet later c (schedule s)
      → IsQuiet later c (schedule (run to_value null sign es s))
  unfolding run
  run-IsQuiet now later c [] s h k q = q
  run-IsQuiet now later c (e ∷ es) s h k q =
      run-IsQuiet now later c es (step to_value null sign e s) h k.1 (
        subst (IsQuiet later c) (sym (schedule-step to_value null sign e s))
          (asked_at-IsQuiet Value now later c e (schedule s) h k.0 q))

  -- An instance with cluster settings that was asked for its configuration starts no periodic sync
  -- until the sync timeout has passed since: after the request and any calls that come no
  -- earlier, a check that comes no later than the timeout changes nothing and sends nothing.
  pub sync_request-postpones :
      (now later : ℕ) (sender_id : String) (request : SyncRequest) (es : List (Event Value))
      (s : SyncCoordinator) (c : ClusterConfig)
      → s.cluster_state.config ≡ some c
      → later ≤ now + c.sync_timeout
      → AllSince now es
      → let after = run to_value null sign (message now sender_id (sync_request request) ∷ es) s in
        check_and_initiate_sync {Value = Value} later after ≡ ends after (ok tt)
  unfolding run
  sync_request-postpones now later sender_id request es s c settings early since =
      let e : Event Value = message now sender_id (sync_request request) in
      let asked : IsQuiet later c (asked_at e (schedule s)) = record {
        settings = settings;
        last = now;
        was_asked = refl;
        early = early;
      } in
      let first = subst (IsQuiet later c) (sym (schedule-step to_value null sign e s)) asked in
      quiet-check Value later c (run to_value null sign (e ∷ es) s)
        (run-IsQuiet now later c es (step to_value null sign e s) early since first)
