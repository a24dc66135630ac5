-- ===== src/Sync/Coordinator/Pending/Runs.antt =====
-- The table of pending syncs in src/sync/coordinator.rs over runs.
use fuji.Base.{
  minutes, ℕ, suc, String, Bool, true, false, Option, List, [], ◌∷◌, ◌≡◌, refl, arith, inl, inr,
  ◌⊎◌, Bool-cases, Option-cases, length, get, remove, remove-AllEntries, subst, sym,
}
use fuji.Mount.Config.{MountConfig}
use fuji.Config.{PeerInfo, Config}
use fuji.Config.Operations.{is_cluster_enabled}
use fuji.Config.ForceSync.{initiate_force_sync}
use fuji.Cluster.{ClusterState, get_healthy_peers, should_initiate_sync}
use fuji.Sync.Protocol.{
  SyncMessage, sync_request, sync_response, config_update, sync_complete, heartbeat,
}
use fuji.Sync.Coordinator.{SyncCoordinator, Timeout, sync_timeout, force_sync_timeout, new}
use fuji.Sync.Coordinator.Handle.{
  see_sender, handle_sync_message, handle_sync_request, then_heartbeat, handle_config_update,
  handle_sync_complete,
}
use fuji.Sync.Coordinator.Initiate.{
  health_window, periodic_id, force_id, record_sync, check_and_initiate_sync, time_out,
  send_force_sync, force_sync,
}
use fuji.Sync.Coordinator.Join.{join_cluster}
use fuji.Sync.Coordinator.Run.{Event, message, tick, timed_out, forced, joined, step, run}
use fuji.Sync.Coordinator.Steps.{state-connect}
use fuji.Sync.Coordinator.Pending.{
  IsWaiting, IsTable, IsValid, shared, transfer, IsTable-of, handle_sync_response-IsValid,
  record_sync-IsTable,
}

module _ (Value : Type 0) where
  recorded-IsValid :
      (now : ℕ) (id : String) (n : ℕ) (s t : SyncCoordinator)
      → shared t ≡ shared (record_sync now id (suc n) s)
      → IsValid s
      → IsValid t
  unfolding record_sync
  recorded-IsValid now id n s t q (inl h) = transfer (record_sync now id (suc n) s) t q (inl h)
  recorded-IsValid now id n s t q (inr v) =
      transfer (record_sync now id (suc n) s) t q (inr (record_sync-IsTable Value now id n s v))

  tick-IsValid :
      (now : ℕ) (s : SyncCoordinator)
      → IsValid s
      → IsValid (check_and_initiate_sync {Value = Value} now s).state
  unfolding check_and_initiate_sync
  tick-IsValid now s v =
      by_peers (get_healthy_peers now (health_window s.cluster_state) s.cluster_state) refl
        (Bool-cases s.pending_held) (Bool-cases (should_initiate_sync now s.cluster_state))
    where
      after : SyncCoordinator
      after = (check_and_initiate_sync {Value = Value} now s).state

      by_peers :
          (ps : List PeerInfo)
          → get_healthy_peers now (health_window s.cluster_state) s.cluster_state ≡ ps
          → (s.pending_held ≡ true) ⊎ (s.pending_held ≡ false)
          → (should_initiate_sync now s.cluster_state ≡ true)
            ⊎ (should_initiate_sync now s.cluster_state ≡ false)
          → IsValid after
      by_peers [] e free initiate = transfer s after (ground (arith, e)) v
      by_peers (p ∷ ps) e (inl held) initiate = inl (ground (arith, e, held))
      by_peers (p ∷ ps) e (inr free) (inl yes') =
          recorded-IsValid now (periodic_id now s.instance_id) (length ps) s after
            (ground (arith, e, free, yes')) v
      by_peers (p ∷ ps) e (inr free) (inr no') = transfer s after (ground (arith, no')) v

  removed-IsValid :
      (id : String) (s t : SyncCoordinator)
      → t.pending_syncs ≡ remove id s.pending_syncs
      → IsTable s.pending_syncs
      → IsValid t
  removed-IsValid id s t q v =
      inr (subst IsTable (sym q) (remove-AllEntries IsWaiting id s.pending_syncs v))

  time_out-IsValid :
      (now : ℕ) (t : Timeout) (s : SyncCoordinator)
      → IsValid s
      → IsValid (time_out {Value = Value} now t s).state
  unfolding time_out
  time_out-IsValid now (sync_timeout id) s v = elim (Bool-cases s.pending_held) [
    | inl held ↦ inl (ground (arith, held))
    | inr free ↦
        removed-IsValid id s (time_out {Value = Value} now (sync_timeout id) s).state
          (ground (arith, free)) (IsTable-of s free v)
  ]
  time_out-IsValid now (force_sync_timeout id n) s v = elim (Bool-cases s.pending_held) [
    | inl held ↦ inl (ground (arith, held))
    | inr free ↦ elim (Option-cases (get id s.pending_syncs)) [
      | inl e ↦ transfer s after (ground (arith, free, e)) v
      | inr (p, e) ↦ removed-IsValid id s after (ground (arith, free, e)) (IsTable-of s free v)
    ]
  ]
    where
      after : SyncCoordinator
      after = (time_out {Value = Value} now (force_sync_timeout id n) s).state

  send_force_sync-IsValid :
      (delivers : String → Bool) (now : ℕ) (s : SyncCoordinator)
      → IsValid s
      → IsValid (send_force_sync {Value = Value} delivers now s).state
  unfolding send_force_sync
  send_force_sync-IsValid delivers now s v =
      by_peers (get_healthy_peers now (minutes 5) s.cluster_state) refl (Bool-cases s.pending_held)
    where
      after : SyncCoordinator
      after = (send_force_sync {Value = Value} delivers now s).state

      by_peers :
          (ps : List PeerInfo)
          → get_healthy_peers now (minutes 5) s.cluster_state ≡ ps
          → (s.pending_held ≡ true) ⊎ (s.pending_held ≡ false)
          → IsValid after
      by_peers [] e free = transfer s after (ground (arith, e)) v
      by_peers (p ∷ ps) e (inl held) = inl (ground (arith, e, held))
      by_peers (p ∷ ps) e (inr free) =
          recorded-IsValid now (force_id now s.instance_id) (length ps) s after
            (ground (arith, e, free)) v

  force_sync-IsValid :
      (delivers : String → Bool) (now : ℕ) (reason : String) (s : SyncCoordinator)
      → IsValid s
      → IsValid (force_sync {Value = Value} delivers now reason s).state
  unfolding force_sync initiate_force_sync
  force_sync-IsValid delivers now reason s v =
      let c = (initiate_force_sync now reason s.instance_id s.config).0 in
      let started : SyncCoordinator = record s { config = c } in
      let w = send_force_sync-IsValid delivers now started v in
      elim (Bool-cases (is_cluster_enabled s.config)) [
        | inr off ↦ transfer s after (ground (arith, off)) v
        | inl on ↦ elim (Option-cases s.config.cluster) [
          | inl e ↦ transfer s after (ground (arith, on, e)) v
          | inr (k, e) ↦
              transfer (send_force_sync {Value = Value} delivers now started).state after
                (ground (arith, on, e)) w
        ]
      ]
    where
      after : SyncCoordinator
      after = (force_sync {Value = Value} delivers now reason s).state

module _ {Value : Type 0} (to_value : MountConfig → Option Value) (null : Value)
    (sign : String → String) where
  message-IsValid :
      (now : ℕ) (sender : String) (m : SyncMessage Value) (s : SyncCoordinator)
      → IsValid s
      → IsValid (handle_sync_message to_value null now sender m s).state
  unfolding handle_sync_message handle_sync_request then_heartbeat handle_config_update
      handle_sync_complete
  message-IsValid now sender (sync_request r) s v =
      transfer s (handle_sync_message to_value null now sender (sync_request r) s).state
        (ground arith) v
  message-IsValid now sender (sync_response r) s v =
      handle_sync_response-IsValid Value now sender r (see_sender now sender s) v
  message-IsValid now sender (config_update u) s v =
      transfer s (handle_sync_message to_value null now sender (config_update u) s).state
        (ground arith) v
  message-IsValid now sender (sync_complete c) s v = v
  message-IsValid now sender (heartbeat b) s v = v

  step-IsValid :
      (e : Event Value) (s : SyncCoordinator) → IsValid s → IsValid (step to_value null sign e s)
  unfolding step join_cluster
  step-IsValid (message now sender m) s v = message-IsValid now sender m s v
  step-IsValid (tick now) s v = tick-IsValid Value now s v
  step-IsValid (timed_out now t) s v = time_out-IsValid Value now t s v
  step-IsValid (forced delivers now reason) s v = force_sync-IsValid Value delivers now reason s v
  step-IsValid (joined connects now i) s v =
      transfer s (step to_value null sign (joined connects now i) s)
        (ground (arith, state-connect Value connects)) v

  run-IsValid_from :
      (es : List (Event Value)) (s : SyncCoordinator)
      → IsValid s
      → IsValid (run to_value null sign es s)
  unfolding run
  run-IsValid_from [] s v = v
  run-IsValid_from (e ∷ es) s v =
      run-IsValid_from es (step to_value null sign e s) (step-IsValid e s v)

  -- After any calls of a new coordinator, either the lock of the pending syncs is held by a task
  -- that waits, or every pending sync stands under its own identifier, waits for at least one more
  -- response and holds at most one configuration per response.
  pub run-IsValid :
      (instance_id : String) (k : ClusterState) (c : Config) (es : List (Event Value))
      → IsValid (run to_value null sign es (new instance_id k c))
  run-IsValid instance_id k c es = run-IsValid_from es (new instance_id k c) (inr tt)
