-- ===== src/Sync/Coordinator/Schedule.antt =====
-- What the calls of src/sync/coordinator.rs do to that which decides on a periodic sync.
use fuji.Base.{
  ℕ, ◌++◌, String, Bool, true, Option, some, [], ◌∷◌, ◌≡◌, refl, ◌∙◌, arith, get, insert, inl, inr,
  Bool-cases, Option-cases,
}
use fuji.Mount.Config.{MountConfig}
use fuji.Config.{ClusterConfig, PeerInfo}
use fuji.Cluster.{mark_peer_seen, mark_peer_request, change_peer, update_peer, get_peer}
use fuji.Cluster.Discovery.{ClusterInvitation, invited_peer}
use fuji.Sync.Protocol.{
  SyncResponse, sync_request, sync_response, config_update, sync_complete, heartbeat,
}
use fuji.Sync.Coordinator.{PendingSync, SyncCoordinator, Timeout, sync_timeout, force_sync_timeout}
use fuji.Sync.Coordinator.Handle.{
  see_sender, add_response, finish_sync, handle_sync_response, handle_sync_request, then_heartbeat,
  handle_config_update, handle_sync_complete, handle_sync_message,
}
use fuji.Sync.Coordinator.Initiate.{
  record_sync, check_and_initiate_sync, time_out, send_force_sync, force_sync,
}
use fuji.Sync.Coordinator.Join.{push_peer, with_cluster, join_cluster}
use fuji.Sync.Coordinator.Run.{Event, message, tick, timed_out, forced, joined, step}
use fuji.Sync.Coordinator.Steps.{perform_merge-held, state-connect}

-- What decides on a periodic sync: the settings, and when the instance was asked last.
abbrev pub Schedule : Type 0
Schedule = Option ClusterConfig × Option ℕ

abbrev pub schedule : SyncCoordinator → Schedule
schedule s = (s.cluster_state.config, s.cluster_state.last_peer_request)

abbrev pub asked_at : {Value : Type 0} → Event Value → Schedule → Schedule
asked_at (message now sender (sync_request r)) (c, last) = (c, some now)
asked_at e s = s

schedule-see_sender :
    (now : ℕ) (sender : String) (s : SyncCoordinator)
    → schedule (see_sender now sender s) ≡ schedule s
unfolding mark_peer_seen change_peer
schedule-see_sender now sender s = ground arith

module _ (Value : Type 0) where
  schedule-finish_sync :
      (now : ℕ) (request_id : String) (p : PendingSync) (s : SyncCoordinator)
      → schedule (finish_sync {Value = Value} now request_id p s).state ≡ schedule s
  unfolding finish_sync
  schedule-finish_sync now request_id p s = ground (
    arith,
    perform_merge-held Value now p.request_id (p.peer_configs ++ (s.instance_id, s.config) ∷ [])
        (record s {
          pending_syncs = insert request_id (record p { peer_configs = [] }) s.pending_syncs;
          pending_held = true;
        })
        refl,
  )

  schedule-handle_sync_response :
      (now : ℕ) (sender_id : String) (r : SyncResponse Value) (s : SyncCoordinator)
      → schedule (handle_sync_response now sender_id r s).state ≡ schedule s
  unfolding handle_sync_response
  schedule-handle_sync_response now sender_id r s = elim (Bool-cases s.pending_held) [
    | inl held ↦ ground (arith, held)
    | inr free ↦ elim (Option-cases (get r.request_id s.pending_syncs)) [
      | inl e ↦ ground (arith, free, e)
      | inr (p, e) ↦ ground (
        arith,
        free,
        e,
        schedule-finish_sync now r.request_id (add_response sender_id r.config p) s,
      )
    ]
  ]

  schedule-check_and_initiate_sync :
      (now : ℕ) (s : SyncCoordinator)
      → schedule (check_and_initiate_sync {Value = Value} now s).state ≡ schedule s
  unfolding check_and_initiate_sync record_sync
  schedule-check_and_initiate_sync now s = ground arith

  schedule-time_out :
      (now : ℕ) (t : Timeout) (s : SyncCoordinator)
      → schedule (time_out {Value = Value} now t s).state ≡ schedule s
  unfolding time_out
  schedule-time_out now (sync_timeout i) s = ground arith
  schedule-time_out now (force_sync_timeout i n) s = ground arith

  schedule-force_sync :
      (delivers : String → Bool) (now : ℕ) (reason : String) (s : SyncCoordinator)
      → schedule (force_sync {Value = Value} delivers now reason s).state ≡ schedule s
  unfolding force_sync send_force_sync record_sync
  schedule-force_sync delivers now reason s = ground arith

  schedule-join_cluster :
      (sign : String → String) (connects : PeerInfo → Bool) (now : ℕ) (i : ClusterInvitation)
      (s : SyncCoordinator)
      → schedule (join_cluster {Value = Value} sign connects now i s).state ≡ schedule s
  unfolding join_cluster update_peer
  schedule-join_cluster sign connects now i s =
      let k = update_peer (invited_peer now i) s.cluster_state in
      let p = get_peer i.instance_id k in
      let c = with_cluster s.instance_id s.config in
      ground (
        arith,
        state-connect Value connects p (record s { cluster_state = k; config = push_peer p c }),
      )

module _ {Value : Type 0} (to_value : MountConfig → Option Value) (null : Value)
    (sign : String → String) where
  pub schedule-step :
      (e : Event Value) (s : SyncCoordinator)
      → schedule (step to_value null sign e s) ≡ asked_at e (schedule s)
  unfolding step handle_sync_message handle_sync_request then_heartbeat handle_sync_complete
      handle_config_update mark_peer_request
  schedule-step (message now sender (sync_request r)) s =
      ground (arith, schedule-see_sender now sender s)
  schedule-step (message now sender (sync_response r)) s =
      schedule-handle_sync_response Value now sender r (see_sender now sender s)
      ∙ schedule-see_sender now sender s
  schedule-step (message now sender (config_update u)) s =
      ground (arith, schedule-see_sender now sender s)
  schedule-step (message now sender (sync_complete c)) s = schedule-see_sender now sender s
  schedule-step (message now sender (heartbeat b)) s = schedule-see_sender now sender s
  schedule-step (tick now) s = schedule-check_and_initiate_sync Value now s
  schedule-step (timed_out now t) s = schedule-time_out Value now t s
  schedule-step (forced delivers now reason) s = schedule-force_sync Value delivers now reason s
  schedule-step (joined connects now i) s = schedule-join_cluster Value sign connects now i s
