-- ===== src/Sync/Coordinator/Steps.antt =====
-- What one call of src/sync/coordinator.rs leaves as it is: the steps of each property of runs.
use fuji.Base.{
  ◌++◌, insert, ℕ, String, Bool, true, Option, none, some, List, [], ◌∷◌, ◌≡◌, refl, arith, inl,
  inr, Bool-cases, Option-cases, Dict, is_some, get,
}
use fuji.Config.{Config, MountConfigWrapper, PeerInfo}
use fuji.Config.Operations.{change_cluster, initialize_cluster}
use fuji.Config.ForceSync.{initiate_force_sync, fail_force_sync, finish_force_sync}
use fuji.Sync.Merge.Configs.{sync_version_of, default_merger, merge_configs}
use fuji.Cluster.{update_peer, get_peer}
use fuji.Cluster.Discovery.{ClusterInvitation, invited_peer}
use fuji.Sync.Protocol.{ConfigUpdate, SyncResponse}
use fuji.Sync.Coordinator.{PendingSync, SyncCoordinator, Timeout, sync_timeout, force_sync_timeout}
use fuji.Sync.Coordinator.Apply.{perform_merge}
use fuji.Sync.Coordinator.Handle.{stamp_update, add_response, finish_sync, handle_sync_response}
use fuji.Sync.Coordinator.Initiate.{
  record_sync, check_and_initiate_sync, time_out, send_force_sync, force_sync,
}
use fuji.Sync.Coordinator.Join.{push_peer, with_cluster, connect, join_cluster}

-- What the instances agree on: the sync version and the mounts.
abbrev pub content : Config → ℕ × Dict MountConfigWrapper
content c = (sync_version_of c, c.mounts)

content-initiate_force_sync :
    (now : ℕ) (reason by : String) (c : Config)
    → content (initiate_force_sync now reason by c).0 ≡ content c
unfolding initiate_force_sync
content-initiate_force_sync now reason by c = elim (Option-cases c.cluster) [
  | inl e ↦ ground (arith, e)
  | inr (k, e) ↦ ground (arith, e)
]

content-fail_force_sync :
    (now : ℕ) (error : String) (attempted : ℕ) (c : Config)
    → content (fail_force_sync now error attempted c).0 ≡ content c
unfolding fail_force_sync finish_force_sync
content-fail_force_sync now error attempted c = elim (Option-cases c.cluster) [
  | inl e ↦ ground (arith, e)
  | inr (k, e) ↦ elim (Bool-cases k.sync_metadata.force_sync_state.sync_in_progress) [
    | inl p ↦ ground (arith, e, p)
    | inr p ↦ ground (arith, e, p)
  ]
]

content-with_cluster : (id : String) (c : Config) → content (with_cluster id c) ≡ content c
unfolding initialize_cluster
content-with_cluster id c = elim (Option-cases c.cluster) [
  | inl e ↦ ground (arith, e)
  | inr (k, e) ↦ ground (arith, e)
]

content-push_peer : (p : Option PeerInfo) (c : Config) → content (push_peer p c) ≡ content c
unfolding push_peer change_cluster
content-push_peer none c = refl
content-push_peer (some p) c = elim (Option-cases c.cluster) [
  | inl e ↦ ground (arith, e)
  | inr (k, e) ↦ ground (arith, e)
]

pub content-stamp_update :
    (now : ℕ) (u : ConfigUpdate) (c : Config)
    → is_some c.cluster ≡ true
    → content (change_cluster (stamp_update now u) c) ≡ (u.sync_version, c.mounts)
unfolding change_cluster stamp_update
content-stamp_update now u c h = ground (arith, h)

module _ (Value : Type 0) where
  pub perform_merge-held :
      (now : ℕ) (request_id : String) (configs : List (String × Config)) (s : SyncCoordinator)
      → s.pending_held ≡ true
      → (perform_merge {Value = Value} now request_id configs s).state ≡ s
  unfolding perform_merge
  perform_merge-held now request_id configs s h =
      elim (Option-cases (merge_configs default_merger now configs)) [
        | inl e ↦ rw (perform_merge, e) refl
        | inr (m, e) ↦ rw (perform_merge, e, h) refl
      ]

  config-finish_sync :
      (now : ℕ) (request_id : String) (p : PendingSync) (s : SyncCoordinator)
      → (finish_sync {Value = Value} now request_id p s).state.config ≡ s.config
  unfolding finish_sync
  config-finish_sync now request_id p s = ground (
    arith,
    perform_merge-held now p.request_id (p.peer_configs ++ (s.instance_id, s.config) ∷ [])
        (record s {
          pending_syncs = insert request_id (record p { peer_configs = [] }) s.pending_syncs;
          pending_held = true;
        })
        refl,
  )

  pub config-handle_sync_response :
      (now : ℕ) (sender_id : String) (r : SyncResponse Value) (s : SyncCoordinator)
      → (handle_sync_response now sender_id r s).state.config ≡ s.config
  unfolding handle_sync_response
  config-handle_sync_response now sender_id r s = elim (Bool-cases s.pending_held) [
    | inl held ↦ ground (arith, held)
    | inr free ↦ elim (Option-cases (get r.request_id s.pending_syncs)) [
      | inl e ↦ ground (arith, free, e)
      | inr (p, e) ↦ ground (
        arith,
        free,
        e,
        config-finish_sync now r.request_id (add_response sender_id r.config p) s,
      )
    ]
  ]

  pub config-check_and_initiate_sync :
      (now : ℕ) (s : SyncCoordinator)
      → (check_and_initiate_sync {Value = Value} now s).state.config ≡ s.config
  unfolding check_and_initiate_sync record_sync
  config-check_and_initiate_sync now s = ground arith

  pub content-time_out :
      (now : ℕ) (t : Timeout) (s : SyncCoordinator)
      → content (time_out {Value = Value} now t s).state.config ≡ content s.config
  unfolding time_out
  content-time_out now (sync_timeout i) s = ground arith
  content-time_out now (force_sync_timeout i n) s =
      ground (arith, content-fail_force_sync now "Force sync timed out" n s.config)

  content-send_force_sync :
      (delivers : String → Bool) (now : ℕ) (s : SyncCoordinator)
      → content (send_force_sync {Value = Value} delivers now s).state.config ≡ content s.config
  unfolding send_force_sync record_sync
  content-send_force_sync delivers now s =
      ground (arith, content-fail_force_sync now "No healthy peers available" 0 s.config)

  pub content-force_sync :
      (delivers : String → Bool) (now : ℕ) (reason : String) (s : SyncCoordinator)
      → content (force_sync {Value = Value} delivers now reason s).state.config ≡ content s.config
  unfolding force_sync
  content-force_sync delivers now reason s =
      let c = (initiate_force_sync now reason s.instance_id s.config).0 in
      ground (
        arith,
        content-initiate_force_sync now reason s.instance_id s.config,
        content-send_force_sync delivers now (record s { config = c }),
      )

  pub state-connect :
      (connects : PeerInfo → Bool) (p : Option PeerInfo) (s : SyncCoordinator)
      → (connect {Value = Value} connects p s).state ≡ s
  unfolding connect
  state-connect connects none s = refl
  state-connect connects (some p) s = refl

  pub content-join_cluster :
      (sign : String → String) (connects : PeerInfo → Bool) (now : ℕ) (i : ClusterInvitation)
      (s : SyncCoordinator)
      → content (join_cluster {Value = Value} sign connects now i s).state.config ≡ content s.config
  unfolding join_cluster
  content-join_cluster sign connects now i s =
      let k = update_peer (invited_peer now i) s.cluster_state in
      let p = get_peer i.instance_id k in
      let c = with_cluster s.instance_id s.config in
      ground (
        arith,
        state-connect connects p (record s { cluster_state = k; config = push_peer p c }),
        content-push_peer p c,
        content-with_cluster s.instance_id s.config,
      )
