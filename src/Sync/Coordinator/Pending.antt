-- ===== src/Sync/Coordinator/Pending.antt =====
-- The table of pending syncs in src/sync/coordinator.rs and what a response
-- does to it.
pub mod Runs
use fuji.Base.{
  minutes, ℕ, suc, ◌≤◌, ◌<◌, String, Bool, true, false, Option, List, [], ◌∷◌, ◌++◌, ◌≡◌, refl, ◌∙◌,
  ap, arith, inl, inr, ◌⊎◌, Bool-cases, Option-cases, Dict, length, length-append, ◌==◌, get,
  remove, AllEntries, insert-AllEntries, remove-AllEntries, get-AllEntries, length-insert,
  remove-insert, subst, sym,
}
use fuji.Mount.Config.{MountConfig}
use fuji.Config.{PeerInfo, Config}
use fuji.Config.Operations.{is_cluster_enabled}
use fuji.Config.ForceSync.{initiate_force_sync}
use fuji.Cluster.{ClusterState, get_healthy_peers, should_initiate_sync}
use fuji.Sync.Protocol.{
  SyncMessage, SyncResponse, sync_request, sync_response, config_update, sync_complete, heartbeat,
}
use fuji.Sync.Merge.Configs.{default_merger, merge_configs}
use fuji.Sync.Coordinator.{
  PendingSync, SyncCoordinator, Timeout, sync_timeout, force_sync_timeout, new,
}
use fuji.Sync.Coordinator.Apply.{perform_merge}
use fuji.Sync.Coordinator.Handle.{
  see_sender, add_response, finish_sync, handle_sync_response, handle_sync_message,
  handle_sync_request, then_heartbeat, handle_config_update, handle_sync_complete,
}
use fuji.Sync.Coordinator.Initiate.{
  health_window, periodic_id, force_id, new_pending, record_sync, check_and_initiate_sync, time_out,
  send_force_sync, force_sync,
}
use fuji.Sync.Coordinator.Join.{join_cluster}
use fuji.Sync.Coordinator.Run.{Event, message, tick, timed_out, forced, joined, step, run}
use fuji.Sync.Coordinator.Steps.{state-connect}

-- An entry stands under its own identifier, waits for at least one more response, and holds at
-- most one configuration per response.
pub record IsWaiting (id : String) (p : PendingSync) : Type 0 where
  pub own_key : p.request_id ≡ id
  pub incomplete : length p.responded_peers < p.total_peers
  pub configs_le : length p.peer_configs ≤ length p.responded_peers

abbrev pub IsTable : Dict PendingSync → Type 0
IsTable = AllEntries IsWaiting

-- Unless the lock is held, all entries wait.
abbrev pub IsValid : SyncCoordinator → Type 0
IsValid s = (s.pending_held ≡ true) ⊎ IsTable s.pending_syncs

abbrev pub shared : SyncCoordinator → Bool × Dict PendingSync
shared s = (s.pending_held, s.pending_syncs)

pub transfer : (s t : SyncCoordinator) → shared t ≡ shared s → IsValid s → IsValid t
transfer s t q (inl h) = inl (ap (λ (y : Bool × Dict PendingSync). y.0) q ∙ h)
transfer s t q (inr v) = inr (subst IsTable (ap (λ (y : Bool × Dict PendingSync). y.1) (sym q)) v)

pub IsTable-of :
    (s : SyncCoordinator) → s.pending_held ≡ false → IsValid s → IsTable s.pending_syncs
IsTable-of s free (inl h) = cc
IsTable-of s free (inr v) = v

module _ (Value : Type 0) where
  finish_sync-IsValid :
      (now : ℕ) (id : String) (p : PendingSync) (s : SyncCoordinator)
      → IsTable s.pending_syncs
      → IsValid (finish_sync {Value = Value} now id p s).state
  unfolding finish_sync perform_merge
  finish_sync-IsValid now id p s v =
      elim (Option-cases
        (merge_configs default_merger now (p.peer_configs ++ (s.instance_id, s.config) ∷ []))) [
          | inl e ↦
              let q : (finish_sync {Value = Value} now id p s).state.pending_syncs
                  ≡ remove id s.pending_syncs =
                ground
                  (arith, e, remove-insert id (record p { peer_configs = [] }) s.pending_syncs) in
              inr (subst IsTable (sym q) (remove-AllEntries IsWaiting id s.pending_syncs v))
          | inr (m, e) ↦ inl (ground (arith, e))
        ]

  add_response-IsWaiting :
      (sender id : String) (c : Config) (p : PendingSync)
      → IsWaiting id p
      → (length (add_response sender c p).responded_peers == p.total_peers) ≡ false
      → IsWaiting id (add_response sender c p)
  unfolding add_response
  add_response-IsWaiting sender id c p h more = record {
    own_key = h.own_key;
    incomplete = ground (arith, length-append p.responded_peers (sender ∷ []), h.incomplete, more);
    configs_le = omega (
      arith,
      length-append p.responded_peers (sender ∷ []),
      length-insert sender c p.peer_configs,
      h.configs_le,
    );
  }

  pub handle_sync_response-IsValid :
      (now : ℕ) (sender : String) (r : SyncResponse Value) (s : SyncCoordinator)
      → IsValid s
      → IsValid (handle_sync_response now sender r s).state
  unfolding handle_sync_response
  handle_sync_response-IsValid now sender r s v = elim (Bool-cases s.pending_held) [
    | inl held ↦ inl (ground (arith, held))
    | inr free ↦
        let t = IsTable-of s free v in
        elim (Option-cases (get r.request_id s.pending_syncs)) [
          | inl e ↦
              transfer s (handle_sync_response now sender r s).state (ground (arith, free, e)) v
          | inr (p, e) ↦
              let p' = add_response sender r.config p in
              elim (Bool-cases (length p'.responded_peers == p'.total_peers)) [
                | inl full ↦
                    rw (handle_sync_response, free, e, full)
                      (finish_sync-IsValid now r.request_id p' s t)
                | inr more ↦
                    rw (handle_sync_response, free, e, more)
                      (inr (
                        insert-AllEntries IsWaiting r.request_id p' s.pending_syncs
                          (add_response-IsWaiting sender r.request_id r.config p
                            (get-AllEntries IsWaiting r.request_id p s.pending_syncs e t) more)
                          t))
              ]
        ]
  ]

  pub record_sync-IsTable :
      (now : ℕ) (id : String) (n : ℕ) (s : SyncCoordinator)
      → IsTable s.pending_syncs
      → IsTable (record_sync now id (suc n) s).pending_syncs
  unfolding record_sync
  record_sync-IsTable now id n s t =
      insert-AllEntries IsWaiting id (new_pending now id (suc n)) s.pending_syncs
        (record { own_key = refl; incomplete = omega arith; configs_le = omega arith }) t
