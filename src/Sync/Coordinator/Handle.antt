-- ===== src/Sync/Coordinator/Handle.antt =====
-- The handlers of src/sync/coordinator.rs for the messages of other instances.
use fuji.Base.{
  ℕ, String, Bool, true, false, Option, none, some, [], ◌∷◌, ◌++◌, length, ltb, ◌==◌, get, insert,
  remove, ok, err, if◌then◌else◌,
}
use fuji.Mount.Config.{MountConfig}
use fuji.Config.{Config, ClusterConfig}
use fuji.Config.Operations.{change_cluster}
use fuji.Cluster.{mark_peer_request, mark_peer_seen}
use fuji.Sync.Merge.Configs.{default_merger, merge_configs, sync_version_of}
use fuji.Sync.Protocol.{
  SyncRequest, SyncResponse, ConfigUpdate, SyncComplete, SyncMessage, new_response, sync_request,
  sync_response, config_update, sync_complete, heartbeat,
}
use fuji.Sync.Coordinator.{
  PendingSync, SyncCoordinator, merge_failed, ended, waits, Done, ends, stuck, create_heartbeat,
  convert_sync_to_mount_conflicts,
}
use fuji.Sync.Coordinator.Apply.{perform_merge}

-- What an applied update writes into the cluster settings that came with it.
unfoldable pub stamp_update : ℕ → ConfigUpdate → ClusterConfig → ClusterConfig
stamp_update now update cluster = record cluster {
  sync_metadata = record (cluster.sync_metadata) {
    sync_version = update.sync_version;
    last_sync_at = some now;
    last_modified_by = some update.updated_by;
  };
}

unfoldable pub add_response : String → Config → PendingSync → PendingSync
add_response sender_id config sync = record sync {
  responded_peers = sync.responded_peers ++ sender_id ∷ [];
  peer_configs = insert sender_id config sync.peer_configs;
}

-- The sender was seen, which each message begins with.
abbrev pub see_sender : ℕ → String → SyncCoordinator → SyncCoordinator
see_sender now sender_id s = record s {
  cluster_state = mark_peer_seen now sender_id s.cluster_state;
}

-- The version is read under one lock, and the configuration is written under another.
unfoldable pub is_newer : ConfigUpdate → SyncCoordinator → Bool
is_newer update s = ltb (sync_version_of s.config) update.sync_version

unfoldable pub apply_update : ℕ → ConfigUpdate → SyncCoordinator → SyncCoordinator
unfolding change_cluster stamp_update
apply_update now update s = record s {
  config = change_cluster (stamp_update now update) update.config;
}

module _ {Value : Type 0} where
  -- The handler when no other task writes between its two steps.
  unfoldable pub handle_config_update : ℕ → ConfigUpdate → SyncCoordinator → Done Value (Unit {0})
  unfolding is_newer apply_update
  handle_config_update now update s =
      ends (if is_newer update s then apply_update now update s else s) (ok tt)

  -- Only a line is logged.
  unfoldable pub handle_sync_complete : SyncComplete Value → SyncCoordinator → Done Value (Unit {0})
  handle_sync_complete complete s = ends s (ok tt)

  -- The last response: the configurations are taken out of the entry, the lock stays held during
  -- the merge, and the entry is removed after it, also if the merge fails.
  unfoldable pub finish_sync : ℕ → String → PendingSync → SyncCoordinator → Done Value (Unit {0})
  unfolding perform_merge
  finish_sync now request_id sync s =
      let drained = record s {
        pending_syncs = insert request_id (record sync { peer_configs = [] }) s.pending_syncs;
        pending_held = true;
      } in
      let merge : Done Value (Unit {0}) =
        perform_merge now sync.request_id (sync.peer_configs ++ (s.instance_id, s.config) ∷ [])
          drained in
      elim merge.outcome [
        | waits ↦ merge
        | ended r ↦ record merge {
          state = record (merge.state) {
            pending_syncs = remove request_id merge.state.pending_syncs;
            pending_held = false;
          };
          outcome = ended (ok tt);
        }
      ]

  unfoldable pub handle_sync_response :
      ℕ → String → SyncResponse Value → SyncCoordinator → Done Value (Unit {0})
  unfolding add_response finish_sync
  handle_sync_response now sender_id response s =
      if s.pending_held then stuck s else elim (get response.request_id s.pending_syncs) [
        | none ↦ ends s (ok tt)
        | some entry ↦
            let sync = add_response sender_id response.config entry in
            if length sync.responded_peers == sync.total_peers
            then finish_sync now response.request_id sync s
            else ends (record s { pending_syncs = insert response.request_id sync s.pending_syncs })
                (ok tt)
      ]

module _ {Value : Type 0} (to_value : MountConfig → Option Value) (null : Value) where
  unfoldable pub handle_sync_request :
      ℕ → SyncRequest → SyncCoordinator → Done Value (SyncMessage Value)
  unfolding mark_peer_request merge_configs convert_sync_to_mount_conflicts
  handle_sync_request now request s =
      let asked = record s { cluster_state = mark_peer_request now s.cluster_state } in
      elim (merge_configs default_merger now ((s.instance_id, s.config) ∷ [])) [
        | none ↦ ends asked (err merge_failed)
        | some merged ↦ ends asked (
            ok (
              new_response request.request_id merged.config merged.sync_metadata.sync_version (
                convert_sync_to_mount_conflicts to_value null now s.instance_id
                  merged.sync_metadata.pending_conflicts s.config s.config)))
      ]

  -- `handler.await?; Ok(self.create_heartbeat().await)`
  unfoldable pub then_heartbeat : ℕ → Done Value (Unit {0}) → Done Value (SyncMessage Value)
  unfolding create_heartbeat
  then_heartbeat now d = record {
    state = d.state;
    sent = d.sent;
    spawned = d.spawned;
    outcome = elim d.outcome [
      | waits ↦ waits
      | ended (ok u) ↦ ended (ok (create_heartbeat now d.state))
      | ended (err e) ↦ ended (err e)
    ];
  }

  unfoldable pub handle_sync_message :
      ℕ → String → SyncMessage Value → SyncCoordinator → Done Value (SyncMessage Value)
  unfolding mark_peer_seen handle_sync_request then_heartbeat handle_sync_response
      handle_config_update handle_sync_complete create_heartbeat
  handle_sync_message now sender_id message s =
      let seen = see_sender now sender_id s in
      elim message [
        | sync_request request ↦ handle_sync_request now request seen
        | sync_response response ↦
            then_heartbeat now (handle_sync_response now sender_id response seen)
        | config_update update ↦ then_heartbeat now (handle_config_update now update seen)
        | sync_complete complete ↦ then_heartbeat now (handle_sync_complete complete seen)
        | heartbeat h ↦ ends seen (ok (create_heartbeat now seen))
      ]
