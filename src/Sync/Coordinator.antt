-- ===== src/Sync/Coordinator.antt =====
-- src/sync/coordinator.rs: the coordinator of one instance, its state and what it tells others.
-- The JSON value of a mount and serde_json's conversion into it are parameters. The locks of
-- `config` and of the cluster state are never held while a task waits for another lock, so they
-- are left out; the write lock of `pending_syncs` is held across an await, so it is part of the
-- state. All times that one call reads are one argument.
pub mod Apply
pub mod Handle
pub mod Initiate
pub mod Join
pub mod Run
pub mod Steps
pub mod Updates
pub mod Tasks
pub mod Lock
pub mod Pending
pub mod Requests
pub mod Schedule
pub mod Postpone
pub mod Force
pub mod Forgets
use fuji.Base.{
  ℕ, String, Bool, true, false, Option, none, some, List, [], ◌∷◌, length, str_eq, if◌then◌else◌,
  Dict, get, Result, ok, err,
}
use fuji.Mount.Config.{MountConfig}
use fuji.Config.{Config, MountConfigWrapper, SyncConflict, ConflictType, ConflictResolution}
use fuji.Config.ForceSync.{ForceSyncError}
use fuji.Cluster.{ClusterState, get_peers}
use fuji.Cluster.Discovery.{InvitationError}
use fuji.Sync.Merge.Configs.{sync_version_of}
use fuji.Sync.Protocol.{SyncMessage, MountConflict, MountVersion, healthy, new_heartbeat}
use fuji.Sync.Protocol.{ConflictType as ProtocolConflictType}
use fuji.Sync.Protocol.{ConflictResolution as ProtocolConflictResolution}

pub record PendingSync : Type 0 where
  pub request_id : String
  pub initiated_at : ℕ
  pub responded_peers : List String
  pub peer_configs : Dict Config
  pub total_peers : ℕ

-- `pending_held` is whether a task that waits holds the write lock of the pending syncs.
pub record SyncCoordinator : Type 0 where
  pub instance_id : String
  pub cluster_state : ClusterState
  pub config : Config
  pub pending_syncs : Dict PendingSync
  pub pending_held : Bool

abbrev pub new : String → ClusterState → Config → SyncCoordinator
new instance_id cluster_state config = record {
  instance_id = instance_id;
  cluster_state = cluster_state;
  config = config;
  pending_syncs = [];
  pending_held = false;
}

pub data SyncError : Type 0 where
  merge_failed not_enabled no_healthy_peers not_connected : SyncError
  invitation_error : InvitationError → SyncError
  force_sync_error : ForceSyncError → SyncError

-- A call comes to its end, or waits for the lock of the pending syncs.
pub data Outcome (A : Type 0) : Type 0 where
  ended : Result SyncError A → Outcome A
  waits : Outcome A

-- What is handed to the transport.
pub data Sent (Value : Type 0) : Type 0 where
  to_peer : String → SyncMessage Value → Sent Value
  broadcast : SyncMessage Value → Sent Value

-- The tasks that wait for a timeout: of a sync, and of a force sync with the number of peers that
-- the request was sent to.
pub data Timeout : Type 0 where
  sync_timeout : String → Timeout
  force_sync_timeout : String → ℕ → Timeout

pub record Done (Value A : Type 0) : Type 0 where
  pub state : SyncCoordinator
  pub sent : List (Sent Value)
  pub spawned : List Timeout
  pub outcome : Outcome A

module _ {Value A : Type 0} where
  -- A call that ends and sends nothing.
  abbrev pub ends : SyncCoordinator → Result SyncError A → Done Value A
  ends s r = record { state = s; sent = []; spawned = []; outcome = ended r }

  -- A call that waits and has sent nothing.
  abbrev pub stuck : SyncCoordinator → Done Value A
  stuck s = record { state = s; sent = []; spawned = []; outcome = waits }

abbrev pub protocol_type : ConflictType → ProtocolConflictType
protocol_type ConflictType.concurrent_modification = ProtocolConflictType.concurrent_modification
protocol_type ConflictType.delete_modify_conflict = ProtocolConflictType.delete_modify_conflict
protocol_type ConflictType.mount_point_conflict = ProtocolConflictType.mount_point_conflict

abbrev pub protocol_resolution : ConflictResolution → ProtocolConflictResolution
protocol_resolution ConflictResolution.used_latest = ProtocolConflictResolution.use_latest
protocol_resolution (ConflictResolution.used_instance i) = ProtocolConflictResolution.use_instance i
protocol_resolution ConflictResolution.requires_manual_intervention =
    ProtocolConflictResolution.manual

module _ {Value : Type 0} (to_value : MountConfig → Option Value) (null : Value) where
  abbrev pub value_or_null : Option MountConfigWrapper → Value
  value_or_null none = null
  value_or_null (some w) = elim (to_value w.config) [ some v ↦ v | none ↦ null ]

  abbrev pub updated_at_or : ℕ → Option MountConfigWrapper → ℕ
  updated_at_or now none = now
  updated_at_or now (some w) = w.config.updated_at

  abbrev pub version_in : ℕ → Config → String → String → MountVersion Value
  version_in now c mount_id instance_id = record {
    instance_id = instance_id;
    updated_at = updated_at_or now (get mount_id c.mounts);
    mount_data = value_or_null (get mount_id c.mounts);
  }

  unfoldable pub remote_versions_of :
      ℕ → String → Config → String → List String → List (MountVersion Value)
  remote_versions_of now own remote mount_id [] = []
  remote_versions_of now own remote mount_id (i ∷ ids) =
      let rest = remote_versions_of now own remote mount_id ids in
      if str_eq i own then rest else version_in now remote mount_id i ∷ rest

  unfoldable pub convert_sync_to_mount_conflicts :
      ℕ → String → List SyncConflict → Config → Config → List (MountConflict Value)
  unfolding remote_versions_of
  convert_sync_to_mount_conflicts now own [] local remote = []
  convert_sync_to_mount_conflicts now own (c ∷ cs) local remote =
      record {
        mount_id = c.mount_id;
        conflict_type = protocol_type c.conflict_type;
        local_version = version_in now local c.mount_id own;
        remote_versions = remote_versions_of now own remote c.mount_id c.conflicting_instances;
        suggested_resolution = protocol_resolution c.resolution;
      }
      ∷ convert_sync_to_mount_conflicts now own cs local remote

unfoldable pub create_heartbeat : {Value : Type 0} → ℕ → SyncCoordinator → SyncMessage Value
create_heartbeat now s =
    new_heartbeat now s.instance_id (sync_version_of s.config) healthy
      (length (get_peers s.cluster_state))
