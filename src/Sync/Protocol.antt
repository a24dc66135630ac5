-- ===== src/Sync/Protocol.antt =====
-- src/sync/protocol.rs: the messages between the instances of a cluster. The JSON value of a mount
-- is a parameter, since serde_json makes it. `usize` and `u64` are natural numbers here.
use Prim.Native.String.{◌++◌ as append}
use fuji.Base.{ℕ, ◌^◌, String, Option, none, List, ltb, if◌then◌else◌}
use fuji.Mount.Options.Text.{show_usize}
use fuji.Config.{Config}

pub data ConflictType : Type 0 where
  concurrent_modification delete_modify_conflict mount_point_conflict type_mismatch : ConflictType

pub data ConflictResolution : Type 0 where
  use_latest : ConflictResolution
  use_instance : String → ConflictResolution
  delete manual : ConflictResolution

pub record MountVersion (Value : Type 0) : Type 0 where
  pub instance_id : String
  pub updated_at : ℕ
  pub mount_data : Value

pub record MountConflict (Value : Type 0) : Type 0 where
  pub mount_id : String
  pub conflict_type : ConflictType
  pub local_version : MountVersion Value
  pub remote_versions : List (MountVersion Value)
  pub suggested_resolution : ConflictResolution

pub data SyncResult (Value : Type 0) : Type 0 where
  success : SyncResult Value
  failed : String → SyncResult Value
  conflict : List (MountConflict Value) → SyncResult Value
  aborted : SyncResult Value

pub data NodeStatus : Type 0 where
  healthy syncing : NodeStatus
  error : String → NodeStatus
  shutting_down : NodeStatus

pub record SyncRequest : Type 0 where
  pub request_id : String
  pub requester_id : String
  pub known_version : ℕ
  pub mount_filter : Option (List String)

pub record SyncResponse (Value : Type 0) : Type 0 where
  pub request_id : String
  pub config : Config
  pub sync_version : ℕ
  pub conflicts : List (MountConflict Value)

pub record ConfigUpdate : Type 0 where
  pub config : Config
  pub sync_version : ℕ
  pub updated_by : String
  pub updated_at : ℕ
  pub affected_mounts : List String

pub record SyncComplete (Value : Type 0) : Type 0 where
  pub sync_version : ℕ
  pub initiator_id : String
  pub result : SyncResult Value
  pub conflicts_resolved : ℕ
  pub participants : List String

pub record Heartbeat : Type 0 where
  pub instance_id : String
  pub timestamp : ℕ
  pub sync_version : ℕ
  pub status : NodeStatus
  pub peer_count : ℕ

pub data SyncMessage (Value : Type 0) : Type 0 where
  sync_request : SyncRequest → SyncMessage Value
  sync_response : SyncResponse Value → SyncMessage Value
  config_update : ConfigUpdate → SyncMessage Value
  sync_complete : SyncComplete Value → SyncMessage Value
  heartbeat : Heartbeat → SyncMessage Value

-- `timestamp_nanos_opt().unwrap_or(0)`: the nanoseconds, if they fit an `i64`.
abbrev pub timestamp_nanos : ℕ → ℕ
timestamp_nanos t = if ltb t (2 ^ 63) then t else 0

module _ {Value : Type 0} where
  abbrev pub new_request : String → String → ℕ → SyncMessage Value
  new_request request_id requester_id known_version = sync_request (record {
    request_id = request_id;
    requester_id = requester_id;
    known_version = known_version;
    mount_filter = none;
  })

  abbrev pub new_response : String → Config → ℕ → List (MountConflict Value) → SyncMessage Value
  new_response request_id config version conflicts = sync_response (record {
    request_id = request_id;
    config = config;
    sync_version = version;
    conflicts = conflicts;
  })

  abbrev pub new_update : ℕ → Config → ℕ → String → List String → SyncMessage Value
  new_update now config version updated_by affected_mounts = config_update (record {
    config = config;
    sync_version = version;
    updated_by = updated_by;
    updated_at = now;
    affected_mounts = affected_mounts;
  })

  abbrev pub new_complete : ℕ → String → SyncResult Value → ℕ → List String → SyncMessage Value
  new_complete version initiator_id result conflicts_resolved participants = sync_complete (record {
    sync_version = version;
    initiator_id = initiator_id;
    result = result;
    conflicts_resolved = conflicts_resolved;
    participants = participants;
  })

  abbrev pub new_heartbeat : ℕ → String → ℕ → NodeStatus → ℕ → SyncMessage Value
  new_heartbeat now instance_id version status peer_count = heartbeat (record {
    instance_id = instance_id;
    timestamp = now;
    sync_version = version;
    status = status;
    peer_count = peer_count;
  })

  unfoldable pub message_type : SyncMessage Value → String
  message_type (sync_request r) = "SyncRequest"
  message_type (sync_response r) = "SyncResponse"
  message_type (config_update u) = "ConfigUpdate"
  message_type (sync_complete c) = "SyncComplete"
  message_type (heartbeat h) = "Heartbeat"

  unfoldable pub message_id : ℕ → SyncMessage Value → String
  message_id now (sync_request r) = append "req-" r.request_id
  message_id now (sync_response r) = append "resp-" r.request_id
  message_id now (config_update u) = append "update-" (show_usize (timestamp_nanos now))
  message_id now (sync_complete c) =
      append (append (append "complete-" (show_usize c.sync_version)) "-") c.initiator_id
  message_id now (heartbeat h) =
      append (append (append "hb-" h.instance_id) "-") (show_usize (timestamp_nanos h.timestamp))
