-- ===== src/Config.antt =====
-- src/config/mod.rs: the configuration of one instance, its mounts and its part of a cluster.
-- Loading, saving and validating files are left out. The clock is an argument; the `u64` and
-- `u32` counters wrap in a release build.
pub mod Operations
pub mod ForceSync
use fuji.Base.{ℕ, String, Bool, true, false, Option, none, some, List, [], Dict, Decimal, minutes}
use fuji.Mount.Config.{MountConfig}

pub record MountSyncMetadata : Type 0 where
  pub last_modified_by : Option String
  pub version : ℕ

pub record MountConfigWrapper : Type 0 where
  pub config : MountConfig
  pub sync_metadata : Option MountSyncMetadata

pub record ReconnectionConfig : Type 0 where
  pub max_retries : ℕ
  pub initial_delay_ms : ℕ
  pub max_delay_ms : ℕ
  pub backoff_multiplier : Decimal

pub record ResourceLimitsConfig : Type 0 where
  pub max_memory_mb : ℕ
  pub max_cpu_percent : ℕ
  pub max_concurrent_mounts : ℕ
  pub max_file_descriptors : ℕ
  pub max_connections : ℕ
  pub enable_enforcement : Bool
  pub violation_action : String
  pub monitoring_interval_secs : ℕ

pub record GlobalConfig : Type 0 where
  pub health_check_interval_secs : ℕ
  pub log_level : String
  pub auto_mount : Bool
  pub resource_limits : ResourceLimitsConfig

pub record PlatformConfig : Type 0 where
  pub socket_path : Option String
  pub config_dir : Option String
  pub mount_dir : Option String

pub data PeerStatus : Type 0 where
  connected disconnected suspended leaving : PeerStatus

pub record PeerInfo : Type 0 where
  pub id : String
  pub address : String
  pub psk : String
  pub last_seen : ℕ
  pub status : PeerStatus

pub data ConflictType : Type 0 where
  concurrent_modification delete_modify_conflict mount_point_conflict : ConflictType

pub data ConflictResolution : Type 0 where
  used_latest : ConflictResolution
  used_instance : String → ConflictResolution
  requires_manual_intervention : ConflictResolution

pub record SyncConflict : Type 0 where
  pub mount_id : String
  pub conflict_type : ConflictType
  pub conflicting_instances : List String
  pub resolution : ConflictResolution

-- The times and counts are in the order of the source's fields.
pub data ForceSyncResult : Type 0 where
  success : ℕ → ℕ → ℕ → ForceSyncResult
  failed : ℕ → String → ℕ → ForceSyncResult
  in_progress : ℕ → ℕ → ℕ → ForceSyncResult

pub record ForceSyncState : Type 0 where
  pub last_force_sync_at : Option ℕ
  pub sync_in_progress : Bool
  pub last_force_sync_reason : Option String
  pub initiated_by : Option String
  pub attempt_count : ℕ
  pub last_result : Option ForceSyncResult

abbrev pub default_force_sync_state : ForceSyncState
default_force_sync_state = record {
  last_force_sync_at = none;
  sync_in_progress = false;
  last_force_sync_reason = none;
  initiated_by = none;
  attempt_count = 0;
  last_result = none;
}

pub record SyncMetadata : Type 0 where
  pub last_sync_at : Option ℕ
  pub last_modified_by : Option String
  pub sync_version : ℕ
  pub pending_conflicts : List SyncConflict
  pub force_sync_state : ForceSyncState

pub record ClusterConfig : Type 0 where
  pub enabled : Bool
  pub instance_id : String
  pub peers : List PeerInfo
  pub port : ℕ
  pub sync_interval : ℕ
  pub sync_timeout : ℕ
  pub sync_metadata : SyncMetadata

pub record Config : Type 0 where
  pub version : String
  pub mounts : Dict MountConfigWrapper
  pub reconnection : ReconnectionConfig
  pub global : GlobalConfig
  pub platform : PlatformConfig
  pub cluster : Option ClusterConfig

abbrev pub default_resource_limits : ResourceLimitsConfig
default_resource_limits = record {
  max_memory_mb = 1024;
  max_cpu_percent = 80;
  max_concurrent_mounts = 10;
  max_file_descriptors = 1024;
  max_connections = 100;
  enable_enforcement = true;
  violation_action = "throttle";
  monitoring_interval_secs = 30;
}

abbrev pub default_reconnection : ReconnectionConfig
default_reconnection = record {
  max_retries = 5;
  initial_delay_ms = 1000;
  max_delay_ms = 60000;
  backoff_multiplier = record { mantissa = 20; decimals = 1 };
}

abbrev pub default_global : GlobalConfig
default_global = record {
  health_check_interval_secs = 30;
  log_level = "info";
  auto_mount = true;
  resource_limits = default_resource_limits;
}

abbrev pub default_platform : PlatformConfig
default_platform = record { socket_path = none; config_dir = none; mount_dir = none }

abbrev pub default_config : Config
default_config = record {
  version = "1.0";
  mounts = [];
  reconnection = default_reconnection;
  global = default_global;
  platform = default_platform;
  cluster = none;
}

abbrev pub default_cluster_port : ℕ
default_cluster_port = 10080

-- The cluster settings of a new member.
abbrev pub new_cluster : String → ClusterConfig
new_cluster instance_id = record {
  enabled = true;
  instance_id = instance_id;
  peers = [];
  port = 10080;
  sync_interval = minutes 5;
  sync_timeout = minutes 10;
  sync_metadata = record {
    last_sync_at = none;
    last_modified_by = some instance_id;
    sync_version = 0;
    pending_conflicts = [];
    force_sync_state = default_force_sync_state;
  };
}
