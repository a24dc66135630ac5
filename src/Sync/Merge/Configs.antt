-- ===== src/Sync/Merge/Configs.antt =====
-- `merge_configs` of src/sync/merge.rs. The hash maps are visited in the order of insertion, which
-- decides only the order in which conflicts are listed.
use fuji.Base.{
  ℕ, ◌+◌, ◌%◌, ◌^◌, String, true, Option, none, some, List, [], ◌∷◌, ◌++◌, ltb, if◌then◌else◌, Dict,
  get, insert, timestamp_millis, minutes,
}
use fuji.Config.{
  Config, ClusterConfig, SyncMetadata, SyncConflict, ConflictResolution, MountConfigWrapper,
  default_config, default_force_sync_state,
}
use fuji.Sync.Merge.{
  ConflictResolutionStrategy, instance_id_tie_break, MountVersion, ResolvedMount,
  resolve_mount_conflict,
}

pub record ConfigMerger : Type 0 where
  pub instance_id : String
  pub conflict_strategy : ConflictResolutionStrategy

abbrev pub default_merger : ConfigMerger
default_merger = record { instance_id = "unknown"; conflict_strategy = instance_id_tie_break }

abbrev pub with_instance_id : String → ConfigMerger
with_instance_id instance_id = record default_merger { instance_id = instance_id }

pub record MergedConfig : Type 0 where
  pub config : Config
  pub sync_metadata : SyncMetadata
  pub resolved_conflicts : List ConflictResolution

-- The sync version of a configuration, `map_or(0, ..)`.
abbrev pub sync_version_of : Config → ℕ
sync_version_of c = elim c.cluster [ some cluster ↦ cluster.sync_metadata.sync_version | none ↦ 0 ]

-- The loop that finds the largest sync version.
unfoldable pub latest_sync_version : ℕ → List (String × Config) → ℕ
latest_sync_version latest [] = latest
latest_sync_version latest ((id, c) ∷ rest) =
    latest_sync_version (if ltb latest (sync_version_of c) then sync_version_of c else latest) rest

abbrev pub or_empty : Option (List MountVersion) → List MountVersion
or_empty (some vs) = vs
or_empty none = []

-- `mount_versions.entry(mount_id).or_default().push(v)`
unfoldable pub push_version :
    String → MountVersion → Dict (List MountVersion) → Dict (List MountVersion)
push_version mount_id v m = insert mount_id (or_empty (get mount_id m) ++ v ∷ []) m

abbrev pub version_of : String → MountConfigWrapper → MountVersion
version_of instance_id wrapper = record {
  instance_id = instance_id;
  config = wrapper;
  updated_at = wrapper.config.updated_at;
}

unfoldable pub collect_mounts :
    String → Dict MountConfigWrapper → Dict (List MountVersion) → Dict (List MountVersion)
unfolding push_version
collect_mounts instance_id [] m = m
collect_mounts instance_id ((mount_id, wrapper) ∷ rest) m =
    collect_mounts instance_id rest (push_version mount_id (version_of instance_id wrapper) m)

unfoldable pub collect_versions :
    List (String × Config) → Dict (List MountVersion) → Dict (List MountVersion)
unfolding collect_mounts
collect_versions [] m = m
collect_versions ((instance_id, c) ∷ rest) m =
    collect_versions rest (collect_mounts instance_id c.mounts m)

-- What the loop over the mounts has built.
pub record Progress : Type 0 where
  pub mounts : Dict MountConfigWrapper
  pub conflicts : List SyncConflict
  pub resolved_conflicts : List ConflictResolution

unfoldable pub add_resolved : String → ResolvedMount → Progress → Progress
add_resolved mount_id r p = elim r.conflict [
  | some conflict ↦ record {
    mounts = insert mount_id r.config p.mounts;
    conflicts = p.conflicts ++ conflict ∷ [];
    resolved_conflicts = p.resolved_conflicts ++ conflict.resolution ∷ [];
  }
  | none ↦ record p { mounts = insert mount_id r.config p.mounts }
]

unfoldable pub merge_mounts :
    ConflictResolutionStrategy → Dict (List MountVersion) → Progress → Option Progress
unfolding add_resolved
merge_mounts strategy [] p = some p
merge_mounts strategy ((mount_id, versions) ∷ rest) p =
    elim (resolve_mount_conflict strategy mount_id versions) [
      | some r ↦ merge_mounts strategy rest (add_resolved mount_id r p)
      | none ↦ none
    ]

-- The time of the last sync of a configuration, in milliseconds.
abbrev pub last_sync_millis : Config → Option ℕ
last_sync_millis c = elim c.cluster [
  | some cluster ↦ elim cluster.sync_metadata.last_sync_at [
    | some t ↦ some (timestamp_millis t)
    | none ↦ none
  ]
  | none ↦ none
]

-- A loop that keeps the configuration whose last sync is the latest, and the first of those.
unfoldable pub latest_synced : ℕ → Option Config → List (String × Config) → Option Config
latest_synced time kept [] = kept
latest_synced time kept ((id, c) ∷ rest) = elim (last_sync_millis c) [
  | some t ↦
      latest_synced (if ltb time t then t else time) (if ltb time t then some c else kept) rest
  | none ↦ latest_synced time kept rest
]

-- Both loops of `merge_global_settings` keep the same configuration.
unfoldable pub merge_global_settings : Config → List (String × Config) → Config
unfolding latest_synced
merge_global_settings merged instances = elim (latest_synced 0 none instances) [
  | some c ↦ record merged { reconnection = c.reconnection; global = c.global }
  | none ↦ merged
]

abbrev pub set_timing : Option ClusterConfig → ClusterConfig → ClusterConfig
set_timing none cluster = cluster
set_timing (some c) cluster = record cluster {
  sync_interval = c.sync_interval;
  sync_timeout = c.sync_timeout;
  port = c.port;
}

abbrev pub cluster_of : Option Config → Option ClusterConfig
cluster_of none = none
cluster_of (some c) = c.cluster

unfoldable pub merged_metadata : ℕ → String → ℕ → List SyncConflict → SyncMetadata
merged_metadata now instance_id version conflicts = record {
  last_sync_at = some now;
  last_modified_by = some instance_id;
  sync_version = version;
  pending_conflicts = conflicts;
  force_sync_state = default_force_sync_state;
}

-- What is done once the mounts are merged.
unfoldable pub assemble : ConfigMerger → ℕ → List (String × Config) → Progress → MergedConfig
unfolding latest_sync_version merge_global_settings merged_metadata
assemble merger now instances p =
    let version = (latest_sync_version 0 instances + 1) % 2 ^ 64 in
    let base : Config =
      merge_global_settings (record default_config { mounts = p.mounts }) instances in
    let cluster : ClusterConfig = record {
      enabled = true;
      instance_id = merger.instance_id;
      peers = [];
      port = 10080;
      sync_interval = minutes 5;
      sync_timeout = minutes 10;
      sync_metadata = merged_metadata now merger.instance_id version p.conflicts;
    } in
    record {
      config = record base {
        cluster = some (set_timing (cluster_of (latest_synced 0 none instances)) cluster);
      };
      sync_metadata = merged_metadata now merger.instance_id ((version + 1) % 2 ^ 64) p.conflicts;
      resolved_conflicts = p.resolved_conflicts;
    }

unfoldable pub merge_configs : ConfigMerger → ℕ → List (String × Config) → Option MergedConfig
unfolding collect_versions merge_mounts assemble
merge_configs merger now instances =
    elim (merge_mounts merger.conflict_strategy (collect_versions instances [])
      (record { mounts = []; conflicts = []; resolved_conflicts = [] })) [
        | some p ↦ some (assemble merger now instances p)
        | none ↦ none
      ]
