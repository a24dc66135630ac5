-- ===== src/Sync/Coordinator/Apply.antt =====
-- `perform_merge` of src/sync/coordinator.rs. The answers of the broadcasts are only logged.
use fuji.Base.{
  ℕ, ◌%◌, ◌^◌, String, Bool, false, Option, none, some, List, [], ◌∷◌, length, get, Result, ok, err,
  if◌then◌else◌,
}
use fuji.Config.{Config, ClusterConfig}
use fuji.Config.Operations.{change_cluster, mark_modified}
use fuji.Config.ForceSync.{ForceSyncError, complete_force_sync}
use fuji.Sync.Merge.Configs.{MergedConfig, default_merger, merge_configs}
use fuji.Sync.Protocol.{success, new_update, new_complete}
use fuji.Sync.Coordinator.{
  PendingSync, SyncCoordinator, merge_failed, force_sync_error, ended, Done, broadcast, ends, stuck,
}

-- The keys of a map, and the identifiers of the instances that are merged.
abbrev pub keys {ℓ} : {V : Type ℓ} → List (String × V) → List String
keys [] = []
keys ((k, v) ∷ m) = k ∷ keys m

abbrev pub with_metadata : MergedConfig → Config
with_metadata merged =
    change_cluster
      (λ (cluster : ClusterConfig). record cluster { sync_metadata = merged.sync_metadata })
      merged.config

abbrev pub syncing : Config → Bool
syncing c = elim c.cluster [
  | some cluster ↦ cluster.sync_metadata.force_sync_state.sync_in_progress
  | none ↦ false
]

-- The configuration that is written, and whether the write lock was left by an error.
unfoldable pub apply_merged :
    ℕ → String → ℕ → MergedConfig → Config × Result ForceSyncError (Unit {0})
unfolding change_cluster complete_force_sync mark_modified
apply_merged now instance_id peers_responded merged =
    let stored = with_metadata merged in
    let completed =
      if syncing stored
      then complete_force_sync now peers_responded (length merged.resolved_conflicts) stored
      else (stored, ok tt) in
    elim completed.1 [
      | ok u ↦ (mark_modified now instance_id completed.0, ok tt)
      | err e ↦ completed
    ]

abbrev pub responses : Option PendingSync → ℕ
responses none = 0
responses (some p) = length p.responded_peers

module _ {Value : Type 0} where
  unfoldable pub publish :
      ℕ → MergedConfig → List (String × Config) → SyncCoordinator → Done Value (Unit {0})
  publish now merged configs s = record {
    state = s;
    sent =
        broadcast (
          new_update now s.config merged.sync_metadata.sync_version s.instance_id
            (keys merged.config.mounts))
        ∷ broadcast (
            new_complete merged.sync_metadata.sync_version s.instance_id success
              (length merged.resolved_conflicts % 2 ^ 32) (keys configs))
        ∷ [];
    spawned = [];
    outcome = ended (ok tt);
  }

  -- The caller may hold the write lock of the pending syncs, whose read lock is asked for here.
  unfoldable pub perform_merge :
      ℕ → String → List (String × Config) → SyncCoordinator → Done Value (Unit {0})
  unfolding merge_configs apply_merged publish
  perform_merge now request_id configs s = elim (merge_configs default_merger now configs) [
    | none ↦ ends s (err merge_failed)
    | some merged ↦
        if s.pending_held
        then stuck s
        else let (config, result) =
            apply_merged now s.instance_id (responses (get request_id s.pending_syncs)) merged in
          let written = record s { config = config } in
          elim result [
            | ok u ↦ publish now merged configs written
            | err e ↦ ends written (err (force_sync_error e))
          ]
  ]
