-- ===== src/Config/ForceSync.antt =====
-- The force sync operations of src/config/mod.rs.
pub mod Runs
use fuji.Base.{ℕ, ◌+◌, ◌%◌, ◌^◌, String, true, false, Option, none, some, length, Result, ok, err}
use fuji.Config.{
  Config, ClusterConfig, ForceSyncState, ForceSyncResult, success, failed, in_progress,
}

pub data ForceSyncError : Type 0 where
  clustering_disabled no_force_sync : ForceSyncError

abbrev pub with_state : ClusterConfig → ForceSyncState → Config → Config
with_state cluster s c = record c {
  cluster =
      some (record cluster {
        sync_metadata = record (cluster.sync_metadata) { force_sync_state = s };
      });
}

unfoldable pub initiate_force_sync :
    ℕ → String → String → Config → Config × Result ForceSyncError (Unit {0})
initiate_force_sync now reason initiated_by c = elim c.cluster [
  | some cluster ↦ (
    with_state cluster
        (record {
          last_force_sync_at = some now;
          sync_in_progress = true;
          last_force_sync_reason = some reason;
          initiated_by = some initiated_by;
          attempt_count = (cluster.sync_metadata.force_sync_state.attempt_count + 1) % 2 ^ 32;
          last_result = some (in_progress now (length cluster.peers) 0);
        })
        c,
    ok tt,
  )
  | none ↦ (c, err clustering_disabled)
]

-- The end of a force sync, with the result to record.
unfoldable pub finish_force_sync :
    ForceSyncResult → Config → Config × Result ForceSyncError (Unit {0})
finish_force_sync result c = elim c.cluster [
  | some cluster ↦
      let s = cluster.sync_metadata.force_sync_state in
      elim s.sync_in_progress [
        | true ↦ (
          with_state cluster (record s { sync_in_progress = false; last_result = some result }) c,
          ok tt,
        )
        | false ↦ (c, err no_force_sync)
      ]
  | none ↦ (c, err clustering_disabled)
]

unfoldable pub complete_force_sync : ℕ → ℕ → ℕ → Config → Config × Result ForceSyncError (Unit {0})
unfolding finish_force_sync
complete_force_sync now peers_synced conflicts_resolved c =
    finish_force_sync (success now peers_synced conflicts_resolved) c

unfoldable pub fail_force_sync : ℕ → String → ℕ → Config → Config × Result ForceSyncError (Unit {0})
unfolding finish_force_sync
fail_force_sync now error peers_attempted c = finish_force_sync (failed now error peers_attempted) c

unfoldable pub get_force_sync_state : Config → Option ForceSyncState
get_force_sync_state c = elim c.cluster [
  | some cluster ↦ some cluster.sync_metadata.force_sync_state
  | none ↦ none
]
