-- ===== src/Sync/Coordinator/Forgets.antt =====
-- What src/sync/coordinator.rs writes once src/sync/merge.rs has merged.
use fuji.Base.{ℕ, String, some, List, [], ◌≡◌, arith, ok}
use fuji.Config.{Config, default_force_sync_state, default_platform}
use fuji.Config.Operations.{change_cluster, bump_version, mark_modified}
use fuji.Config.Operations.Peers.{peers_of}
use fuji.Config.ForceSync.{get_force_sync_state}
use fuji.Sync.Merge.Configs.{ConfigMerger, MergedConfig, merge_configs}
use fuji.Sync.Merge.SyncVersion.{merge_configs-forgets}
use fuji.Sync.Coordinator.Apply.{apply_merged}

-- Whatever is merged, also by an instance with a force sync in progress, the configuration that is
-- then written has no peers, the default platform settings and the default force sync state: the
-- force sync is neither completed nor failed, and there is no record of it any more. The write
-- itself ends well.
pub merged-forgets :
    (merger : ConfigMerger) (now later : ℕ) (instance_id : String) (responded : ℕ)
    (xs : List (String × Config)) (r : MergedConfig)
    → merge_configs merger now xs ≡ some r
    → let (written, result) = apply_merged later instance_id responded r in
      (result ≡ ok tt)
      × (peers_of written ≡ [])
      × (written.platform ≡ default_platform)
      × (get_force_sync_state written ≡ some default_force_sync_state)
unfolding apply_merged change_cluster mark_modified bump_version peers_of get_force_sync_state
merged-forgets merger now later instance_id responded xs r h =
    let (cluster, e, peers, platform, inner, state) = merge_configs-forgets merger now xs r h in
    (
      ground (arith, e, state),
      ground (arith, e, state, peers),
      ground (arith, e, state, platform),
      ground (arith, e, state),
    )
