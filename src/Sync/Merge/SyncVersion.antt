-- ===== src/Sync/Merge/SyncVersion.antt =====
-- The version numbers and the local settings in what `merge_configs` of src/sync/merge.rs returns.
use fuji.Base.{
  ℕ, ◌+◌, ◌-◌, ◌%◌, ◌^◌, ◌≤◌, ◌<◌, ◌≡◌, refl, sym, ap, subst, inl, inr, String, Option, none, some,
  List, [], ◌∷◌, Memᴰ, arith, ltb, Option-cases, if◌then◌else◌,
}
use fuji.Config.{Config, ClusterConfig, SyncMetadata, default_platform, default_force_sync_state}
use fuji.Sync.Merge.Configs.{
  ConfigMerger, MergedConfig, Progress, sync_version_of, latest_sync_version, latest_synced,
  cluster_of, set_timing, merge_mounts, collect_versions, merge_global_settings, merged_metadata,
  assemble, merge_configs,
}

-- The loop never goes down, and ends at least at every version.
latest-ge : (n : ℕ) (xs : List (String × Config)) → n ≤ latest_sync_version n xs
unfolding latest_sync_version
latest-ge n [] = omega arith
latest-ge n ((i, c) ∷ xs) =
    ground (arith, latest-ge (if ltb n (sync_version_of c) then sync_version_of c else n) xs)

latest-ge_member :
    (n : ℕ) (xs : List (String × Config)) (x : String × Config)
    → Memᴰ x xs
    → sync_version_of (x.1) ≤ latest_sync_version n xs
unfolding latest_sync_version
latest-ge_member n [] x m = elim m [ ]
latest-ge_member n ((i, c) ∷ xs) x (Memᴰ.head e) =
    subst (λ (d : Config). sync_version_of d ≤ latest_sync_version n ((i, c) ∷ xs))
      (sym (ap (λ (y : String × Config). y.1) e))
      (ground (arith, latest-ge (if ltb n (sync_version_of c) then sync_version_of c else n) xs))
latest-ge_member n ((i, c) ∷ xs) x (Memᴰ.tail m) =
    latest-ge_member (if ltb n (sync_version_of c) then sync_version_of c else n) xs x m

-- It ends below any bound of the versions.
latest_bounded :
    (b n : ℕ) (xs : List (String × Config))
    → n ≤ b
    → ((x : String × Config) → Memᴰ x xs → sync_version_of (x.1) ≤ b)
    → latest_sync_version n xs ≤ b
unfolding latest_sync_version
latest_bounded b n [] h k = h
latest_bounded b n ((i, c) ∷ xs) h k =
    latest_bounded b (if ltb n (sync_version_of c) then sync_version_of c else n) xs
      (ground (arith, k (i, c) (Memᴰ.head refl))) (λ x m. k x (Memᴰ.tail m))

set_timing-keeps :
    (o : Option ClusterConfig) (c : ClusterConfig)
    → ((set_timing o c).sync_metadata ≡ c.sync_metadata) × ((set_timing o c).peers ≡ c.peers)
set_timing-keeps none c = (refl, refl)
set_timing-keeps (some d) c = (refl, refl)

platform-global :
    (c : Config) (xs : List (String × Config)) → (merge_global_settings c xs).platform ≡ c.platform
unfolding merge_global_settings
platform-global c xs = ground arith

-- A merge that returns went through `assemble`.
assembled :
    (merger : ConfigMerger) (now : ℕ) (xs : List (String × Config)) (r : MergedConfig)
    → merge_configs merger now xs ≡ some r
    → (p : Progress) × (r ≡ assemble merger now xs p)
unfolding merge_configs
assembled merger now xs r h =
    elim (Option-cases (
      merge_mounts merger.conflict_strategy (collect_versions xs [])
        (record { mounts = []; conflicts = []; resolved_conflicts = [] }))) [
          | inl e ↦ ground (arith, h, e)
          | inr (p, e) ↦ (p, ground (arith, h, e))
        ]

version-assemble :
    (merger : ConfigMerger) (now : ℕ) (xs : List (String × Config)) (p : Progress)
    → sync_version_of (assemble merger now xs p).config ≡ (latest_sync_version 0 xs + 1) % 2 ^ 64
unfolding assemble merged_metadata
version-assemble merger now xs p =
    ap (λ (m : SyncMetadata). m.sync_version)
      (set_timing-keeps (cluster_of (latest_synced 0 none xs)) _).0

-- If no sync version is within two of the largest `u64`, the merged cluster settings have a
-- greater sync version than every configuration that was merged, and the metadata returned
-- beside them has the version after that.
pub sync_version-merge_configs :
    (merger : ConfigMerger) (now : ℕ) (xs : List (String × Config)) (r : MergedConfig)
    → ((x : String × Config) → Memᴰ x xs → sync_version_of (x.1) ≤ 2 ^ 64 - 3)
    → merge_configs merger now xs ≡ some r
    → (x : String × Config) → Memᴰ x xs
    → (sync_version_of (x.1) < sync_version_of r.config)
      × (r.sync_metadata.sync_version ≡ sync_version_of r.config + 1)
unfolding assemble merged_metadata
sync_version-merge_configs merger now xs r bound h x m =
    let (p, e) = assembled merger now xs r h in
    let low : latest_sync_version 0 xs ≤ 2 ^ 64 - 3 =
      latest_bounded (2 ^ 64 - 3) 0 xs (omega arith) bound in
    let v = version-assemble merger now xs p in
    rw e (rw v (omega (arith, low, latest-ge_member 0 xs x m)), rw v (omega (arith, low)))

-- A merge keeps neither the platform settings nor the peers nor the force sync state of any
-- configuration: each has its default in the result, the force
-- sync state both in the cluster settings and in the metadata beside them.
pub merge_configs-forgets :
    (merger : ConfigMerger) (now : ℕ) (xs : List (String × Config)) (r : MergedConfig)
    → merge_configs merger now xs ≡ some r
    → (cluster : ClusterConfig) × (r.config.cluster ≡ some cluster)
      × (cluster.peers ≡ [])
      × (r.config.platform ≡ default_platform)
      × (cluster.sync_metadata.force_sync_state ≡ default_force_sync_state)
      × (r.sync_metadata.force_sync_state ≡ default_force_sync_state)
unfolding assemble merged_metadata
merge_configs-forgets merger now xs r h =
    let (p, e) = assembled merger now xs r h in
    rw e (
      _,
      refl,
      (set_timing-keeps (cluster_of (latest_synced 0 none xs)) _).1,
      platform-global _ xs,
      ap (λ (m : SyncMetadata). m.force_sync_state)
          (set_timing-keeps (cluster_of (latest_synced 0 none xs)) _).0,
      refl,
    )
