-- ===== src/Tests/Merge.antt =====
-- Merges of the configurations of two instances by src/sync/merge.rs.
use fuji.Base.{
  ◌+◌, ◌-◌, ◌^◌, ◌≤◌, ◌<◌, ◌≡◌, refl, sym, ap, subst, ◌∙◌, ◌↔◌, ◌≢◌, String, true, false, none,
  some, Result, ok, List, [], ◌∷◌, Memᴰ, arith, get, eq_iff, str_eq, sort_by,
}
use mathlib.Core.Bool.{false≢true}
use fuji.Mount.Config.{nfs, active}
use fuji.Config.{
  Config, MountConfigWrapper, default_config, default_platform, default_force_sync_state,
  new_cluster,
}
use fuji.Config.Operations.{get_mount}
use fuji.Sync.Merge.{
  MountVersion, ResolvedMount, instance_id_tie_break, resolve_tie, resolve_mount_conflict,
}
use fuji.Sync.Merge.Configs.{
  MergedConfig, with_instance_id, version_of, sync_version_of, merge_configs,
}
use fuji.Sync.Merge.Winner.{AtMost, resolve-newest}
use fuji.Sync.Merge.Conflicts.{IsNewest, resolve-conflict_iff}
use fuji.Sync.Merge.TieBreak.{OneEach, resolve-order_independent}
use fuji.Sync.Merge.Grouping.{AreMaps, versions_of}
use fuji.Sync.Merge.Versions.{resolved_config, resolve_total, merge_configs-mounts}
use fuji.Sync.Merge.Convergence.{SameInstances, OneConfigEach, merge_configs_converge}
use fuji.Sync.Merge.SyncVersion.{sync_version-merge_configs}
use fuji.Sync.Coordinator.Apply.{apply_merged}
use fuji.Sync.Coordinator.Forgets.{merged-forgets}
use fuji.Config.Operations.Peers.{peers_of}
use fuji.Config.ForceSync.{ForceSyncError, get_force_sync_state}

-- The same mount, edited at the same time on two instances.
abbrev pub share : String → MountConfigWrapper
share point = record {
  config = record {
    id = "m";
    url = "nfs://nas/share";
    mount_point = point;
    mount_type = nfs "nas" "/share" [];
    enabled = true;
    status = active;
    created_at = 1;
    updated_at = 5;
    last_connected = none;
    reconnect_attempts = 0;
    metadata = [];
  };
  sync_metadata = none;
}

abbrev pub config_of : String → String → Config
config_of instance_id point = record default_config {
  mounts = ("m", share point) ∷ [];
  cluster = some (new_cluster instance_id);
}

abbrev first : String × Config
first = ("a", config_of "a" "/mnt/a")

abbrev second : String × Config
second = ("b", config_of "b" "/mnt/b")

abbrev there : List (String × Config)
there = first ∷ second ∷ []

abbrev back : List (String × Config)
back = second ∷ first ∷ []

there-AreMaps : AreMaps there
unfolding get
there-AreMaps = ((refl, tt), ((refl, tt), tt))

back-AreMaps : AreMaps back
unfolding get
back-AreMaps = ((refl, tt), ((refl, tt), tt))

swap_pair : {A : Type 0} {u v : A} (x : A) → Memᴰ x (u ∷ v ∷ []) → Memᴰ x (v ∷ u ∷ [])
swap_pair x (Memᴰ.head e) = Memᴰ.tail (Memᴰ.head e)
swap_pair x (Memᴰ.tail (Memᴰ.head e)) = Memᴰ.head e
swap_pair x (Memᴰ.tail (Memᴰ.tail m)) = elim m [ ]

same_instances : SameInstances there back
same_instances = record { there = swap_pair; back = swap_pair }

abbrev a : String
a = "a"

abbrev b : String
b = "b"

a_is_not_b : a ≢ b
a_is_not_b e = false≢true (sym distinct ∙ (eq_iff a b).1 e)
  where
    distinct : str_eq a b ≡ false
    distinct = refl

one_config_each : OneConfigEach there
one_config_each x y (Memᴰ.head e) (Memᴰ.head f) h = e ∙ sym f
one_config_each x y (Memᴰ.head e) (Memᴰ.tail (Memᴰ.head f)) h = absurd (
    a_is_not_b
      (sym (ap (λ (p : String × Config). p.0) e) ∙ h ∙ ap (λ (p : String × Config). p.0) f))
one_config_each x y (Memᴰ.tail (Memᴰ.head e)) (Memᴰ.head f) h = absurd (
    a_is_not_b
      (sym (ap (λ (p : String × Config). p.0) f) ∙ sym h ∙ ap (λ (p : String × Config). p.0) e))
one_config_each x y (Memᴰ.tail (Memᴰ.head e)) (Memᴰ.tail (Memᴰ.head f)) h = e ∙ sym f
one_config_each x y (Memᴰ.head e) (Memᴰ.tail (Memᴰ.tail n)) h = elim n [ ]
one_config_each x y (Memᴰ.tail (Memᴰ.head e)) (Memᴰ.tail (Memᴰ.tail n)) h = elim n [ ]
one_config_each x y (Memᴰ.tail (Memᴰ.tail m)) n h = elim m [ ]

merge_configs-mounts_example :
    (r : MergedConfig) × (merge_configs (with_instance_id "a") 9 there ≡ some r)
    × ((mount_id : String)
        → get mount_id r.config.mounts
          ≡ resolved_config (
              resolve_mount_conflict
                (with_instance_id "a").conflict_strategy
                mount_id
                (versions_of mount_id there)))
merge_configs-mounts_example = merge_configs-mounts (with_instance_id "a") 9 there there-AreMaps

abbrev on_a : MergedConfig
on_a = merge_configs-mounts_example.0

on_a_returns : merge_configs (with_instance_id "a") 9 there ≡ some on_a
on_a_returns = merge_configs-mounts_example.1

merged_on_b :
    (r : MergedConfig) × (merge_configs (with_instance_id "b") 12 back ≡ some r)
    × ((mount_id : String)
        → get mount_id r.config.mounts
          ≡ resolved_config (
              resolve_mount_conflict
                (with_instance_id "b").conflict_strategy
                mount_id
                (versions_of mount_id back)))
merged_on_b = merge_configs-mounts (with_instance_id "b") 12 back back-AreMaps

merge_configs_converge_example : get_mount "m" on_a.config ≡ get_mount "m" merged_on_b.0.config
merge_configs_converge_example =
    merge_configs_converge (with_instance_id "a") (with_instance_id "b") 9 12 there back on_a
      merged_on_b.0 refl refl there-AreMaps back-AreMaps same_instances one_config_each on_a_returns
      merged_on_b.1 "m"

abbrev versions : List MountVersion
versions = version_of "a" (share "/mnt/a") ∷ version_of "b" (share "/mnt/b") ∷ []

abbrev swapped : List MountVersion
swapped = version_of "b" (share "/mnt/b") ∷ version_of "a" (share "/mnt/a") ∷ []

tie : (r : ResolvedMount) × (resolve_mount_conflict instance_id_tie_break "m" versions ≡ some r)
tie = resolve_total instance_id_tie_break "m" versions tt

swapped_tie :
    (r : ResolvedMount) × (resolve_mount_conflict instance_id_tie_break "m" swapped ≡ some r)
swapped_tie = resolve_total instance_id_tie_break "m" swapped tt

-- The instance with the smaller identifier wins, also as the second of the list.
a_wins :
    (resolve_tie instance_id_tie_break "m"
      (version_of "b" (share "/mnt/b"))
      swapped).config.config.mount_point
    ≡ "/mnt/a"
unfolding resolve_tie sort_by
a_wins = refl

one_each : OneEach versions
one_each x y (Memᴰ.head e) (Memᴰ.head f) h = e ∙ sym f
one_each x y (Memᴰ.head e) (Memᴰ.tail (Memᴰ.head f)) h = absurd (
    a_is_not_b (
      sym (ap (λ (v : MountVersion). v.instance_id) e)
      ∙ h
      ∙ ap (λ (v : MountVersion). v.instance_id) f))
one_each x y (Memᴰ.tail (Memᴰ.head e)) (Memᴰ.head f) h = absurd (
    a_is_not_b (
      sym (ap (λ (v : MountVersion). v.instance_id) f)
      ∙ sym h
      ∙ ap (λ (v : MountVersion). v.instance_id) e))
one_each x y (Memᴰ.tail (Memᴰ.head e)) (Memᴰ.tail (Memᴰ.head f)) h = e ∙ sym f
one_each x y (Memᴰ.head e) (Memᴰ.tail (Memᴰ.tail n)) h = elim n [ ]
one_each x y (Memᴰ.tail (Memᴰ.head e)) (Memᴰ.tail (Memᴰ.tail n)) h = elim n [ ]
one_each x y (Memᴰ.tail (Memᴰ.tail m)) n h = elim m [ ]

resolve-order_independent_example : tie.0.config.config ≡ swapped_tie.0.config.config
resolve-order_independent_example =
    resolve-order_independent "m" versions swapped tie.0 swapped_tie.0 one_each swap_pair swap_pair
      tie.1 swapped_tie.1

resolve-newest_example :
    (v : MountVersion) × Memᴰ v versions × (tie.0.config ≡ v.config) × AtMost v.updated_at versions
resolve-newest_example = resolve-newest instance_id_tie_break "m" versions tie.0 tie.1

resolve-conflict_iff_example : (tie.0.conflict ≢ none) ↔ (
    (v : MountVersion) × (w : MountVersion) × IsNewest versions v
    × IsNewest versions w
    × (v.config.config ≢ w.config.config))
resolve-conflict_iff_example = resolve-conflict_iff instance_id_tie_break "m" versions tie.0 tie.1

small_versions : (x : String × Config) → Memᴰ x there → sync_version_of (x.1) ≤ 2 ^ 64 - 3
small_versions x (Memᴰ.head e) =
    subst (λ (y : String × Config). sync_version_of (y.1) ≤ 2 ^ 64 - 3) (sym e) (omega arith)
small_versions x (Memᴰ.tail (Memᴰ.head e)) =
    subst (λ (y : String × Config). sync_version_of (y.1) ≤ 2 ^ 64 - 3) (sym e) (omega arith)
small_versions x (Memᴰ.tail (Memᴰ.tail m)) = elim m [ ]

sync_version-merge_configs_example :
    (sync_version_of (first.1) < sync_version_of on_a.config)
    × (on_a.sync_metadata.sync_version ≡ sync_version_of on_a.config + 1)
sync_version-merge_configs_example =
    sync_version-merge_configs (with_instance_id "a") 9 there on_a small_versions on_a_returns first
      (Memᴰ.head refl)

abbrev after_merge : Config × Result ForceSyncError (Unit {0})
after_merge = apply_merged 11 "a" 1 on_a

merged-forgets_example :
    (after_merge.1 ≡ ok tt)
    × (peers_of after_merge.0 ≡ [])
    × (after_merge.0.platform ≡ default_platform)
    × (get_force_sync_state after_merge.0 ≡ some default_force_sync_state)
merged-forgets_example = merged-forgets (with_instance_id "a") 9 11 "a" 1 there on_a on_a_returns
