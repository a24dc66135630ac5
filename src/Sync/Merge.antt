-- ===== src/Sync/Merge.antt =====
-- src/sync/merge.rs: the choice between the versions of one mount. An index into an empty vector,
-- which would panic, is `none`.
pub mod Configs
pub mod Single
pub mod Winner
pub mod SyncVersion
pub mod Origins
pub mod Marked
pub mod Convergence
pub mod Grouping
pub mod Versions
pub mod Conflicts
pub mod TieBreak
use fuji.Base.{
  ℕ, String, Bool, true, false, ◌&&◌, not, Option, none, some, List, [], ◌∷◌, map, leb, ◌==◌,
  str_eq, str_leb, any, find, filter, sort_by, if◌then◌else◌,
}
use fuji.Mount.Config.{same_config}
use fuji.Config.{
  MountConfigWrapper, SyncConflict, ConflictResolution, concurrent_modification, used_latest,
  used_instance, requires_manual_intervention,
}

pub data ConflictResolutionStrategy : Type 0 where
  latest_wins : ConflictResolutionStrategy
  prefer_instance : String → ConflictResolutionStrategy
  manual : ConflictResolutionStrategy
  instance_id_tie_break : ConflictResolutionStrategy

pub record MountVersion : Type 0 where
  pub instance_id : String
  pub config : MountConfigWrapper
  pub updated_at : ℕ

pub record ResolvedMount : Type 0 where
  pub config : MountConfigWrapper
  pub conflict : Option SyncConflict

-- The order of `sort_by(|a, b| b.updated_at.cmp(&a.updated_at))`: the newest first.
abbrev pub newer : MountVersion → MountVersion → Bool
newer a b = leb b.updated_at a.updated_at

-- The order of `sort_by(|a, b| a.instance_id.cmp(&b.instance_id))`.
abbrev pub earlier_id : MountVersion → MountVersion → Bool
earlier_id a b = str_leb a.instance_id b.instance_id

-- A version with the conflict reported among the instances.
unfoldable pub report :
    String → MountVersion → List MountVersion → ConflictResolution → ResolvedMount
report mount_id v among resolution = record {
  config = v.config;
  conflict = some (record {
    mount_id = mount_id;
    conflict_type = concurrent_modification;
    conflicting_instances = map (λ (w : MountVersion). w.instance_id) among;
    resolution = resolution;
  });
}

unfoldable pub prefer :
    String → String → MountVersion → List MountVersion → Option MountVersion → ResolvedMount
unfolding report
prefer mount_id prefer_id latest same (some preferred) =
    report mount_id preferred same (used_instance prefer_id)
prefer mount_id prefer_id latest same none = report mount_id latest same used_latest

unfoldable pub tie_break : String → MountVersion → List MountVersion → ResolvedMount
unfolding report
tie_break mount_id latest [] = record { config = latest.config; conflict = none }
tie_break mount_id latest (selected ∷ rest) =
    report mount_id selected (selected ∷ rest) (used_instance selected.instance_id)

-- The arms of the `match` on the strategy, for the versions of the latest time.
unfoldable pub resolve_tie :
    ConflictResolutionStrategy → String → MountVersion → List MountVersion → ResolvedMount
unfolding report prefer tie_break
resolve_tie latest_wins mount_id latest same = report mount_id latest same used_latest
resolve_tie (prefer_instance prefer_id) mount_id latest same =
    prefer mount_id prefer_id latest same (find (λ v. str_eq v.instance_id prefer_id) same)
resolve_tie manual mount_id latest same = report mount_id latest same requires_manual_intervention
resolve_tie instance_id_tie_break mount_id latest same =
    tie_break mount_id latest (sort_by earlier_id same)

abbrev pub same_time : MountVersion → MountVersion → Bool
same_time latest v = v.updated_at == latest.updated_at

abbrev pub is_empty : List MountVersion → Bool
is_empty [] = true
is_empty (v ∷ vs) = false

-- `v.config.config != latest.config.config`
abbrev pub differs : MountVersion → MountVersion → Bool
differs latest v = not (same_config v.config.config latest.config.config)

abbrev pub has_real_conflicts : MountVersion → List MountVersion → Bool
has_real_conflicts latest same = any (differs latest) same

unfoldable pub resolve_sorted :
    ConflictResolutionStrategy → String → List MountVersion → Option ResolvedMount
resolve_sorted strategy mount_id [] = none
resolve_sorted strategy mount_id (latest ∷ rest) =
    let same = filter (same_time latest) (latest ∷ rest) in
    if has_real_conflicts latest same && not (is_empty same)
    then some (resolve_tie strategy mount_id latest same)
    else some (record { config = latest.config; conflict = none })

unfoldable pub resolve_mount_conflict :
    ConflictResolutionStrategy → String → List MountVersion → Option ResolvedMount
unfolding resolve_sorted
resolve_mount_conflict strategy mount_id versions =
    resolve_sorted strategy mount_id (sort_by newer versions)
