-- ===== src/Sync/Merge/Single.antt =====
-- What `merge_configs` of src/sync/merge.rs makes of one configuration alone.
use fuji.Base.{
  ℕ, ◌≡◌, refl, sym, ◌∙◌, subst, arith, inl, inr, String, true, Option, none, some, List, [], ◌∷◌,
  ◌++◌, Dict, get, insert, get-insert, eq_iff, UniqueKeys, sort_by, AllEntries, insert-AllEntries,
  str_eq, Bool-cases, Option-cases,
}
use mathlib.Core.Bool.{decide}
use fuji.Mount.Config.{MountConfig, MountConfig-discrete, same_config}
use fuji.Config.{Config, MountConfigWrapper}
use fuji.Sync.Merge.{
  ConflictResolutionStrategy, MountVersion, ResolvedMount, resolve_sorted, resolve_mount_conflict,
}
use fuji.Sync.Merge.Configs.{
  ConfigMerger, MergedConfig, Progress, or_empty, push_version, version_of, collect_mounts,
  collect_versions, add_resolved, merge_mounts, merged_metadata, assemble, merge_configs,
}
use fuji.Sync.Merge.Grouping.{own_version, versions_of}
use fuji.Sync.Merge.Versions.{merge_configs-mounts, resolved_config}

same_config_refl : (c : MountConfig) → same_config c c ≡ true
unfolding same_config decide
same_config_refl c = is_yes (MountConfig-discrete c c)
  where
    is_yes : (d : Dec (c ≡ c)) → decide d ≡ true
    is_yes (yes p) = refl
    is_yes (no n) = absurd (n refl)

-- A mount with one version keeps it, without a conflict.
resolve_single :
    (strategy : ConflictResolutionStrategy) (mount_id : String) (v : MountVersion)
    → resolve_mount_conflict strategy mount_id (v ∷ [])
      ≡ some (record { config = v.config; conflict = none })
unfolding resolve_mount_conflict resolve_sorted sort_by
resolve_single strategy mount_id v = ground (arith, same_config_refl v.config.config)

abbrev IsSingle : String → List MountVersion → Type 0
IsSingle k vs = (v : MountVersion) × (vs ≡ v ∷ [])

-- None of these mounts was collected.
abbrev AreFresh : Dict MountConfigWrapper → Dict (List MountVersion) → Type 0
AreFresh ws m = AllEntries (λ k w. get k m ≡ none) ws

insert-AreFresh :
    (k : String) (vs : List MountVersion) (ws : Dict MountConfigWrapper)
    (m : Dict (List MountVersion))
    → get k ws ≡ none
    → AreFresh ws m
    → AreFresh ws (insert k vs m)
unfolding get
insert-AreFresh k vs [] m gone h = tt
insert-AreFresh k vs ((j, w) ∷ ws) m gone h = elim (Bool-cases (str_eq j k)) [
  | inl e ↦ ground (arith, e, gone)
  | inr e ↦ (
    ground (arith, get-insert k j vs m, eq_iff k j, eq_iff j k, h.0),
    insert-AreFresh k vs ws m (ground (arith, gone, e)) h.1,
  )
]

collect_mounts-singles :
    (i : String) (ws : Dict MountConfigWrapper) (m : Dict (List MountVersion))
    → UniqueKeys ws
    → AreFresh ws m
    → AllEntries IsSingle m
    → AllEntries IsSingle (collect_mounts i ws m)
unfolding collect_mounts push_version
collect_mounts-singles i [] m u f h = h
collect_mounts-singles i ((k, w) ∷ ws) m u f h =
    let pushed = or_empty (get k m) ++ version_of i w ∷ [] in
    collect_mounts-singles i ws (insert k pushed m) u.1 (insert-AreFresh k pushed ws m u.0 f.1)
      (insert-AllEntries IsSingle k pushed m (version_of i w, ground (arith, f.0)) h)

no_conflicts :
    (strategy : ConflictResolutionStrategy) (m : Dict (List MountVersion)) (p q : Progress)
    → AllEntries IsSingle m
    → merge_mounts strategy m p ≡ some q
    → q.conflicts ≡ p.conflicts
unfolding merge_mounts add_resolved
no_conflicts strategy [] p q h e = ground (arith, e)
no_conflicts strategy ((k, vs) ∷ m) p q h e =
    let ((v, single), rest) = h in
    let r : ResolvedMount = record { config = v.config; conflict = none } in
    let resolved : resolve_mount_conflict strategy k vs ≡ some r =
      subst (λ us. resolve_mount_conflict strategy k us ≡ some r) (sym single)
        (resolve_single strategy k v) in
    no_conflicts strategy m (add_resolved k r p) q rest (rw (resolved, merge_mounts) at e)

singles_of :
    (i : String) (c : Config)
    → UniqueKeys c.mounts
    → AllEntries IsSingle (collect_versions ((i, c) ∷ []) [])
unfolding collect_versions get
singles_of i c u = collect_mounts-singles i c.mounts [] u (all_fresh c.mounts) tt
  where
    all_fresh : (ws : Dict MountConfigWrapper) → AreFresh ws []
    all_fresh [] = tt
    all_fresh ((k, w) ∷ ws) = (refl, all_fresh ws)

own_mount :
    (strategy : ConflictResolutionStrategy) (j i : String) (o : Option MountConfigWrapper)
    → resolved_config (resolve_mount_conflict strategy j (own_version i o ++ [])) ≡ o
unfolding resolve_mount_conflict sort_by
own_mount strategy j i none = refl
own_mount strategy j i (some w) = rw (resolve_single strategy j (version_of i w)) refl

-- A configuration that is merged alone keeps its mounts, and no conflict is found.
pub merge_configs-single :
    (merger : ConfigMerger) (now : ℕ) (i : String) (c : Config)
    → UniqueKeys c.mounts
    → (r : MergedConfig) × (merge_configs merger now ((i, c) ∷ []) ≡ some r)
      × ((mount_id : String) → get mount_id r.config.mounts ≡ get mount_id c.mounts)
      × (r.sync_metadata.pending_conflicts ≡ [])
unfolding merge_configs assemble merged_metadata versions_of
merge_configs-single merger now i c u =
    let (r, returns, at) = merge_configs-mounts merger now ((i, c) ∷ []) (u, tt) in
    let groups = collect_versions ((i, c) ∷ []) [] in
    let start : Progress = record { mounts = []; conflicts = []; resolved_conflicts = [] } in
    let strategy = merger.conflict_strategy in
    (
      r,
      returns,
      λ mount_id. at mount_id ∙ own_mount strategy mount_id i (get mount_id c.mounts),
      elim (Option-cases (merge_mounts strategy groups start)) [
        | inl e ↦ ground (arith, returns, e)
        | inr (p, e) ↦
            let q : r ≡ assemble merger now ((i, c) ∷ []) p = ground (arith, returns, e) in
            rw q (no_conflicts strategy groups start p (singles_of i c u) e)
      ],
    )
