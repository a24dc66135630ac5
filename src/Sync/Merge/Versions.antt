-- ===== src/Sync/Merge/Versions.antt =====
-- What `merge_configs` of src/sync/merge.rs makes of the mounts of the instances.
use fuji.Base.{
  ℕ, ◌≡◌, refl, subst, ◌∙◌, inl, inr, String, Bool, true, false, ◌&&◌, not, Option, none, some,
  List, [], ◌∷◌, arith, Dict, get, insert, get-insert, eq_iff, if◌then◌else◌, str_eq, Bool-cases,
  Memᴰ, sort_by, mem-sort_by,
}
use fuji.Config.{Config, MountConfigWrapper}
use fuji.Sync.Merge.{
  ConflictResolutionStrategy, MountVersion, ResolvedMount, resolve_mount_conflict, resolve_sorted,
  newer, has_real_conflicts, is_empty,
}
use fuji.Sync.Merge.Configs.{
  ConfigMerger, MergedConfig, or_empty, collect_versions, Progress, add_resolved, merge_mounts,
  merge_global_settings, assemble, merge_configs,
}
use fuji.Sync.Merge.Grouping.{
  versions_of, AreMaps, NonEmpty, IsGrouping, collect_versions_lem, collect_versions-IsGrouping,
}

some_of_if {ℓ} :
    {A : Type ℓ} (b : Bool) (x y : A) → (r : A) × ((if b then some x else some y) ≡ some r)
some_of_if true x y = (x, refl)
some_of_if false x y = (y, refl)

-- A mount with a version is resolved.
pub resolve_total :
    (strategy : ConflictResolutionStrategy) (mount_id : String) (vs : List MountVersion)
    → NonEmpty vs
    → (r : ResolvedMount) × (resolve_mount_conflict strategy mount_id vs ≡ some r)
unfolding resolve_mount_conflict
resolve_total strategy mount_id [] n = absurd n
resolve_total strategy mount_id (v ∷ vs) n =
    sorted (sort_by newer (v ∷ vs)) (mem-sort_by newer v (v ∷ vs) (Memᴰ.head refl))
  where
    sorted :
        (l : List MountVersion)
        → Memᴰ v l
        → (r : ResolvedMount) × (resolve_sorted strategy mount_id l ≡ some r)
    sorted [] m = elim m [ ]
    sorted (latest ∷ rest) m = some_of_if (has_real_conflicts latest _ && not (is_empty _)) _ _

abbrev pub resolved_config : Option ResolvedMount → Option MountConfigWrapper
resolved_config none = none
resolved_config (some r) = some r.config

-- What the loop over the mounts leaves at a key.
abbrev pub resolved_at :
    ConflictResolutionStrategy
    → String
    → Option (List MountVersion)
    → Option MountConfigWrapper
    → Option MountConfigWrapper
resolved_at strategy mount_id none old = old
resolved_at strategy mount_id (some vs) old =
    resolved_config (resolve_mount_conflict strategy mount_id vs)

mounts-add_resolved :
    (k : String) (r : ResolvedMount) (p : Progress)
    → (add_resolved k r p).mounts ≡ insert k r.config p.mounts
unfolding add_resolved
mounts-add_resolved k r p = ground arith

resolved_one :
    (strategy : ConflictResolutionStrategy) (j k : String) (vs : List MountVersion)
    (m : Dict (List MountVersion)) (r : ResolvedMount) (old : Dict MountConfigWrapper)
    → resolve_mount_conflict strategy k vs ≡ some r
    → get k m ≡ none
    → resolved_at strategy j (get j m) (get j (insert k r.config old))
      ≡ resolved_at strategy j (get j ((k, vs) ∷ m)) (get j old)
unfolding get
resolved_one strategy j k vs m r old e gone = elim (Bool-cases (str_eq k j)) [
  | inl same ↦
      let q = (eq_iff k j).0 same in
      let absent : get j m ≡ none = subst (λ l. get l m ≡ none) q gone in
      let done : resolve_mount_conflict strategy j vs ≡ some r =
        subst (λ l. resolve_mount_conflict strategy l vs ≡ some r) q e in
      rw (absent, get-insert k j r.config old, same, done)
  | inr other ↦ rw (get-insert k j r.config old, other)
]

merge_mounts_lem :
    (strategy : ConflictResolutionStrategy) (j : String) (m : Dict (List MountVersion))
    (p : Progress)
    → IsGrouping m
    → (q : Progress) × (merge_mounts strategy m p ≡ some q)
      × (get j q.mounts ≡ resolved_at strategy j (get j m) (get j p.mounts))
unfolding merge_mounts get
merge_mounts_lem strategy j [] p g = (p, refl, refl)
merge_mounts_lem strategy j ((k, vs) ∷ m) p g =
    let (r, e) = resolve_total strategy k vs g.full.0 in
    let (q, returns, at) =
      merge_mounts_lem strategy j m (add_resolved k r p)
        (record { unique = g.unique.1; full = g.full.1 }) in
    (
      q,
      rw (merge_mounts, e) returns,
      at ∙ rw (mounts-add_resolved k r p) (resolved_one strategy j k vs m r p.mounts e g.unique.0),
    )

mounts-assemble :
    (merger : ConfigMerger) (now : ℕ) (instances : List (String × Config)) (p : Progress)
    → (assemble merger now instances p).config.mounts ≡ p.mounts
unfolding assemble merge_global_settings
mounts-assemble merger now instances p = ground arith

-- An empty list of versions is not in the groups.
at_group :
    (strategy : ConflictResolutionStrategy) (j : String) (o : Option (List MountVersion))
    → resolved_at strategy j o none
      ≡ resolved_config (resolve_mount_conflict strategy j (or_empty o))
unfolding resolve_mount_conflict sort_by
at_group strategy j none = refl
at_group strategy j (some vs) = refl

-- The merge of any instances whose mounts have one entry per identifier returns, and holds for
-- every mount identifier what the strategy resolves from the versions of that mount, if any
-- instance has one, and nothing otherwise.
pub merge_configs-mounts :
    (merger : ConfigMerger) (now : ℕ) (instances : List (String × Config))
    → AreMaps instances
    → (r : MergedConfig) × (merge_configs merger now instances ≡ some r)
      × ((mount_id : String)
          → get mount_id r.config.mounts
            ≡ resolved_config (
                resolve_mount_conflict merger.conflict_strategy mount_id
                  (versions_of mount_id instances)))
unfolding merge_configs get resolve_mount_conflict
merge_configs-mounts merger now instances maps =
    let s = merger.conflict_strategy in
    let groups = collect_versions instances [] in
    let grouping : IsGrouping groups =
      collect_versions-IsGrouping instances [] (record { unique = tt; full = tt }) in
    let start : Progress = record { mounts = []; conflicts = []; resolved_conflicts = [] } in
    let (p, returns, _) = merge_mounts_lem s "" groups start grouping in
    (
      assemble merger now instances p,
      rw (merge_configs, returns),
      λ mount_id.
          let (q, again, at) = merge_mounts_lem s mount_id groups start grouping in
          let same : p ≡ q = cc (returns, again) in
          rw (mounts-assemble merger now instances p) (
            rw (← collect_versions_lem mount_id instances [] maps)
              (rw same (at ∙ at_group s mount_id (get mount_id groups)))),
    )
