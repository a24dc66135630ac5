-- ===== src/Sync/Merge/Marked.antt =====
-- A configuration that `mark_modified` of src/config/mod.rs has stamped, in a merge by
-- src/sync/merge.rs.
use fuji.Base.{
  ℕ, ◌≤◌, ◌<◌, ◌≡◌, refl, sym, ap, ◌∙◌, ◌⊎◌, inl, inr, String, Option, none, some, List, [], ◌∷◌,
  Memᴰ, arith, get, str_eq, Bool-cases, Option-cases, Dict,
}
use fuji.Config.{Config, MountConfigWrapper}
use fuji.Config.Operations.{get_mount, touch_mounts, mark_modified}
use fuji.Sync.Merge.{MountVersion, ConflictResolutionStrategy, resolve_mount_conflict}
use fuji.Sync.Merge.Winner.{AtMost, AtMost-bound, resolve-newest}
use fuji.Sync.Merge.Grouping.{versions_of, AreMaps}
use fuji.Sync.Merge.Versions.{resolve_total}
use fuji.Sync.Merge.Configs.{ConfigMerger, MergedConfig, version_of, merge_configs}
use fuji.Sync.Merge.Origins.{mem-Origin, mem_of_entry, just_config, get_mount-merge_configs}

-- Every entry that a stamped map has bears the time of the stamp.
touched_at :
    (now : ℕ) (id : String) (m : Dict MountConfigWrapper) (w : MountConfigWrapper)
    → get id (touch_mounts now m) ≡ some w
    → w.config.updated_at ≡ now
unfolding touch_mounts get
touched_at now id [] w h = cc
touched_at now id ((k, u) ∷ m) w h = elim (Bool-cases (str_eq k id)) [
  | inl e ↦
      let same : some (record u { config = record (u.config) { updated_at = now } }) ≡ some w =
        rw e at h in
      ap stamp (sym same)
  | inr e ↦ touched_at now id m w (rw e at h)
]
  where
    stamp : Option MountConfigWrapper → ℕ
    stamp none = 0
    stamp (some x) = x.config.updated_at

marked_at :
    (now : ℕ) (by id : String) (c : Config) (w : MountConfigWrapper)
    → get id (mark_modified now by c).mounts ≡ some w
    → w.config.updated_at ≡ now
unfolding mark_modified
marked_at now by id c w h = touched_at now id c.mounts w h

-- A mount that every other configuration has only in an older version, or not at all.
abbrev pub OlderThan : ℕ → String → Config → Type 0
OlderThan now mount_id c = elim (get mount_id c.mounts) [
  | some w ↦ w.config.updated_at < now
  | none ↦ Unit {0}
]

older_entry :
    (now : ℕ) (id : String) (c : Config) (w : MountConfigWrapper)
    → OlderThan now id c
    → get id c.mounts ≡ some w
    → w.config.updated_at < now
older_entry now id c w h e = rw (OlderThan, e) at h

module _ (now : ℕ) (by i j : String) (c : Config) (xs : List (String × Config)) where
  abbrev marked : Config
  marked = mark_modified now by c

  module _ (member : Memᴰ (i, marked) xs) (mount : MountConfigWrapper)
      (entry : get j marked.mounts ≡ some mount)
      (others : (x : String × Config) → Memᴰ x xs → (x ≡ (i, marked)) ⊎ OlderThan now j (x.1)) where
    own : Memᴰ (version_of i mount) (versions_of j xs)
    own = mem_of_entry j i marked xs (version_of i mount) member entry refl

    -- The newest version of the mount is the marked one.
    newest_is_marked :
        (v : MountVersion)
        → Memᴰ v (versions_of j xs)
        → AtMost v.updated_at (versions_of j xs)
        → v.config ≡ mount
    newest_is_marked v mv most =
        let o = mem-Origin j xs v mv in
        elim (others (o.instance_id, o.config) o.member) [
          | inl e ↦
              let same : some v.config ≡ some mount =
                sym o.entry ∙ ap (λ (x : String × Config). get j (x.1).mounts) e ∙ entry in
              cc same
          | inr older ↦
              let mine : mount.config.updated_at ≤ v.updated_at =
                AtMost-bound v.updated_at (versions_of j xs) (version_of i mount) most own in
              let stamp : mount.config.updated_at ≡ now = marked_at now by j c mount entry in
              let his : v.updated_at ≡ v.config.config.updated_at =
                ap (λ (u : MountVersion). u.updated_at) o.version in
              absurd (too_late (older_entry now j o.config v.config older o.entry) mine stamp his)
        ]
      where
        too_late : {a b d : ℕ} → d < now → a ≤ b → a ≡ now → b ≡ d → ⊥
        too_late h k e f = omega (arith, h, k, e, f)

    resolves_to_marked :
        (strategy : ConflictResolutionStrategy)
        → just_config (resolve_mount_conflict strategy j (versions_of j xs)) ≡ some mount.config
    resolves_to_marked strategy =
        elim (Option-cases (resolve_mount_conflict strategy j (versions_of j xs))) [
          | inl e ↦ absurd (not_none (versions_of j xs) own e)
          | inr (r, e) ↦
              let (v, mv, q, most) = resolve-newest strategy j (versions_of j xs) r e in
              rw e (ap (λ (w : MountConfigWrapper). some w.config) (q ∙ newest_is_marked v mv most))
        ]
      where
        not_none :
            (vs : List MountVersion)
            → Memᴰ (version_of i mount) vs
            → resolve_mount_conflict strategy j vs ≡ none
            → ⊥
        not_none [] m e = elim m [ ]
        not_none (u ∷ us) m e = let (r, k) = resolve_total strategy j (u ∷ us) tt in cc (e, k)

-- If configurations with one entry per mount identifier are merged, one of them was marked
-- modified and has a mount, and every other has only an older version of that mount or none,
-- then a merge that returns, with any strategy, leaves the mount as the marked configuration has
-- it.
pub merge-mark_modified :
    (now : ℕ) (by i j : String) (c : Config) (xs : List (String × Config))
    (mount : MountConfigWrapper) (merger : ConfigMerger) (at : ℕ) (r : MergedConfig)
    → AreMaps xs
    → Memᴰ (i, mark_modified now by c) xs
    → get j (mark_modified now by c).mounts ≡ some mount
    → ((x : String × Config)
        → Memᴰ x xs
        → (x ≡ (i, mark_modified now by c)) ⊎ OlderThan now j (x.1))
    → merge_configs merger at xs ≡ some r
    → get_mount j r.config ≡ some mount.config
merge-mark_modified now by i j c xs mount merger at r maps member entry others h =
    get_mount-merge_configs merger at xs r maps h j
    ∙ resolves_to_marked now by i j c xs member mount entry others merger.conflict_strategy
