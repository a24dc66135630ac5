-- ===== src/Sync/Merge/Convergence.antt =====
-- Two instances that run `merge_configs` of src/sync/merge.rs on the same configurations.
use fuji.Base.{
  ℕ, ◌≡◌, sym, ap, ap₂, ◌∙◌, inl, inr, String, none, some, List, [], ◌∷◌, Memᴰ, get, Option-cases,
}
use fuji.Config.{Config}
use fuji.Config.Operations.{get_mount}
use fuji.Sync.Merge.{MountVersion, ResolvedMount, instance_id_tie_break, resolve_mount_conflict}
use fuji.Sync.Merge.Winner.{resolve-newest}
use fuji.Sync.Merge.TieBreak.{OneEach, resolve-order_independent}
use fuji.Sync.Merge.Grouping.{versions_of, AreMaps}
use fuji.Sync.Merge.Versions.{resolve_total}
use fuji.Sync.Merge.Origins.{mem-Origin, mem_of_entry, just_config, get_mount-merge_configs}
use fuji.Sync.Merge.Configs.{ConfigMerger, MergedConfig, version_of, merge_configs}

-- The same configurations, in any order.
pub record SameInstances (xs ys : List (String × Config)) : Type 0 where
  pub there : (x : String × Config) → Memᴰ x xs → Memᴰ x ys
  pub back : (x : String × Config) → Memᴰ x ys → Memᴰ x xs

-- Each instance gave one configuration.
abbrev pub OneConfigEach : List (String × Config) → Type 0
OneConfigEach xs = (x y : String × Config) → Memᴰ x xs → Memᴰ y xs → x.0 ≡ y.0 → x ≡ y

carry :
    (mount_id : String) (xs ys : List (String × Config))
    → ((x : String × Config) → Memᴰ x xs → Memᴰ x ys)
    → (v : MountVersion) → Memᴰ v (versions_of mount_id xs)
    → Memᴰ v (versions_of mount_id ys)
carry id xs ys there v m =
    let o = mem-Origin id xs v m in
    mem_of_entry id o.instance_id o.config ys v (there _ o.member) o.entry o.version

versions_of-OneEach :
    (mount_id : String) (xs : List (String × Config))
    → OneConfigEach xs
    → OneEach (versions_of mount_id xs)
versions_of-OneEach id xs one v w mv mw e =
    let o = mem-Origin id xs v mv in
    let u = mem-Origin id xs w mw in
    let vi : v.instance_id ≡ o.instance_id = ap (λ (x : MountVersion). x.instance_id) o.version in
    let wi : w.instance_id ≡ u.instance_id = ap (λ (x : MountVersion). x.instance_id) u.version in
    let ids : o.instance_id ≡ u.instance_id = sym vi ∙ e ∙ wi in
    let same : o.config ≡ u.config =
      ap (λ (x : String × Config). x.1)
        (one (o.instance_id, o.config) (u.instance_id, u.config) o.member u.member ids) in
    let entries : get id o.config.mounts ≡ get id u.config.mounts =
      ap (λ (x : Config). get id x.mounts) same in
    let found : some v.config ≡ some w.config = sym o.entry ∙ entries ∙ u.entry in
    let configs : v.config ≡ w.config = cc found in
    o.version ∙ ap₂ version_of ids configs ∙ sym u.version

no_versions :
    (mount_id : String) (vs : List MountVersion)
    → resolve_mount_conflict instance_id_tie_break mount_id vs ≡ none
    → (v : MountVersion) → Memᴰ v vs
    → ⊥
no_versions id [] e v m = elim m [ ]
no_versions id (u ∷ us) e v m =
    let (r, q) = resolve_total instance_id_tie_break id (u ∷ us) tt in cc (e, q)

one_side :
    (mount_id : String) (vs ws : List MountVersion) (s : ResolvedMount)
    → ((v : MountVersion) → Memᴰ v ws → Memᴰ v vs)
    → resolve_mount_conflict instance_id_tie_break mount_id vs ≡ none
    → resolve_mount_conflict instance_id_tie_break mount_id ws ≡ some s
    → ⊥
one_side id vs ws s back e k =
    let (v, m, _, _) = resolve-newest instance_id_tie_break id ws s k in
    no_versions id vs e v (back v m)

-- What the two resolutions of a mount give.
agree :
    (mount_id : String) (xs ys : List (String × Config))
    → SameInstances xs ys
    → OneConfigEach xs
    → just_config (resolve_mount_conflict instance_id_tie_break mount_id (versions_of mount_id xs))
      ≡ just_config
          (resolve_mount_conflict instance_id_tie_break mount_id (versions_of mount_id ys))
agree id xs ys same one =
    let vs = versions_of id xs in
    let ws = versions_of id ys in
    let there : (v : MountVersion) → Memᴰ v vs → Memᴰ v ws = carry id xs ys same.there in
    let back : (v : MountVersion) → Memᴰ v ws → Memᴰ v vs = carry id ys xs same.back in
    elim (Option-cases (resolve_mount_conflict instance_id_tie_break id vs)) [
      | inl e ↦ elim (Option-cases (resolve_mount_conflict instance_id_tie_break id ws)) [
        | inl k ↦ rw (e, k)
        | inr (s, k) ↦ absurd (one_side id vs ws s back e k)
      ]
      | inr (r, e) ↦ elim (Option-cases (resolve_mount_conflict instance_id_tie_break id ws)) [
        | inl k ↦ absurd (one_side id ws vs r there k e)
        | inr (s, k) ↦
            rw (e, k)
              (ap some (
                resolve-order_independent id vs ws r s (versions_of-OneEach id xs one) there back e
                  k))
      ]
    ]

-- If instances that break ties by identifier merge the same configurations, one from each
-- instance and each with one entry per mount identifier, in any orders and at any times, and
-- both merges return, then they obtain the same configuration of every mount.
pub merge_configs_converge :
    (a b : ConfigMerger) (now later : ℕ) (xs ys : List (String × Config)) (r s : MergedConfig)
    → a.conflict_strategy ≡ instance_id_tie_break
    → b.conflict_strategy ≡ instance_id_tie_break
    → AreMaps xs
    → AreMaps ys
    → SameInstances xs ys
    → OneConfigEach xs
    → merge_configs a now xs ≡ some r
    → merge_configs b later ys ≡ some s
    → (mount_id : String) → get_mount mount_id r.config ≡ get_mount mount_id s.config
merge_configs_converge a b now later xs ys r s ta tb mx my same one hr hs id =
    rw⁻¹ ta (get_mount-merge_configs a now xs r mx hr id)
    ∙ agree id xs ys same one
    ∙ sym (rw⁻¹ tb (get_mount-merge_configs b later ys s my hs id))
