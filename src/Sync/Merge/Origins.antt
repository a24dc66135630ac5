-- ===== src/Sync/Merge/Origins.antt =====
-- Where the versions come from that `merge_configs` of src/sync/merge.rs collects, and what it leaves
-- for a mount.
use fuji.Base.{
  ℕ, ◌≡◌, refl, sym, ap, ◌∙◌, subst, ◌⊎◌, inl, inr, String, Option, none, some, List, [], ◌∷◌, ◌++◌,
  Memᴰ, get,
}
use fuji.Mount.Config.{MountConfig}
use fuji.Config.{Config, MountConfigWrapper}
use fuji.Config.Operations.{get_mount}
use fuji.Sync.Merge.{MountVersion, ResolvedMount, resolve_mount_conflict}
use fuji.Sync.Merge.Grouping.{own_version, versions_of, AreMaps}
use fuji.Sync.Merge.Versions.{resolved_config, merge_configs-mounts}
use fuji.Sync.Merge.Configs.{ConfigMerger, MergedConfig, version_of, merge_configs}

-- A version comes from the configuration of an instance that has the mount.
pub record Origin (mount_id : String) (instances : List (String × Config)) (v : MountVersion)
    : Type 0 where
  pub instance_id : String
  pub config : Config
  pub member : Memᴰ (instance_id, config) instances
  pub entry : get mount_id config.mounts ≡ some v.config
  pub version : v ≡ version_of instance_id v.config

mem_of_own :
    (i : String) (o : Option MountConfigWrapper) (v : MountVersion)
    → Memᴰ v (own_version i o)
    → (o ≡ some v.config) × (v ≡ version_of i v.config)
mem_of_own i none v m = elim m [ ]
mem_of_own i (some w) v (Memᴰ.head e) =
    let q : v.config ≡ w = ap (λ (x : MountVersion). x.config) e in
    (ap some (sym q), e ∙ ap (version_of i) (sym q))
mem_of_own i (some w) v (Memᴰ.tail m) = elim m [ ]

mem_of_append :
    (v : MountVersion) (xs ys : List MountVersion) → Memᴰ v (xs ++ ys) → Memᴰ v xs ⊎ Memᴰ v ys
mem_of_append v [] ys m = inr m
mem_of_append v (x ∷ xs) ys (Memᴰ.head e) = inl (Memᴰ.head e)
mem_of_append v (x ∷ xs) ys (Memᴰ.tail m) = elim (mem_of_append v xs ys m) [
  | inl l ↦ inl (Memᴰ.tail l)
  | inr r ↦ inr r
]

mem-append_right : (v : MountVersion) (xs ys : List MountVersion) → Memᴰ v ys → Memᴰ v (xs ++ ys)
mem-append_right v [] ys m = m
mem-append_right v (x ∷ xs) ys m = Memᴰ.tail (mem-append_right v xs ys m)

pub mem-Origin :
    (mount_id : String) (instances : List (String × Config)) (v : MountVersion)
    → Memᴰ v (versions_of mount_id instances)
    → Origin mount_id instances v
unfolding versions_of
mem-Origin id [] v m = elim m [ ]
mem-Origin id ((i, c) ∷ rest) v m =
    elim (mem_of_append v (own_version i (get id c.mounts)) (versions_of id rest) m) [
      | inl here ↦
          let (e, q) = mem_of_own i (get id c.mounts) v here in
          record { instance_id = i; config = c; member = Memᴰ.head refl; entry = e; version = q }
      | inr there ↦
          let o = mem-Origin id rest v there in
          record {
            instance_id = o.instance_id;
            config = o.config;
            member = Memᴰ.tail o.member;
            entry = o.entry;
            version = o.version;
          }
    ]

pub mem_of_entry :
    (mount_id i : String) (c : Config) (instances : List (String × Config)) (v : MountVersion)
    → Memᴰ (i, c) instances
    → get mount_id c.mounts ≡ some v.config
    → v ≡ version_of i v.config
    → Memᴰ v (versions_of mount_id instances)
unfolding versions_of
mem_of_entry id i c [] v m e q = elim m [ ]
mem_of_entry id i c ((j, d) ∷ rest) v (Memᴰ.head p) e q =
    let pi : i ≡ j = ap (λ (x : String × Config). x.0) p in
    let pc : c ≡ d = ap (λ (x : String × Config). x.1) p in
    let e' : get id d.mounts ≡ some v.config =
      subst (λ (x : Config). get id x.mounts ≡ some v.config) pc e in
    rw e' (Memᴰ.head (q ∙ ap (λ k. version_of k v.config) pi))
mem_of_entry id i c ((j, d) ∷ rest) v (Memᴰ.tail m) e q =
    mem-append_right v (own_version j (get id d.mounts)) _ (mem_of_entry id i c rest v m e q)

abbrev pub just_config : Option ResolvedMount → Option MountConfig
just_config none = none
just_config (some r) = some r.config.config

pub get_mount-merge_configs :
    (a : ConfigMerger) (now : ℕ) (xs : List (String × Config)) (r : MergedConfig)
    → AreMaps xs
    → merge_configs a now xs ≡ some r
    → (mount_id : String)
    → get_mount mount_id r.config
      ≡ just_config (resolve_mount_conflict a.conflict_strategy mount_id (versions_of mount_id xs))
unfolding get_mount
get_mount-merge_configs a now xs r maps h id =
    let (q, returns, at) = merge_configs-mounts a now xs maps in
    let same : r ≡ q = cc (returns, h) in
    rw (same, at id, get_mount)
      (wrapped (resolve_mount_conflict a.conflict_strategy id (versions_of id xs)))
  where
    wrapped :
        (o : Option ResolvedMount)
        → (elim (resolved_config o) [ some w ↦ some w.config | none ↦ none ]) ≡ just_config o
    wrapped none = refl
    wrapped (some x) = refl
