-- ===== src/Tests/Marked.antt =====
-- A merge after one instance has marked its configuration modified.
use fuji.Base.{◌≡◌, refl, sym, subst, ◌⊎◌, inl, inr, String, some, List, [], ◌∷◌, Memᴰ, arith, get}
use fuji.Config.{Config, MountConfigWrapper}
use fuji.Config.Operations.{get_mount, mark_modified}
use fuji.Sync.Merge.Configs.{MergedConfig, with_instance_id}
use fuji.Sync.Merge.Grouping.{AreMaps}
use fuji.Sync.Merge.Versions.{merge_configs-mounts}
use fuji.Sync.Merge.Marked.{OlderThan, merge-mark_modified}
use fuji.Tests.Merge.{share, config_of}

abbrev unmarked : Config
unmarked = config_of "a" "/mnt/a"

abbrev instances : List (String × Config)
instances = ("a", mark_modified 9 "a" unmarked) ∷ ("b", config_of "b" "/mnt/b") ∷ []

abbrev stamped : MountConfigWrapper
stamped = record (share "/mnt/a") { config = record ((share "/mnt/a").config) { updated_at = 9 } }

instances-AreMaps : AreMaps instances
unfolding get mark_modified
instances-AreMaps = ((refl, tt), ((refl, tt), tt))

stamped_entry : get "m" (mark_modified 9 "a" unmarked).mounts ≡ some stamped
unfolding get mark_modified
stamped_entry = refl

b_is_older : OlderThan 9 "m" (config_of "b" "/mnt/b")
unfolding get
b_is_older = omega arith

others_older :
    (x : String × Config)
    → Memᴰ x instances
    → (x ≡ ("a", mark_modified 9 "a" unmarked)) ⊎ OlderThan 9 "m" (x.1)
others_older x (Memᴰ.head e) = inl e
others_older x (Memᴰ.tail (Memᴰ.head e)) =
    inr (subst (λ (y : String × Config). OlderThan 9 "m" (y.1)) (sym e) b_is_older)
others_older x (Memᴰ.tail (Memᴰ.tail m)) = elim m [ ]

abbrev merged : MergedConfig
merged = (merge_configs-mounts (with_instance_id "b") 20 instances instances-AreMaps).0

merge-mark_modified_example : get_mount "m" merged.config ≡ some stamped.config
merge-mark_modified_example =
    merge-mark_modified 9 "a" "a" "m" unmarked instances stamped (with_instance_id "b") 20 merged
      instances-AreMaps (Memᴰ.head refl) stamped_entry others_older
      (merge_configs-mounts (with_instance_id "b") 20 instances instances-AreMaps).1
