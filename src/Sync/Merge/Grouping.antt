-- ===== src/Sync/Merge/Grouping.antt =====
-- How `merge_configs` of src/sync/merge.rs collects the versions of each mount.
use fuji.Base.{
  ◌≡◌, sym, subst, ◌∙◌, inl, inr, String, Option, none, some, List, [], ◌∷◌, ◌++◌, Dict, get,
  insert, get-insert, eq_iff, UniqueKeys, insert-UniqueKeys, if◌then◌else◌, str_eq, Bool-cases,
}
use mathlib.Core.List.{append-nil, append_assoc}
use fuji.Config.{Config, MountConfigWrapper}
use fuji.Sync.Merge.{MountVersion}
use fuji.Sync.Merge.Configs.{or_empty, push_version, version_of, collect_mounts, collect_versions}

-- The versions of one mount, in the order of the instances.
abbrev pub own_version : String → Option MountConfigWrapper → List MountVersion
own_version instance_id none = []
own_version instance_id (some w) = version_of instance_id w ∷ []

unfoldable pub versions_of : String → List (String × Config) → List MountVersion
versions_of mount_id [] = []
versions_of mount_id ((instance_id, c) ∷ rest) =
    own_version instance_id (get mount_id c.mounts) ++ versions_of mount_id rest

-- The mounts of every instance are a map.
abbrev pub AreMaps : List (String × Config) → Type 0
AreMaps [] = Unit
AreMaps ((instance_id, c) ∷ rest) = UniqueKeys c.mounts × AreMaps rest

get-push_version :
    (k j : String) (v : MountVersion) (m : Dict (List MountVersion))
    → or_empty (get j (push_version k v m))
      ≡ or_empty (get j m) ++ (if str_eq k j then v ∷ [] else [])
unfolding push_version
get-push_version k j v m = elim (Bool-cases (str_eq k j)) [
  | inl e ↦ rw (get-insert k j (or_empty (get k m) ++ v ∷ []) m, e) (rw ((eq_iff k j).0 e))
  | inr e ↦ rw (get-insert k j (or_empty (get k m) ++ v ∷ []) m, e) (rw append-nil)
]

collect_one :
    (i j k : String) (w : MountConfigWrapper) (ws : Dict MountConfigWrapper)
    (m : Dict (List MountVersion))
    → UniqueKeys ((k, w) ∷ ws)
    → or_empty (get j (push_version k (version_of i w) m)) ++ own_version i (get j ws)
      ≡ or_empty (get j m) ++ own_version i (get j ((k, w) ∷ ws))
unfolding get
collect_one i j k w ws m h = elim (Bool-cases (str_eq k j)) [
  | inl e ↦
      let gone : get j ws ≡ none = subst (λ l. get l ws ≡ none) ((eq_iff k j).0 e) h.0 in
      rw (get-push_version k j (version_of i w) m, e, gone) (append-nil _)
  | inr e ↦ rw (get-push_version k j (version_of i w) m, e) (rw append-nil)
]

collect_mounts_lem :
    (instance_id : String) (j : String) (ws : Dict MountConfigWrapper)
    (m : Dict (List MountVersion))
    → UniqueKeys ws
    → or_empty (get j (collect_mounts instance_id ws m))
      ≡ or_empty (get j m) ++ own_version instance_id (get j ws)
unfolding collect_mounts get
collect_mounts_lem i j [] m h = sym (append-nil (or_empty (get j m)))
collect_mounts_lem i j ((k, w) ∷ ws) m h =
    collect_mounts_lem i j ws (push_version k (version_of i w) m) h.1 ∙ collect_one i j k w ws m h

pub collect_versions_lem :
    (j : String) (instances : List (String × Config)) (m : Dict (List MountVersion))
    → AreMaps instances
    → or_empty (get j (collect_versions instances m))
      ≡ or_empty (get j m) ++ versions_of j instances
unfolding collect_versions versions_of
collect_versions_lem j [] m h = sym (append-nil (or_empty (get j m)))
collect_versions_lem j ((i, c) ∷ rest) m h =
    collect_versions_lem j rest (collect_mounts i c.mounts m) h.1
    ∙ rw (collect_mounts_lem i j c.mounts m h.0) (append_assoc (or_empty (get j m)) _ _)

-- No mount is collected without a version.
abbrev pub NonEmpty : List MountVersion → Type 0
NonEmpty [] = ⊥
NonEmpty (v ∷ vs) = Unit

abbrev pub AllNonEmpty : Dict (List MountVersion) → Type 0
AllNonEmpty [] = Unit
AllNonEmpty ((k, vs) ∷ m) = NonEmpty vs × AllNonEmpty m

pub record IsGrouping (m : Dict (List MountVersion)) : Type 0 where
  pub unique : UniqueKeys m
  pub full : AllNonEmpty m

NonEmpty-append : (vs : List MountVersion) (v : MountVersion) → NonEmpty (vs ++ v ∷ [])
NonEmpty-append [] v = tt
NonEmpty-append (u ∷ us) v = tt

insert-AllNonEmpty :
    (k : String) (vs : List MountVersion) (m : Dict (List MountVersion))
    → NonEmpty vs
    → AllNonEmpty m
    → AllNonEmpty (insert k vs m)
unfolding insert
insert-AllNonEmpty k vs [] n h = (n, tt)
insert-AllNonEmpty k vs ((j, us) ∷ m) n h = elim (Bool-cases (str_eq j k)) [
  | inl e ↦ rw (e, insert) (n, h.1)
  | inr e ↦ rw (e, insert) (h.0, insert-AllNonEmpty k vs m n h.1)
]

collect_mounts-IsGrouping :
    (i : String) (ws : Dict MountConfigWrapper) (m : Dict (List MountVersion))
    → IsGrouping m
    → IsGrouping (collect_mounts i ws m)
unfolding collect_mounts
collect_mounts-IsGrouping i [] m g = g
collect_mounts-IsGrouping i ((k, w) ∷ ws) m g = collect_mounts-IsGrouping i ws _ (record {
  unique = insert-UniqueKeys k _ m g.unique;
  full = insert-AllNonEmpty k _ m (NonEmpty-append (or_empty (get k m)) (version_of i w)) g.full;
})

pub collect_versions-IsGrouping :
    (instances : List (String × Config)) (m : Dict (List MountVersion))
    → IsGrouping m
    → IsGrouping (collect_versions instances m)
unfolding collect_versions
collect_versions-IsGrouping [] m g = g
collect_versions-IsGrouping ((i, c) ∷ rest) m g =
    collect_versions-IsGrouping rest _ (collect_mounts-IsGrouping i c.mounts m g)
