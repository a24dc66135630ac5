-- ===== src/Config/Operations.antt =====
-- The operations of `Config` in src/config/mod.rs on mounts, peers and sync metadata.
pub mod Mounts
pub mod Peers
use fuji.Base.{
  ℕ, ◌+◌, ◌%◌, ◌^◌, String, Bool, false, Option, none, some, List, [], ◌∷◌, ◌++◌, any, Dict, get,
  insert, remove, str_eq, if◌then◌else◌,
}
use fuji.Mount.Config.{MountConfig}
use fuji.Config.{
  Config, MountConfigWrapper, MountSyncMetadata, PeerInfo, ClusterConfig, SyncMetadata, new_cluster,
}

unfoldable pub wrap_mount : MountConfig → Option String → MountConfigWrapper
wrap_mount mount instance_id = record {
  config = mount;
  sync_metadata = elim instance_id [
    | some id ↦ some (record { last_modified_by = some id; version = 1 })
    | none ↦ none
  ];
}

-- `sync_metadata.get_or_insert_with(MountSyncMetadata::default)`
unfoldable pub metadata_or_default : Option MountSyncMetadata → MountSyncMetadata
metadata_or_default (some m) = m
metadata_or_default none = record { last_modified_by = none; version = 0 }

unfoldable pub update_wrapper : ℕ → MountConfig → String → MountConfigWrapper → MountConfigWrapper
unfolding metadata_or_default
update_wrapper now mount instance_id w =
    let m = metadata_or_default w.sync_metadata in
    record {
      config = record mount { updated_at = now };
      sync_metadata =
          some (record { last_modified_by = some instance_id; version = (m.version + 1) % 2 ^ 64 });
    }

unfoldable pub get_instance_id : Config → Option String
get_instance_id c = elim c.cluster [ some cluster ↦ some cluster.instance_id | none ↦ none ]

unfoldable pub is_cluster_enabled : Config → Bool
is_cluster_enabled c = elim c.cluster [ some cluster ↦ cluster.enabled | none ↦ false ]

unfoldable pub add_mount : MountConfig → Config → Config
unfolding wrap_mount get_instance_id
add_mount mount c = record c {
  mounts = insert mount.id (wrap_mount mount (get_instance_id c)) c.mounts;
}

unfoldable pub get_mount : String → Config → Option MountConfig
get_mount id c = elim (get id c.mounts) [ some w ↦ some w.config | none ↦ none ]

unfoldable pub remove_mount : String → Config → Config × Option MountConfig
unfolding get_mount
remove_mount id c = (record c { mounts = remove id c.mounts }, get_mount id c)

unfoldable pub update_mount : ℕ → String → MountConfig → Config → Config
unfolding update_wrapper get_instance_id
update_mount now id mount c =
    let instance_id : String = elim (get_instance_id c) [ some i ↦ i | none ↦ "unknown" ] in
    elim (get id c.mounts) [
      | some w ↦ record c { mounts = insert id (update_wrapper now mount instance_id w) c.mounts }
      | none ↦ c
    ]

unfoldable pub initialize_cluster : String → Config → Config
initialize_cluster instance_id c = record c { cluster = some (new_cluster instance_id) }

-- `self.cluster.as_mut()` and a change of what is there.
unfoldable pub change_cluster : (ClusterConfig → ClusterConfig) → Config → Config
change_cluster f c = elim c.cluster [
  | some cluster ↦ record c { cluster = some (f cluster) }
  | none ↦ c
]

unfoldable pub touch_mounts : ℕ → Dict MountConfigWrapper → Dict MountConfigWrapper
touch_mounts now [] = []
touch_mounts now ((id, w) ∷ m) =
    (id, record w { config = record (w.config) { updated_at = now } }) ∷ touch_mounts now m

unfoldable pub bump_version : String → SyncMetadata → SyncMetadata
bump_version instance_id m = record m {
  last_modified_by = some instance_id;
  sync_version = (m.sync_version + 1) % 2 ^ 64;
}

unfoldable pub mark_modified : ℕ → String → Config → Config
unfolding change_cluster touch_mounts bump_version
mark_modified now instance_id c =
    let bumped =
      change_cluster
        (λ (cluster : ClusterConfig). record cluster {
          sync_metadata = bump_version instance_id cluster.sync_metadata;
        })
        c in
    record bumped { mounts = touch_mounts now c.mounts }

unfoldable pub has_peer : String → List PeerInfo → Bool
has_peer id peers = any (λ p. str_eq p.id id) peers

unfoldable pub add_cluster_peer : PeerInfo → Config → Config
unfolding change_cluster has_peer
add_cluster_peer peer c =
    change_cluster
      (λ cluster.
        if has_peer peer.id cluster.peers
        then cluster
        else record cluster { peers = cluster.peers ++ peer ∷ [] })
      c

-- Drops the first peer with the id.
unfoldable pub drop_peer : String → List PeerInfo → List PeerInfo
drop_peer id [] = []
drop_peer id (p ∷ ps) = if str_eq p.id id then ps else p ∷ drop_peer id ps

unfoldable pub remove_cluster_peer : String → Config → Config × Bool
unfolding change_cluster has_peer drop_peer
remove_cluster_peer id c = (
  change_cluster (λ cluster. record cluster { peers = drop_peer id cluster.peers }) c,
  elim c.cluster [ some cluster ↦ has_peer id cluster.peers | none ↦ false ],
)
