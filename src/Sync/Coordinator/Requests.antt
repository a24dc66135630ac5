-- ===== src/Sync/Coordinator/Requests.antt =====
-- The answers of src/sync/coordinator.rs to sync requests.
use fuji.Base.{
  ℕ, ◌+◌, ◌-◌, ◌^◌, ◌≤◌, String, Option, List, [], ◌∷◌, Memᴰ, ◌≡◌, refl, ap, sym, subst, arith, get,
  UniqueKeys, ok,
}
use fuji.Mount.Config.{MountConfig}
use fuji.Config.{Config}
use fuji.Cluster.{mark_peer_seen, mark_peer_request}
use fuji.Sync.Merge.Configs.{default_merger, sync_version_of}
use fuji.Sync.Merge.Single.{merge_configs-single}
use fuji.Sync.Merge.SyncVersion.{sync_version-merge_configs}
use fuji.Sync.Protocol.{SyncRequest, SyncResponse, sync_request, sync_response}
use fuji.Sync.Coordinator.{SyncCoordinator, ended, convert_sync_to_mount_conflicts}
use fuji.Sync.Coordinator.Handle.{handle_sync_request, handle_sync_message}

module _ {Value : Type 0} (to_value : MountConfig → Option Value) (null : Value) where
  -- On a configuration with one entry per mount identifier and a sync version that is not within
  -- two of the largest `u64`, a sync request is answered by a response with its identifier, the
  -- same configuration of every mount, no conflicts, and a version at least two greater. The
  -- coordinator records that the sender was seen and that it was asked, and nothing else.
  pub sync_request-answered :
      (now : ℕ) (sender_id : String) (request : SyncRequest) (s : SyncCoordinator)
      → UniqueKeys s.config.mounts
      → sync_version_of s.config ≤ 2 ^ 64 - 3
      → let d = handle_sync_message to_value null now sender_id (sync_request request) s in
        (response : SyncResponse Value) × (d.outcome ≡ ended (ok (sync_response response)))
        × (response.request_id ≡ request.request_id)
        × ((mount_id : String) → get mount_id response.config.mounts ≡ get mount_id s.config.mounts)
        × (response.conflicts ≡ [])
        × (sync_version_of s.config + 2 ≤ response.sync_version)
        × (d.state ≡ record s {
          cluster_state = mark_peer_request now (mark_peer_seen now sender_id s.cluster_state);
        })
        × (d.sent ≡ [])
  unfolding handle_sync_message handle_sync_request convert_sync_to_mount_conflicts
  sync_request-answered now sender_id request s unique bound =
      let (r, returns, same, none_found) =
        merge_configs-single default_merger now s.instance_id s.config unique in
      let instances : List (String × Config) = (s.instance_id, s.config) ∷ [] in
      let (greater, next) =
        sync_version-merge_configs default_merger now instances r
          (only_own s.instance_id s.config bound) returns (s.instance_id, s.config)
          (Memᴰ.head refl) in
      let response : SyncResponse Value = record {
        request_id = request.request_id;
        config = r.config;
        sync_version = r.sync_metadata.sync_version;
        conflicts =
            convert_sync_to_mount_conflicts to_value null now s.instance_id
              r.sync_metadata.pending_conflicts s.config s.config;
      } in
      (
        response,
        ground (arith, returns),
        refl,
        same,
        rw none_found refl,
        omega (arith, greater, next),
        ground (arith, returns),
        ground (arith, returns),
      )
    where
      only_own :
          (i : String) (c : Config)
          → sync_version_of c ≤ 2 ^ 64 - 3
          → (x : String × Config) → Memᴰ x ((i, c) ∷ [])
          → sync_version_of (x.1) ≤ 2 ^ 64 - 3
      only_own i c h x (Memᴰ.head q) =
          subst (λ (y : Config). sync_version_of y ≤ 2 ^ 64 - 3)
            (ap (λ (y : String × Config). y.1) (sym q)) h
      only_own i c h x (Memᴰ.tail t) = elim t [ ]
