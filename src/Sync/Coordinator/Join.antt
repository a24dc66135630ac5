-- ===== src/Sync/Coordinator/Join.antt =====
-- `join_cluster` of src/sync/coordinator.rs. `sign` is as in src/cluster/discovery.rs, and
-- `connects` is whether the transport connects to a peer.
use fuji.Base.{ℕ, String, Bool, Option, none, some, [], ◌∷◌, ◌++◌, ok, err, if◌then◌else◌}
use fuji.Config.{Config, ClusterConfig, PeerInfo}
use fuji.Config.Operations.{initialize_cluster, change_cluster}
use fuji.Cluster.{update_peer, get_peer}
use fuji.Cluster.Discovery.{ClusterInvitation, check_invitation, invited_peer}
use fuji.Sync.Coordinator.{SyncCoordinator, invitation_error, not_connected, Done, ends}

abbrev pub with_cluster : String → Config → Config
with_cluster instance_id c = elim c.cluster [
  | none ↦ initialize_cluster instance_id c
  | some cluster ↦ c
]

-- The peer is pushed whether or not it is there already.
unfoldable pub push_peer : Option PeerInfo → Config → Config
unfolding change_cluster
push_peer none c = c
push_peer (some peer) c =
    change_cluster
      (λ (cluster : ClusterConfig). record cluster { peers = cluster.peers ++ peer ∷ [] }) c

module _ {Value : Type 0} (connects : PeerInfo → Bool) where
  -- The last step: the inviting peer is connected to, if it is known.
  unfoldable pub connect : Option PeerInfo → SyncCoordinator → Done Value (Unit {0})
  connect none s = ends s (ok tt)
  connect (some peer) s = ends s (if connects peer then ok tt else err not_connected)

module _ {Value : Type 0} (sign : String → String) (connects : PeerInfo → Bool) where
  unfoldable pub join_cluster : ℕ → ClusterInvitation → SyncCoordinator → Done Value (Unit {0})
  unfolding check_invitation initialize_cluster update_peer get_peer push_peer connect
  join_cluster now invitation s = elim (check_invitation sign now invitation) [
    | err e ↦ ends s (err (invitation_error e))
    | ok u ↦
        let cluster_state = update_peer (invited_peer now invitation) s.cluster_state in
        let peer = get_peer invitation.instance_id cluster_state in
        let config = push_peer peer (with_cluster s.instance_id s.config) in
        connect connects peer (record s { cluster_state = cluster_state; config = config })
  ]
