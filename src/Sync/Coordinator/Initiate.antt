-- ===== src/Sync/Coordinator/Initiate.antt =====
-- What src/sync/coordinator.rs starts by itself: periodic syncs, forced syncs and their timeouts.
-- `delivers` is whether the transport accepts a message for a peer.
use Prim.Native.String.{◌++◌ as append}
use fuji.Base.{
  ℕ, suc, ◌+◌, String, Bool, not, none, some, List, [], ◌∷◌, length, map, get, insert, remove, ok,
  err, if◌then◌else◌, minutes,
}
use fuji.Mount.Options.Text.{show_usize}
use fuji.Config.{PeerInfo}
use fuji.Config.Operations.{is_cluster_enabled}
use fuji.Config.ForceSync.{initiate_force_sync, fail_force_sync}
use fuji.Cluster.{
  ClusterState, should_initiate_sync, get_sync_config, get_healthy_peers, mark_sync_initiated,
}
use fuji.Sync.Merge.Configs.{sync_version_of}
use fuji.Sync.Protocol.{new_request, timestamp_nanos}
use fuji.Sync.Coordinator.{
  PendingSync, SyncCoordinator, not_enabled, no_healthy_peers, force_sync_error, Timeout,
  sync_timeout, force_sync_timeout, Sent, to_peer, ended, Done, ends, stuck,
}

abbrev pub periodic_id : ℕ → String → String
periodic_id now instance_id = append (append instance_id "-") (show_usize (timestamp_nanos now))

abbrev pub force_id : ℕ → String → String
force_id now instance_id =
    append (append (append "force-" instance_id) "-") (show_usize (timestamp_nanos now))

abbrev pub new_pending : ℕ → String → ℕ → PendingSync
new_pending now request_id total_peers = record {
  request_id = request_id;
  initiated_at = now;
  responded_peers = [];
  peer_configs = [];
  total_peers = total_peers;
}

-- The pending sync is recorded, and then the initiation.
unfoldable pub record_sync : ℕ → String → ℕ → SyncCoordinator → SyncCoordinator
unfolding mark_sync_initiated
record_sync now request_id total_peers s = record s {
  pending_syncs = insert request_id (new_pending now request_id total_peers) s.pending_syncs;
  cluster_state = mark_sync_initiated now s.cluster_state;
}

abbrev pub delivered : (String → Bool) → List PeerInfo → ℕ
delivered delivers [] = 0
delivered delivers (p ∷ ps) = let n = delivered delivers ps in if delivers p.id then suc n else n

-- `sync_interval`, or its default, with the buffer.
abbrev pub health_window : ClusterState → ℕ
health_window s = elim (get_sync_config s) [
  | some (interval, _) ↦ interval + minutes 2
  | none ↦ minutes 5 + minutes 2
]

module _ {Value : Type 0} where
  -- The request goes to each peer; what the transport answers is logged.
  unfoldable pub request_all : String → List PeerInfo → SyncCoordinator → List (Sent Value)
  request_all request_id peers s =
      map
        (λ (p : PeerInfo).
          to_peer p.id (new_request request_id s.instance_id (sync_version_of s.config)))
        peers

  unfoldable pub check_and_initiate_sync : ℕ → SyncCoordinator → Done Value (Unit {0})
  unfolding should_initiate_sync get_healthy_peers record_sync request_all
  check_and_initiate_sync now s =
      if should_initiate_sync now s.cluster_state
      then elim (get_healthy_peers now (health_window s.cluster_state) s.cluster_state) [
        | [] ↦ ends s (ok tt)
        | p ∷ ps ↦
            if s.pending_held
            then stuck s
            else let request_id = periodic_id now s.instance_id in
              let started = record_sync now request_id (length (p ∷ ps)) s in
              record {
                state = started;
                sent = request_all request_id (p ∷ ps) started;
                spawned = sync_timeout request_id ∷ [];
                outcome = ended (ok tt);
              }
      ]
      else ends s (ok tt)

  -- What is done once a force sync is initiated.
  unfoldable pub send_force_sync : (String → Bool) → ℕ → SyncCoordinator → Done Value (Unit {0})
  unfolding get_healthy_peers fail_force_sync record_sync request_all
  send_force_sync delivers now s = elim (get_healthy_peers now (minutes 5) s.cluster_state) [
    | [] ↦
        let (config, result) = fail_force_sync now "No healthy peers available" 0 s.config in
        let failed = record s { config = config } in
        elim result [
          | ok u ↦ ends failed (err no_healthy_peers)
          | err e ↦ ends failed (err (force_sync_error e))
        ]
    | p ∷ ps ↦
        if s.pending_held
        then stuck s
        else let request_id = force_id now s.instance_id in
          let started = record_sync now request_id (length (p ∷ ps)) s in
          record {
            state = started;
            sent = request_all request_id (p ∷ ps) started;
            spawned = force_sync_timeout request_id (delivered delivers (p ∷ ps)) ∷ [];
            outcome = ended (ok tt);
          }
  ]

  unfoldable pub force_sync : (String → Bool) → ℕ → String → SyncCoordinator → Done Value (Unit {0})
  unfolding is_cluster_enabled initiate_force_sync send_force_sync
  force_sync delivers now reason s =
      if not (is_cluster_enabled s.config)
      then ends s (err not_enabled)
      else let (config, result) = initiate_force_sync now reason s.instance_id s.config in
        let initiated = record s { config = config } in
        elim result [
          | ok u ↦ send_force_sync delivers now initiated
          | err e ↦ ends initiated (err (force_sync_error e))
        ]

  -- A task whose time has come.
  unfoldable pub time_out : ℕ → Timeout → SyncCoordinator → Done Value (Unit {0})
  unfolding fail_force_sync
  time_out now (sync_timeout request_id) s =
      if s.pending_held
      then stuck s
      else ends (record s { pending_syncs = remove request_id s.pending_syncs }) (ok tt)
  time_out now (force_sync_timeout request_id successful_peers) s =
      if s.pending_held then stuck s else elim (get request_id s.pending_syncs) [
        | some p ↦
            ends
              (record s {
                pending_syncs = remove request_id s.pending_syncs;
                config = (fail_force_sync now "Force sync timed out" successful_peers s.config).0;
              })
              (ok tt)
        | none ↦ ends s (ok tt)
      ]
