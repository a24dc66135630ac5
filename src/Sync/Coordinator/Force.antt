-- ===== src/Sync/Coordinator/Force.antt =====
-- What src/sync/coordinator.rs records of a force sync.
pub mod Ends
use fuji.Base.{
  ℕ, String, Bool, true, false, some, List, [], ◌∷◌, length, ◌≡◌, refl, sym, subst, arith, inl, inr,
  ◌⊎◌, Bool-cases, Option-cases, Dict, get, insert, get-insert, eq_refl, minutes, ok, err,
}
use fuji.Config.{Config, ClusterConfig, PeerInfo, ForceSyncState, failed}
use fuji.Config.Operations.{is_cluster_enabled}
use fuji.Config.ForceSync.{
  initiate_force_sync, fail_force_sync, finish_force_sync, get_force_sync_state,
}
use fuji.Cluster.{ClusterState, get_healthy_peers}
use fuji.Sync.Coordinator.{
  PendingSync, SyncCoordinator, not_enabled, no_healthy_peers, ended, Done, ends, Timeout,
  force_sync_timeout,
}
use fuji.Sync.Coordinator.Initiate.{
  force_id, new_pending, delivered, record_sync, request_all, send_force_sync, force_sync, time_out,
}

-- What is recorded of a force sync that is under way, and of one that failed.
pub record IsUnderWay (now : ℕ) (reason by : String) (c : Config) : Type 0 where
  pub state : ForceSyncState
  pub there : get_force_sync_state c ≡ some state
  pub in_progress : state.sync_in_progress ≡ true
  pub since : state.last_force_sync_at ≡ some now
  pub because : state.last_force_sync_reason ≡ some reason
  pub from : state.initiated_by ≡ some by

pub record HasFailed (now : ℕ) (error : String) (attempted : ℕ) (c : Config) : Type 0 where
  pub state : ForceSyncState
  pub there : get_force_sync_state c ≡ some state
  pub over : state.sync_in_progress ≡ false
  pub result : state.last_result ≡ some (failed now error attempted)

pub initiate-IsUnderWay :
    (now : ℕ) (reason by : String) (c : Config) (k : ClusterConfig)
    → c.cluster ≡ some k
    → IsUnderWay now reason by (initiate_force_sync now reason by c).0
unfolding initiate_force_sync get_force_sync_state
initiate-IsUnderWay now reason by c k e =
    rw (initiate_force_sync, e)
      (record {
        state = _;
        there = refl;
        in_progress = refl;
        since = refl;
        because = refl;
        from = refl;
      })

pub fail-HasFailed :
    (now before : ℕ) (reason by error : String) (attempted : ℕ) (c : Config)
    → IsUnderWay before reason by c
    → HasFailed now error attempted (fail_force_sync now error attempted c).0
unfolding fail_force_sync finish_force_sync get_force_sync_state
fail-HasFailed now before reason by error attempted c u = elim (Option-cases c.cluster) [
  | inl e ↦ ground (arith, e, u.there)
  | inr (k, e) ↦ record {
    state = record (u.state) {
      sync_in_progress = false;
      last_result = some (failed now error attempted);
    };
    there = ground (arith, e, u.there, u.in_progress);
    over = refl;
    result = refl;
  }
]

module _ (Value : Type 0) where
  abbrev pub after_timeout : ℕ → Timeout → SyncCoordinator → SyncCoordinator
  after_timeout later t s = let d : Done Value (Unit {0}) = time_out later t s in d.state

  -- A force sync that was sent to these peers, up to the time when it times out.
  pub record WasSent (delivers : String → Bool) (now : ℕ) (reason : String) (later : ℕ)
      (by : String) (k : ClusterState) (ps : List PeerInfo) (d : Done Value (Unit {0}))
      : Type 0 where
    pub healthy : get_healthy_peers now (minutes 5) k ≡ ps
    pub outcome : d.outcome ≡ ended (ok tt)
    pub under_way : IsUnderWay now reason by d.state.config
    pub sent : d.sent ≡ request_all (force_id now by) ps d.state
    pub pending :
        get (force_id now by) d.state.pending_syncs
        ≡ some (new_pending now (force_id now by) (length ps))
    pub timeout : d.spawned ≡ force_sync_timeout (force_id now by) (delivered delivers ps) ∷ []
    pub times_out :
        HasFailed later "Force sync timed out"
          (delivered delivers ps)
          (after_timeout later
            (force_sync_timeout (force_id now by) (delivered delivers ps))
            d.state).config

  pub record WasRefused (now : ℕ) (k : ClusterState) (entries : Dict PendingSync)
      (d : Done Value (Unit {0})) : Type 0 where
    pub healthy : get_healthy_peers now (minutes 5) k ≡ []
    pub outcome : d.outcome ≡ ended (err no_healthy_peers)
    pub has_failed : HasFailed now "No healthy peers available" 0 d.state.config
    pub sent : d.sent ≡ []
    pub pending : d.state.pending_syncs ≡ entries
