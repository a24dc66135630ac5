-- ===== src/Sync/Coordinator/Run.antt =====
-- The calls that src/sync/coordinator.rs answers, as events, and runs of them. A call that waits
-- stays where it is, and the next event is another task's. A call that does not wait ends before
-- the next event; updates that cross are in Tasks. Between two events other parts of the daemon may
-- write the configuration; these runs are of the coordinator alone.
use fuji.Base.{ℕ, String, Bool, Option, List, [], ◌∷◌}
use fuji.Mount.Config.{MountConfig}
use fuji.Config.{PeerInfo}
use fuji.Cluster.Discovery.{ClusterInvitation}
use fuji.Sync.Protocol.{SyncMessage}
use fuji.Sync.Coordinator.{SyncCoordinator, Timeout, Done}
use fuji.Sync.Coordinator.Handle.{handle_sync_message}
use fuji.Sync.Coordinator.Initiate.{check_and_initiate_sync, force_sync, time_out}
use fuji.Sync.Coordinator.Join.{join_cluster}

-- Each with its time; the last two with what the transport does.
pub data Event (Value : Type 0) : Type 0 where
  message : ℕ → String → SyncMessage Value → Event Value
  tick : ℕ → Event Value
  timed_out : ℕ → Timeout → Event Value
  forced : (String → Bool) → ℕ → String → Event Value
  joined : (PeerInfo → Bool) → ℕ → ClusterInvitation → Event Value

module _ {Value : Type 0} (to_value : MountConfig → Option Value) (null : Value)
    (sign : String → String) where
  unfoldable pub step : Event Value → SyncCoordinator → SyncCoordinator
  unfolding handle_sync_message check_and_initiate_sync time_out force_sync join_cluster
  step (message now sender m) s = (handle_sync_message to_value null now sender m s).state
  step (tick now) s = let d : Done Value (Unit {0}) = check_and_initiate_sync now s in d.state
  step (timed_out now t) s = let d : Done Value (Unit {0}) = time_out now t s in d.state
  step (forced delivers now reason) s =
      let d : Done Value (Unit {0}) = force_sync delivers now reason s in d.state
  step (joined connects now i) s =
      let d : Done Value (Unit {0}) = join_cluster sign connects now i s in d.state

  unfoldable pub run : List (Event Value) → SyncCoordinator → SyncCoordinator
  unfolding step
  run [] s = s
  run (e ∷ es) s = run es (step e s)
