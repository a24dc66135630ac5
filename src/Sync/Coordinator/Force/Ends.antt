-- ===== src/Sync/Coordinator/Force/Ends.antt =====
-- The ends of a force sync in src/sync/coordinator.rs.
use fuji.Base.{
  ℕ, String, Bool, true, false, some, List, [], ◌∷◌, length, ◌≡◌, refl, sym, subst, arith, inl, inr,
  ◌⊎◌, Bool-cases, Option-cases, get, insert, get-insert, eq_refl, minutes, ok, err,
}
use fuji.Config.{Config, PeerInfo}
use fuji.Config.Operations.{is_cluster_enabled}
use fuji.Config.ForceSync.{
  initiate_force_sync, fail_force_sync, finish_force_sync, get_force_sync_state,
}
use fuji.Cluster.{get_healthy_peers}
use fuji.Sync.Coordinator.{
  PendingSync, SyncCoordinator, not_enabled, ended, Done, ends, force_sync_timeout,
}
use fuji.Sync.Coordinator.Initiate.{
  force_id, new_pending, delivered, record_sync, request_all, send_force_sync, force_sync, time_out,
}
use fuji.Sync.Coordinator.Force.{
  IsUnderWay, HasFailed, initiate-IsUnderWay, fail-HasFailed, after_timeout, WasSent, WasRefused,
}

module _ (Value : Type 0) where
  times_out-HasFailed :
      (now : ℕ) (reason by id : String) (later n : ℕ) (p : PendingSync) (s : SyncCoordinator)
      → s.pending_held ≡ false
      → get id s.pending_syncs ≡ some p
      → IsUnderWay now reason by s.config
      → HasFailed later "Force sync timed out" n
          (after_timeout Value later (force_sync_timeout id n) s).config
  unfolding time_out
  times_out-HasFailed now reason by id later n p s free e u =
      let q : (after_timeout Value later (force_sync_timeout id n) s).config
          ≡ (fail_force_sync later "Force sync timed out" n s.config).0 =
        ground (arith, free, e) in
      subst (HasFailed later "Force sync timed out" n) (sym q)
        (fail-HasFailed later now reason by "Force sync timed out" n s.config u)

  -- What is done with peers to send to.
  abbrev sent_to : (String → Bool) → ℕ → SyncCoordinator → List PeerInfo → Done Value (Unit {0})
  sent_to delivers now s ps =
      let id = force_id now s.instance_id in
      let started = record_sync now id (length ps) s in
      record {
        state = started;
        sent = request_all id ps started;
        spawned = force_sync_timeout id (delivered delivers ps) ∷ [];
        outcome = ended (ok tt);
      }

  sent_to-WasSent :
      (delivers : String → Bool) (now : ℕ) (reason : String) (later : ℕ) (s : SyncCoordinator)
      (ps : List PeerInfo)
      → s.pending_held ≡ false
      → IsUnderWay now reason s.instance_id s.config
      → get_healthy_peers now (minutes 5) s.cluster_state ≡ ps
      → WasSent Value delivers now reason later s.instance_id s.cluster_state ps
          (sent_to delivers now s ps)
  unfolding record_sync
  sent_to-WasSent delivers now reason later s ps free u e =
      let id = force_id now s.instance_id in
      let entry = new_pending now id (length ps) in
      let there : get id (insert id entry s.pending_syncs) ≡ some entry =
        ground (arith, get-insert id id entry s.pending_syncs, eq_refl id) in
      record {
        healthy = e;
        outcome = refl;
        under_way = u;
        sent = refl;
        pending = there;
        timeout = refl;
        times_out =
            times_out-HasFailed now reason s.instance_id id later (delivered delivers ps) entry
              (record_sync now id (length ps) s) free there u;
      }

  fail_under_way :
      (now before : ℕ) (reason by error : String) (attempted : ℕ) (c : Config)
      → IsUnderWay before reason by c
      → (fail_force_sync now error attempted c).1 ≡ ok tt
  unfolding fail_force_sync finish_force_sync get_force_sync_state
  fail_under_way now before reason by error attempted c u = ground (arith, u.there, u.in_progress)

  send_force_sync-ends :
      (delivers : String → Bool) (now : ℕ) (reason : String) (later : ℕ) (s : SyncCoordinator)
      → s.pending_held ≡ false
      → IsUnderWay now reason s.instance_id s.config
      → let d : Done Value (Unit {0}) = send_force_sync delivers now s in
        WasRefused Value now s.cluster_state s.pending_syncs d
        ⊎ ((p : PeerInfo) × (ps : List PeerInfo) × WasSent Value delivers now reason later
              s.instance_id s.cluster_state
              (p ∷ ps)
              d)
  unfolding send_force_sync
  send_force_sync-ends delivers now reason later s free u =
      by_peers (get_healthy_peers now (minutes 5) s.cluster_state) refl
    where
      d : Done Value (Unit {0})
      d = send_force_sync delivers now s

      by_peers :
          (ps : List PeerInfo)
          → get_healthy_peers now (minutes 5) s.cluster_state ≡ ps
          → WasRefused Value now s.cluster_state s.pending_syncs d
            ⊎ ((p : PeerInfo) × (ps : List PeerInfo) × WasSent Value delivers now reason later
                  s.instance_id s.cluster_state
                  (p ∷ ps)
                  d)
      by_peers [] e =
          let failing =
            fail_under_way now now reason s.instance_id "No healthy peers available" 0 s.config u in
          let q : d.state.config ≡ (fail_force_sync now "No healthy peers available" 0 s.config).0 =
            ground (arith, e, failing) in
          inl (record {
            healthy = e;
            outcome = ground (arith, e, failing);
            has_failed = subst (HasFailed now "No healthy peers available" 0) (sym q) (
                fail-HasFailed now now reason s.instance_id "No healthy peers available" 0 s.config
                  u);
            sent = ground (arith, e, failing);
            pending = ground (arith, e, failing);
          })
      by_peers (p ∷ ps) e =
          let q : d ≡ sent_to delivers now s (p ∷ ps) = ground (arith, e, free) in
          inr (
            p,
            ps,
            subst (WasSent Value delivers now reason later s.instance_id s.cluster_state (p ∷ ps))
                (sym q) (sent_to-WasSent delivers now reason later s (p ∷ ps) free u e),
          )

  -- While the lock of the pending syncs is free, a force sync ends in one of three ways. Without
  -- an enabled cluster it is refused and nothing changes. With no healthy peer it is refused, and
  -- recorded as failed. Otherwise the request is sent to every healthy peer, a pending sync waits
  -- for as many responses, the force sync is recorded as in progress, and when its timeout comes,
  -- at any later time with nothing in between, it is recorded as failed with the number of peers
  -- that the transport accepted the request for.
  pub force_sync-ends :
      (delivers : String → Bool) (now : ℕ) (reason : String) (later : ℕ) (s : SyncCoordinator)
      → s.pending_held ≡ false
      → let d : Done Value (Unit {0}) = force_sync delivers now reason s in
        ((is_cluster_enabled s.config ≡ false) × (d ≡ ends s (err not_enabled)))
        ⊎ ((is_cluster_enabled s.config ≡ true)
            × (WasRefused Value now s.cluster_state s.pending_syncs d
                ⊎ ((p : PeerInfo) × (ps : List PeerInfo) × WasSent Value delivers now reason later
                      s.instance_id s.cluster_state
                      (p ∷ ps)
                      d)))
  unfolding force_sync initiate_force_sync
  force_sync-ends delivers now reason later s free =
      elim (Bool-cases (is_cluster_enabled s.config)) [
        | inr off ↦ inl (off, ground (arith, off))
        | inl on ↦ elim (Option-cases s.config.cluster) [
          | inl e ↦ ground (arith, on, e)
          | inr (k, e) ↦
              let started : SyncCoordinator = record s {
                config = (initiate_force_sync now reason s.instance_id s.config).0;
              } in
              let q : force_sync {Value = Value} delivers now reason s
                  ≡ send_force_sync delivers now started =
                ground (arith, on, e) in
              let u = initiate-IsUnderWay now reason s.instance_id s.config k e in
              inr (
                on,
                subst
                    (λ (d : Done Value (Unit {0})).
                      WasRefused Value now s.cluster_state s.pending_syncs d
                      ⊎ ((p : PeerInfo) × (ps : List PeerInfo) × WasSent Value delivers now reason
                            later s.instance_id s.cluster_state (p ∷ ps) d))
                    (sym q) (send_force_sync-ends delivers now reason later started free u),
              )
        ]
      ]
