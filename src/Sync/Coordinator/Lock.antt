-- ===== src/Sync/Coordinator/Lock.antt =====
-- The lock of the pending syncs in src/sync/coordinator.rs: the handler of the last response keeps
-- it, and waits for it.
use fuji.Base.{
  ℕ, ◌+◌, String, Bool, true, false, Option, some, List, [], ◌∷◌, ◌++◌, ◌≡◌, refl, ◌∙◌, ap, arith,
  Dict, length, length-append, get, insert, get-insert, eq_refl,
}
use fuji.Mount.Config.{MountConfig}
use fuji.Sync.Protocol.{
  SyncMessage, SyncResponse, sync_request, sync_response, config_update, sync_complete, heartbeat,
}
use fuji.Sync.Merge.Configs.{default_merger}
use fuji.Sync.Merge.Grouping.{AreMaps}
use fuji.Sync.Merge.Versions.{merge_configs-mounts}
use fuji.Sync.Coordinator.{
  PendingSync, SyncCoordinator, waits, Done, sync_timeout, force_sync_timeout,
}
use fuji.Sync.Coordinator.Apply.{perform_merge}
use fuji.Sync.Coordinator.Handle.{
  see_sender, add_response, finish_sync, handle_sync_response, handle_sync_message,
  handle_sync_request, then_heartbeat, handle_config_update, handle_sync_complete,
}
use fuji.Sync.Coordinator.Initiate.{check_and_initiate_sync, time_out, send_force_sync, force_sync}
use fuji.Sync.Coordinator.Join.{join_cluster}
use fuji.Sync.Coordinator.Run.{Event, message, tick, timed_out, forced, joined, step, run}
use fuji.Sync.Coordinator.Steps.{state-connect}

-- The lock and what it guards.
abbrev guarded : SyncCoordinator → Bool × Dict PendingSync
guarded s = (s.pending_held, s.pending_syncs)

module _ (Value : Type 0) where
  -- With all configurations at hand the merge is computed, and then the lock is waited for.
  finish_sync-waits :
      (now : ℕ) (request_id : String) (p : PendingSync) (s : SyncCoordinator)
      → AreMaps (p.peer_configs ++ (s.instance_id, s.config) ∷ [])
      → ((finish_sync {Value = Value} now request_id p s).outcome ≡ waits)
        × ((finish_sync {Value = Value} now request_id p s).state ≡ record s {
          pending_syncs = insert request_id (record p { peer_configs = [] }) s.pending_syncs;
          pending_held = true;
        })
  unfolding finish_sync perform_merge
  finish_sync-waits now request_id p s maps =
      let (m, e, _) =
        merge_configs-mounts default_merger now (p.peer_configs ++ (s.instance_id, s.config) ∷ [])
          maps in
      (ground (arith, e), ground (arith, e))

  handle_sync_response-waits :
      (now : ℕ) (sender_id : String) (r : SyncResponse Value) (p : PendingSync)
      (s : SyncCoordinator)
      → s.pending_held ≡ false
      → get r.request_id s.pending_syncs ≡ some p
      → length p.responded_peers + 1 ≡ p.total_peers
      → handle_sync_response now sender_id r s
        ≡ finish_sync now r.request_id (add_response sender_id r.config p) s
  unfolding handle_sync_response add_response
  handle_sync_response-waits now sender_id r p s free e full =
      rw (handle_sync_response, free, e)
        (ground (arith, full, length-append p.responded_peers (sender_id ∷ [])))

module _ {Value : Type 0} (to_value : MountConfig → Option Value) (null : Value)
    (sign : String → String) where
  guarded-handle_sync_message :
      (now : ℕ) (sender : String) (m : SyncMessage Value) (s : SyncCoordinator)
      → s.pending_held ≡ true
      → guarded (handle_sync_message to_value null now sender m s).state ≡ guarded s
  unfolding handle_sync_message handle_sync_request then_heartbeat handle_config_update
      handle_sync_response handle_sync_complete
  guarded-handle_sync_message now sender (sync_request r) s h = ground arith
  guarded-handle_sync_message now sender (sync_response r) s h = ground (arith, h)
  guarded-handle_sync_message now sender (config_update u) s h = ground arith
  guarded-handle_sync_message now sender (sync_complete c) s h = refl
  guarded-handle_sync_message now sender (heartbeat b) s h = refl

  guarded-step :
      (e : Event Value) (s : SyncCoordinator)
      → s.pending_held ≡ true
      → guarded (step to_value null sign e s) ≡ guarded s
  unfolding step check_and_initiate_sync time_out send_force_sync force_sync join_cluster
  guarded-step (message now sender m) s h = guarded-handle_sync_message now sender m s h
  guarded-step (tick now) s h = ground (arith, h)
  guarded-step (timed_out now (sync_timeout i)) s h = ground (arith, h)
  guarded-step (timed_out now (force_sync_timeout i n)) s h = ground (arith, h)
  guarded-step (forced delivers now reason) s h = ground (arith, h)
  guarded-step (joined connects now i) s h = ground (arith, h, state-connect Value connects)

  guarded-run :
      (es : List (Event Value)) (s : SyncCoordinator)
      → s.pending_held ≡ true
      → guarded (run to_value null sign es s) ≡ guarded s
  unfolding run
  guarded-run [] s h = refl
  guarded-run (e ∷ es) s h =
      let q = guarded-step e s h in
      guarded-run es (step to_value null sign e s) (ap (λ (g : Bool × Dict PendingSync). g.0) q ∙ h)
      ∙ q

  held_response-waits :
      (now : ℕ) (sender_id : String) (r : SyncResponse Value) (s : SyncCoordinator)
      → s.pending_held ≡ true
      → (handle_sync_message to_value null now sender_id (sync_response r) s).outcome ≡ waits
  unfolding handle_sync_message then_heartbeat handle_sync_response
  held_response-waits now sender_id r s h = ground (arith, h)

  -- When the last expected response to a sync arrives while the lock of the pending syncs is free,
  -- and each configuration has one entry per mount identifier, the handler waits and leaves the
  -- configuration as it is. After any further calls the lock is still held, the entry of the sync
  -- is still there with its configurations taken out, and every response waits.
  pub last_response-waits :
      (now : ℕ) (sender_id : String) (r : SyncResponse Value) (p : PendingSync)
      (s : SyncCoordinator) (es : List (Event Value)) (later : ℕ) (from : String)
      (next : SyncResponse Value)
      → s.pending_held ≡ false
      → get r.request_id s.pending_syncs ≡ some p
      → length p.responded_peers + 1 ≡ p.total_peers
      → AreMaps ((add_response sender_id r.config p).peer_configs ++ (s.instance_id, s.config) ∷ [])
      → let d = handle_sync_message to_value null now sender_id (sync_response r) s in
        let after = run to_value null sign es d.state in
        (d.outcome ≡ waits)
        × (d.state.config ≡ s.config)
        × (after.pending_held ≡ true)
        × (get r.request_id after.pending_syncs
            ≡ some (record (add_response sender_id r.config p) { peer_configs = [] }))
        × ((handle_sync_message to_value null later from (sync_response next) after).outcome
            ≡ waits)
  unfolding handle_sync_message then_heartbeat
  last_response-waits now sender_id r p s es later from next free e full maps =
      let seen = see_sender now sender_id s in
      let p' = add_response sender_id r.config p in
      let c = handle_sync_response-waits Value now sender_id r p seen free e full in
      let (w, q) = finish_sync-waits Value now r.request_id p' seen maps in
      let record_p : PendingSync = record p' { peer_configs = [] } in
      let blocked : SyncCoordinator = record seen {
        pending_syncs = insert r.request_id record_p seen.pending_syncs;
        pending_held = true;
      } in
      let st : (handle_sync_response now sender_id r seen).state ≡ blocked =
        ap (λ (d : Done Value (Unit {0})). d.state) c ∙ q in
      let g = guarded-run es blocked refl in
      let held =
        ap (λ (x : SyncCoordinator). (run to_value null sign es x).pending_held) st
        ∙ ap (λ (y : Bool × Dict PendingSync). y.0) g in
      (
        ground (arith, c, w),
        ap (λ (x : SyncCoordinator). x.config) st,
        held,
        ap (λ (x : SyncCoordinator). get r.request_id (run to_value null sign es x).pending_syncs)
              st
            ∙ ap (λ (y : Bool × Dict PendingSync). get r.request_id y.1) g
            ∙ ground (
              arith,
              get-insert r.request_id r.request_id record_p seen.pending_syncs,
              eq_refl r.request_id,
            ),
        held_response-waits later from next
            (run to_value null sign es (handle_sync_response now sender_id r seen).state) held,
      )
