-- ===== src/Sync/Coordinator/Updates.antt =====
-- What one call of src/sync/coordinator.rs, with no other between its steps, makes of the sync
-- version and the mounts: a register that takes what is newer.
use fuji.Base.{
  ℕ, String, true, Option, List, [], ◌∷◌, ◌≡◌, refl, ap, arith, ltb, Dict, is_some, if◌then◌else◌,
}
use fuji.Mount.Config.{MountConfig}
use fuji.Config.{MountConfigWrapper}
use fuji.Sync.Protocol.{
  SyncMessage, ConfigUpdate, sync_request, sync_response, config_update, sync_complete, heartbeat,
}
use fuji.Sync.Coordinator.{SyncCoordinator}
use fuji.Sync.Coordinator.Handle.{
  see_sender, handle_sync_message, handle_sync_request, then_heartbeat, handle_config_update,
  handle_sync_complete,
}
use fuji.Sync.Coordinator.Run.{Event, message, tick, timed_out, forced, joined, step}
use fuji.Sync.Coordinator.Steps.{
  content, content-stamp_update, config-handle_sync_response, config-check_and_initiate_sync,
  content-time_out, content-force_sync, content-join_cluster,
}

-- The register holds a sync version and the mounts.
abbrev pub offer : ConfigUpdate → ℕ × Dict MountConfigWrapper → ℕ × Dict MountConfigWrapper
offer u (version, mounts) =
    if ltb version u.sync_version then (u.sync_version, u.config.mounts) else (version, mounts)

abbrev pub offer_all : List ConfigUpdate → ℕ × Dict MountConfigWrapper → ℕ × Dict MountConfigWrapper
offer_all [] r = r
offer_all (u ∷ us) r = offer_all us (offer u r)

-- The updates among the messages of a run.
abbrev pub update_in : {Value : Type 0} → SyncMessage Value → List ConfigUpdate → List ConfigUpdate
update_in (config_update u) us = u ∷ us
update_in m us = us

abbrev pub updates : {Value : Type 0} → List (Event Value) → List ConfigUpdate
updates [] = []
updates (message now sender m ∷ es) = update_in m (updates es)
updates (e ∷ es) = updates es

-- Each update brings cluster settings, as those of this program do.
abbrev pub AllClustered : List ConfigUpdate → Type 0
AllClustered [] = Unit
AllClustered (u ∷ us) = (is_some u.config.cluster ≡ true) × AllClustered us

module _ (Value : Type 0) where
  content-handle_config_update :
      (now : ℕ) (u : ConfigUpdate) (s : SyncCoordinator)
      → is_some u.config.cluster ≡ true
      → content (handle_config_update {Value = Value} now u s).state.config
        ≡ offer u (content s.config)
  unfolding handle_config_update
  content-handle_config_update now u s h = ground (arith, content-stamp_update now u u.config h)

module _ {Value : Type 0} (to_value : MountConfig → Option Value) (null : Value)
    (sign : String → String) where
  content-handle_sync_message :
      (now : ℕ) (sender : String) (m : SyncMessage Value) (s : SyncCoordinator)
      → AllClustered (update_in m [])
      → content (handle_sync_message to_value null now sender m s).state.config
        ≡ offer_all (update_in m []) (content s.config)
  unfolding handle_sync_message handle_sync_request then_heartbeat handle_sync_complete
  content-handle_sync_message now sender (sync_request r) s h = ground arith
  content-handle_sync_message now sender (sync_response r) s h =
      ap content (config-handle_sync_response Value now sender r (see_sender now sender s))
  content-handle_sync_message now sender (config_update u) s h =
      content-handle_config_update Value now u (see_sender now sender s) h.0
  content-handle_sync_message now sender (sync_complete c) s h = refl
  content-handle_sync_message now sender (heartbeat b) s h = refl

  pub content-step :
      (e : Event Value) (s : SyncCoordinator)
      → AllClustered (updates (e ∷ []))
      → content (step to_value null sign e s).config
        ≡ offer_all (updates (e ∷ [])) (content s.config)
  unfolding step
  content-step (message now sender m) s h = content-handle_sync_message now sender m s h
  content-step (tick now) s h = ap content (config-check_and_initiate_sync Value now s)
  content-step (timed_out now t) s h = content-time_out Value now t s
  content-step (forced delivers now reason) s h = content-force_sync Value delivers now reason s
  content-step (joined connects now i) s h = content-join_cluster Value sign connects now i s
