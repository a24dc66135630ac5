-- ===== src/Sync/Coordinator/Tasks.antt =====
-- The tasks of src/sync/coordinator.rs that handle updates at the same time: the messages of each
-- connection are handled by a task of its own, `handle_config_update` reads the version under one
-- lock and writes the configuration under another, and other tasks may run in between. The other
-- calls that write the configuration do so under the write lock they decide under, or leave the
-- version and the mounts as they are.
pub mod Register
pub mod Newest
pub mod Kept
use fuji.Base.{
  ℕ, zero, suc, String, true, false, Option, none, some, List, [], ◌∷◌, ◌++◌, ◌≡◌, refl, sym, ◌∙◌,
  ap, arith, inl, inr, Bool-cases, Option-cases, ltb, Dict, is_some, if◌then◌else◌,
}
use fuji.Mount.Config.{MountConfig}
use fuji.Config.{MountConfigWrapper}
use fuji.Sync.Protocol.{ConfigUpdate}
use fuji.Sync.Coordinator.{SyncCoordinator}
use fuji.Sync.Coordinator.Handle.{see_sender, is_newer, apply_update}
use fuji.Sync.Coordinator.Run.{Event, step}
use fuji.Sync.Coordinator.Steps.{content, content-stamp_update}
use fuji.Sync.Coordinator.Updates.{offer_all, updates, AllClustered, content-step}

-- `checked` are the updates of the tasks that found them newer and have not written them yet.
pub record Tasks : Type 0 where
  pub coordinator : SyncCoordinator
  pub checked : List ConfigUpdate

abbrev pub begin : SyncCoordinator → Tasks
begin s = record { coordinator = s; checked = [] }

-- A call that no other interrupts, the first step of a task with an update, or the second step of
-- one of the tasks that are between the two.
pub data Turn (Value : Type 0) : Type 0 where
  whole : Event Value → Turn Value
  check : ℕ → String → ConfigUpdate → Turn Value
  write : ℕ → ℕ → Turn Value

abbrev pub nth {ℓ} : {A : Type ℓ} → ℕ → List A → Option A
nth n [] = none
nth zero (x ∷ xs) = some x
nth (suc n) (x ∷ xs) = nth n xs

abbrev pub remove_nth {ℓ} : {A : Type ℓ} → ℕ → List A → List A
remove_nth n [] = []
remove_nth zero (x ∷ xs) = xs
remove_nth (suc n) (x ∷ xs) = x ∷ remove_nth n xs

module _ {Value : Type 0} (to_value : MountConfig → Option Value) (null : Value)
    (sign : String → String) where
  unfoldable pub turn : Turn Value → Tasks → Tasks
  unfolding step is_newer apply_update
  turn (whole e) t = record t { coordinator = step to_value null sign e t.coordinator }
  turn (check now sender update) t =
      let seen = see_sender now sender t.coordinator in
      record {
        coordinator = seen;
        checked = if is_newer update seen then update ∷ t.checked else t.checked;
      }
  turn (write now n) t = elim (nth n t.checked) [
    | some update ↦ record {
      coordinator = apply_update now update t.coordinator;
      checked = remove_nth n t.checked;
    }
    | none ↦ t
  ]

  unfoldable pub turns : List (Turn Value) → Tasks → Tasks
  unfolding turn
  turns [] t = t
  turns (r ∷ rs) t = turns rs (turn r t)
