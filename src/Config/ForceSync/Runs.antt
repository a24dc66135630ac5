-- ===== src/Config/ForceSync/Runs.antt =====
-- Runs of the force sync operations of src/config/mod.rs.
use fuji.Base.{
  ℕ, ◌+◌, ◌%◌, ◌^◌, ◌≤◌, ◌<◌, ◌≡◌, refl, String, true, false, none, some, List, [], ◌∷◌, arith, ◌∙◌,
  inl, inr, Bool-cases, Option-cases, Result, ok, err,
}
use fuji.Config.{Config, ForceSyncResult, success, failed}
use fuji.Config.ForceSync.{
  ForceSyncError, initiate_force_sync, finish_force_sync, complete_force_sync, fail_force_sync,
  get_force_sync_state,
}

pub data Call : Type 0 where
  initiate : ℕ → String → String → Call
  complete : ℕ → ℕ → ℕ → Call
  fail : ℕ → String → ℕ → Call

unfoldable pub call : Call → Config → Config × Result ForceSyncError (Unit {0})
unfolding complete_force_sync fail_force_sync
call (initiate now reason by) c = initiate_force_sync now reason by c
call (complete now peers_synced conflicts_resolved) c =
    complete_force_sync now peers_synced conflicts_resolved c
call (fail now error peers_attempted) c = fail_force_sync now error peers_attempted c

-- A configuration with the numbers of force syncs that were started and ended.
pub record Tally : Type 0 where
  pub config : Config
  pub started : ℕ
  pub ended : ℕ

abbrev succeeded : Result ForceSyncError (Unit {0}) → ℕ
succeeded (ok u) = 1
succeeded (err e) = 0

unfoldable pub step : Call → Tally → Tally
unfolding call
step (initiate now reason by) t =
    let (c, result) = call (initiate now reason by) t.config in
    record { config = c; started = t.started + succeeded result; ended = t.ended }
step end t =
    let (c, result) = call end t.config in
    record { config = c; started = t.started; ended = t.ended + succeeded result }

unfoldable pub run : List Call → Tally → Tally
unfolding step
run [] t = t
run (x ∷ calls) t = run calls (step x t)

-- Whether a force sync is in progress, as a number.
unfoldable pub under_way : Config → ℕ
unfolding get_force_sync_state
under_way c = elim (get_force_sync_state c) [
  | some s ↦ elim s.sync_in_progress [ true ↦ 1 | false ↦ 0 ]
  | none ↦ 0
]

unfoldable pub attempts : Config → ℕ
unfolding get_force_sync_state
attempts c = elim (get_force_sync_state c) [ some s ↦ s.attempt_count | none ↦ 0 ]

record Balanced (n : ℕ) (t : Tally) : Type 0 where
  ends : t.ended + under_way t.config ≤ t.started
  counts : attempts t.config ≡ (n + t.started) % 2 ^ 32

finish_lem :
    (result : ForceSyncResult) (c : Config)
    → (succeeded (finish_force_sync result c).1 + under_way (finish_force_sync result c).0
        ≡ under_way c)
      × (attempts (finish_force_sync result c).0 ≡ attempts c)
unfolding finish_force_sync under_way attempts
finish_lem result c = elim (Option-cases c.cluster) [
  | inl e ↦ rw e (refl, refl)
  | inr (cluster, e) ↦ elim (Bool-cases cluster.sync_metadata.force_sync_state.sync_in_progress) [
    | inl f ↦ rw (e, f) (refl, refl)
    | inr f ↦ rw (e, f) (refl, refl)
  ]
]

initiate_lem :
    (now : ℕ) (reason by : String) (c : Config)
    → (under_way (initiate_force_sync now reason by c).0
        ≤ under_way c + succeeded (initiate_force_sync now reason by c).1)
      × (attempts c < 2 ^ 32
          → attempts (initiate_force_sync now reason by c).0
            ≡ (attempts c + succeeded (initiate_force_sync now reason by c).1) % 2 ^ 32)
unfolding initiate_force_sync under_way attempts
initiate_lem now reason by c = elim (Option-cases c.cluster) [
  | inl e ↦ rw e (omega arith, λ h. omega (arith, h))
  | inr (cluster, e) ↦ rw e (omega arith, λ h. refl)
]

step-Balanced : (n : ℕ) (x : Call) (t : Tally) → Balanced n t → Balanced n (step x t)
unfolding step
step-Balanced n (initiate now reason by) t b =
    let (u, a) = initiate_lem now reason by t.config in
    record { ends = omega (arith, u, b.ends); counts = omega (arith, a, b.counts) }
step-Balanced n (complete now p r) t b =
    let (u, a) = finish_lem (success now p r) t.config in
    record { ends = omega (arith, u, b.ends); counts = a ∙ b.counts }
step-Balanced n (fail now e p) t b =
    let (u, a) = finish_lem (failed now e p) t.config in
    record { ends = omega (arith, u, b.ends); counts = a ∙ b.counts }

run-Balanced : (n : ℕ) (calls : List Call) (t : Tally) → Balanced n t → Balanced n (run calls t)
unfolding run
run-Balanced n [] t b = b
run-Balanced n (x ∷ calls) t b = run-Balanced n calls (step x t) (step-Balanced n x t b)

abbrev pub begin : Config → Tally
begin c = record { config = c; started = 0; ended = 0 }

-- From a configuration in which no force sync is in progress and the `u32` count of attempts fits,
-- after any calls: no more force syncs have ended than were started, one fewer if one is in
-- progress, and the count of attempts has grown by the number that were started, modulo 2 ^ 32.
pub force_sync_run :
    (calls : List Call) (c : Config)
    → under_way c ≡ 0
    → attempts c < 2 ^ 32
    → ((run calls (begin c)).ended + under_way (run calls (begin c)).config
        ≤ (run calls (begin c)).started)
      × (attempts (run calls (begin c)).config
          ≡ (attempts c + (run calls (begin c)).started) % 2 ^ 32)
force_sync_run calls c idle fits =
    let b =
      run-Balanced (attempts c) calls (begin c)
        (record { ends = omega (arith, idle); counts = omega (arith, fits) }) in
    (b.ends, b.counts)
