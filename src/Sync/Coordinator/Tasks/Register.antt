-- ===== src/Sync/Coordinator/Tasks/Register.antt =====
-- The register that the interleaved tasks of src/sync/coordinator.rs implement.
use fuji.Base.{
  ℕ, String, true, Option, none, some, List, [], ◌∷◌, ◌++◌, ◌≡◌, refl, ◌∙◌, ap, subst, inl, inr,
  Bool-cases, Option-cases, ltb, Dict, is_some, if◌then◌else◌, zero, suc,
}
use fuji.Mount.Config.{MountConfig}
use fuji.Config.{MountConfigWrapper}
use fuji.Sync.Protocol.{ConfigUpdate}
use fuji.Sync.Coordinator.Handle.{see_sender, is_newer, apply_update}
use fuji.Sync.Coordinator.Steps.{content, content-stamp_update}
use fuji.Sync.Coordinator.Updates.{offer_all, updates, AllClustered, content-step}
use fuji.Sync.Coordinator.Tasks.{Tasks, Turn, whole, check, write, nth, remove_nth, turn, turns}

-- The updates that a turn brings.
abbrev pub received : {Value : Type 0} → Turn Value → List ConfigUpdate
received (whole e) = updates (e ∷ [])
received (check now sender update) = update ∷ []
received (write now n) = []

abbrev pub all_received : {Value : Type 0} → List (Turn Value) → List ConfigUpdate
all_received [] = []
all_received (r ∷ rs) = received r ++ all_received rs

-- A register with late writers: what it holds, and what is to be written without another look.
pub record Register : Type 0 where
  pub held : ℕ × Dict MountConfigWrapper
  pub late : List ConfigUpdate

abbrev pub act : {Value : Type 0} → Turn Value → Register → Register
act (whole e) r = record r { held = offer_all (updates (e ∷ [])) r.held }
act (check now sender update) r = record r {
  late = if ltb (r.held.0) update.sync_version then update ∷ r.late else r.late;
}
act (write now n) r = elim (nth n r.late) [
  | some update ↦ record {
    held = (update.sync_version, update.config.mounts);
    late = remove_nth n r.late;
  }
  | none ↦ r
]

abbrev pub act_all : {Value : Type 0} → List (Turn Value) → Register → Register
act_all [] r = r
act_all (t ∷ ts) r = act_all ts (act t r)

abbrev pub register_of : Tasks → Register
register_of t = record { held = content t.coordinator.config; late = t.checked }

module _ (P : ConfigUpdate → Type 0) where
  unfoldable pub All : List ConfigUpdate → Type 0
  All [] = Unit
  All (u ∷ us) = P u × All us

  pub All-append : (us vs : List ConfigUpdate) → All (us ++ vs) → All us × All vs
  unfolding All
  All-append [] vs h = (tt, h)
  All-append (u ∷ us) vs h = let (a, b) = All-append us vs h.1 in ((h.0, a), b)

  pub All-nth :
      (n : ℕ) (us : List ConfigUpdate) (u : ConfigUpdate)
      → All us
      → nth n us ≡ some u
      → P u × All (remove_nth n us)
  unfolding All
  All-nth n [] u h e = cc
  All-nth zero (v ∷ us) u h e = (subst On e h.0, h.1)
    where
      On : Option ConfigUpdate → Type 0
      On none = Unit
      On (some w) = P w
  All-nth (suc n) (v ∷ us) u h e = let (c, r) = All-nth n us u h.1 e in (c, (h.0, r))

AllClustered-append :
    (us vs : List ConfigUpdate) → AllClustered (us ++ vs) → AllClustered us × AllClustered vs
AllClustered-append [] vs h = (tt, h)
AllClustered-append (u ∷ us) vs h = let (a, b) = AllClustered-append us vs h.1 in ((h.0, a), b)

abbrev Clustered : Option ConfigUpdate → Type 0
Clustered none = Unit
Clustered (some u) = is_some u.config.cluster ≡ true

nth-AllClustered :
    (n : ℕ) (us : List ConfigUpdate) (u : ConfigUpdate)
    → AllClustered us
    → nth n us ≡ some u
    → (is_some u.config.cluster ≡ true) × AllClustered (remove_nth n us)
nth-AllClustered n [] u h e = cc
nth-AllClustered zero (v ∷ us) u h e = (subst Clustered e h.0, h.1)
nth-AllClustered (suc n) (v ∷ us) u h e =
    let (c, r) = nth-AllClustered n us u h.1 e in (c, (h.0, r))

module _ {Value : Type 0} (to_value : MountConfig → Option Value) (null : Value)
    (sign : String → String) where
  turn-AllClustered :
      (r : Turn Value) (t : Tasks)
      → AllClustered (received r)
      → AllClustered t.checked
      → AllClustered (turn to_value null sign r t).checked
  unfolding turn
  turn-AllClustered (whole e) t h k = k
  turn-AllClustered (check now sender u) t h k =
      elim (Bool-cases (is_newer u (see_sender now sender t.coordinator))) [
        | inl e ↦ rw (turn, e) (h.0, k)
        | inr e ↦ rw (turn, e) k
      ]
  turn-AllClustered (write now n) t h k = elim (Option-cases (nth n t.checked)) [
    | inl e ↦ rw (turn, e) k
    | inr (u, e) ↦ rw (turn, e) (nth-AllClustered n t.checked u k e).1
  ]

  register-turn :
      (r : Turn Value) (t : Tasks)
      → AllClustered (received r)
      → AllClustered t.checked
      → register_of (turn to_value null sign r t) ≡ act r (register_of t)
  unfolding turn is_newer apply_update
  register-turn (whole e) t h k =
      ap (λ c. record { held = c; late = t.checked })
        (content-step to_value null sign e t.coordinator h)
  register-turn (check now sender u) t h k = refl
  register-turn (write now n) t h k = elim (Option-cases (nth n t.checked)) [
    | inl e ↦ rw (turn, e) refl
    | inr (u, e) ↦
        rw (turn, e)
          (ap (λ c. record { held = c; late = remove_nth n t.checked })
            (content-stamp_update now u u.config (nth-AllClustered n t.checked u k e).0))
  ]

  -- However the steps of the tasks interleave, if each update brings cluster settings, the sync
  -- version, the mounts and the updates under way are those of a register with late writers: a call
  -- that nothing interrupts offers its update to the register, a check lines an update up if it is
  -- newer than what is held then, and a write stores an update of the line without another look.
  -- No other call changes any of these.
  pub turns-register :
      (rs : List (Turn Value)) (t : Tasks)
      → AllClustered (all_received rs)
      → AllClustered t.checked
      → register_of (turns to_value null sign rs t) ≡ act_all rs (register_of t)
  unfolding turns
  turns-register [] t h k = refl
  turns-register (r ∷ rs) t h k =
      let (first, later) = AllClustered-append (received r) (all_received rs) h in
      turns-register rs (turn to_value null sign r t) later (turn-AllClustered r t first k)
      ∙ ap (act_all rs) (register-turn r t first k)
