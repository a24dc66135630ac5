-- ===== src/Mount/StateMachine/Transitions.antt =====
-- What every run of calls of `transition` of src/mount/state_machine.rs keeps.
use fuji.Base.{
  ℕ, ◌≡◌, refl, ◌⊎◌, String, true, false, List, [], ◌∷◌, ◌++◌, arith, ok, Bool-cases, Bool, sym,
  subst, ◌∙◌, inl, inr, ◌↔◌, ◌≢◌,
}
use fuji.Mount.StateMachine.{
  MountState, unmounted, mounting, mounted, failed, unmounting, StateTransition, MountStateMachine,
  new, can_transition, transition, reset, Request, after, run,
}

-- The notifications lead from one state to another by legal transitions of one mount.
abbrev pub IsTrace : String → MountState → List StateTransition → MountState → Type 0
IsTrace id s [] u = s ≡ u
IsTrace id s (t ∷ ts) u =
    (t.mount_id ≡ id)
    × (t.from_state ≡ s)
    × (can_transition s t.to_state ≡ true)
    × IsTrace id t.to_state ts u

IsTrace-append :
    (id : String) (s : MountState) (ts : List StateTransition) {u : MountState}
    (t : StateTransition)
    → IsTrace id s ts u
    → t.mount_id ≡ id
    → t.from_state ≡ u
    → can_transition u t.to_state ≡ true
    → IsTrace id s (ts ++ t ∷ []) t.to_state
IsTrace-append id s [] t h i f c =
    (i, f ∙ sym h, subst (λ v. can_transition v t.to_state ≡ true) (sym h) c, refl)
IsTrace-append id s (x ∷ ts) t h i f c =
    (h.0, h.1, h.2, IsTrace-append id x.to_state ts t h.3 i f c)

abbrev Traced : String → MountStateMachine → Type 0
Traced id m = (m.mount_id ≡ id) × IsTrace id unmounted m.notification_sender m.state

after-Traced :
    (id : String) (r : Request) (m : MountStateMachine) → Traced id m → Traced id (after r m)
unfolding transition
after-Traced id r m h = elim (Bool-cases (can_transition m.state r.new_state)) [
  | inl legal ↦
      rw (legal, after)
        (h.0, IsTrace-append id unmounted m.notification_sender _ h.1 h.0 refl legal)
  | inr illegal ↦ rw (illegal, after) h
]

run-Traced :
    (id : String) (rs : List Request) (m : MountStateMachine) → Traced id m → Traced id (run rs m)
unfolding run
run-Traced id [] m h = h
run-Traced id (r ∷ rs) m h = run-Traced id rs (after r m) (after-Traced id r m h)

-- After any calls on a new machine, one after the other and refused ones included, the
-- notifications that were sent are a path of legal transitions of this mount from `unmounted` to the state of the machine.
pub run-IsTrace :
    (mount_id : String) (rs : List Request)
    → IsTrace mount_id unmounted
        (run rs (new mount_id)).notification_sender
        (run rs (new mount_id)).state
unfolding new
run-IsTrace mount_id rs = (run-Traced mount_id rs (new mount_id) (refl, refl)).1

-- Some notification of the list announces the state.
abbrev pub Announces : MountState → List StateTransition → Type 0
Announces s [] = ⊥
Announces s (t ∷ ts) = (t.to_state ≡ s) ⊎ Announces s ts

abbrev is_up : MountState → Bool
is_up mounted = true
is_up unmounting = true
is_up _ = false

up_needs_mounting :
    (id : String) (s : MountState) (ts : List StateTransition) (u : MountState)
    → IsTrace id s ts u
    → is_up u ≡ true
    → (s ≡ mounting) ⊎ (is_up s ≡ true) ⊎ Announces mounting ts
unfolding can_transition
up_needs_mounting id s [] u h up = inr (inl (rw h up))
up_needs_mounting id s (t ∷ ts) u h up = elim (up_needs_mounting id t.to_state ts u h.3 up) [
  | inl e ↦ inr (inr (inl e))
  | inr (inl v) ↦ from_up s t.to_state h.2 v
  | inr (inr a) ↦ inr (inr (inr a))
]
  where
    from_up :
        (s u : MountState)
        → can_transition s u ≡ true
        → is_up u ≡ true
        → (s ≡ mounting) ⊎ (is_up s ≡ true) ⊎ Announces mounting (t ∷ ts)
    from_up mounting _ c v = inl refl
    from_up mounted _ c v = inr (inl refl)
    from_up unmounting _ c v = inr (inl refl)
    from_up unmounted u c v = ground arith
    from_up failed u c v = ground arith

-- A machine that calls on a new one have led to the mounted or unmounting state has announced
-- `mounting` before: no run of calls mounts without an attempt.
mounted_needs_mounting :
    (mount_id : String) (rs : List Request)
    → ((run rs (new mount_id)).state ≡ mounted) ⊎ ((run rs (new mount_id)).state ≡ unmounting)
    → Announces mounting (run rs (new mount_id)).notification_sender
mounted_needs_mounting mount_id rs h =
    elim (up_needs_mounting mount_id unmounted _ _ (run-IsTrace mount_id rs) (ground arith)) [
      | inl e ↦ cc
      | inr (inl e) ↦ cc
      | inr (inr a) ↦ a
    ]

-- `reset` succeeds exactly if the machine is neither mounting nor mounted.
reset_iff :
    (now : ℕ) (m : MountStateMachine)
    → ((reset now m).1 ≡ ok tt) ↔ ((m.state ≢ mounting) × (m.state ≢ mounted))
unfolding reset
reset_iff now m = (λ h. (λ e. ground arith, λ e. ground arith), λ h. ground arith)
