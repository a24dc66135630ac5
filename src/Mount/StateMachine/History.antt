-- ===== src/Mount/StateMachine/History.antt =====
-- The bounded history of src/mount/state_machine.rs against the notifications that were sent.
use fuji.Base.{
  ℕ, suc, ◌+◌, ◌-◌, ◌≡◌, refl, sym, ap, ◌∙◌, inl, inr, String, List, [], ◌∷◌, ◌++◌, arith, ltb,
  length, drop, length-append, length-drop, drop-append, drop-suc, Bool-cases,
}
use fuji.Mount.StateMachine.{
  StateTransition, MountStateMachine, new, can_transition, push_history, transition, Request, after,
  run,
}

-- The last `n` entries of a list.
abbrev pub last_n : ℕ → List StateTransition → List StateTransition
last_n n xs = drop (length xs - n) xs

cut-append :
    (n : ℕ) (t : StateTransition) (sent : List StateTransition)
    → last_n n sent ++ t ∷ [] ≡ drop (length sent - n) (sent ++ t ∷ [])
cut-append n t sent = sym (drop-append (length sent - n) sent (t ∷ []) (omega arith))

length-cut :
    (n : ℕ) (t : StateTransition) (sent : List StateTransition)
    → length (last_n n sent ++ t ∷ []) ≡ length sent - (length sent - n) + 1
length-cut n t sent =
    omega (arith, length-append (last_n n sent) (t ∷ []), length-drop (length sent - n) sent)

-- One push on a window of the last `n` entries gives the window of the longer list.
pub push_history-last_n :
    (n : ℕ) (t : StateTransition) (sent : List StateTransition)
    → push_history n t (last_n n sent) ≡ last_n n (sent ++ t ∷ [])
unfolding push_history
push_history-last_n n t sent = elim (Bool-cases (ltb n (length (last_n n sent ++ t ∷ [])))) [
  | inl over ↦
      rw (over, cut-append n t sent, drop-suc)
        (ap (λ k. drop k (sent ++ t ∷ [])) {x = suc (length sent - n)}
          (ground (arith, over, length-cut n t sent, length-append sent (t ∷ []))))
  | inr under ↦
      rw (under, cut-append n t sent)
        (ap (λ k. drop k (sent ++ t ∷ [])) {x = length sent - n}
          (ground (arith, under, length-cut n t sent, length-append sent (t ∷ []))))
]

abbrev pub IsWindow : MountStateMachine → Type 0
IsWindow m = m.history ≡ last_n m.max_history m.notification_sender

after-IsWindow : (r : Request) (m : MountStateMachine) → IsWindow m → IsWindow (after r m)
unfolding transition
after-IsWindow r m h = elim (Bool-cases (can_transition m.state r.new_state)) [
  | inl legal ↦ rw (legal, after, h) (push_history-last_n m.max_history _ m.notification_sender)
  | inr illegal ↦ rw (illegal, after) h
]

run-IsWindow : (rs : List Request) (m : MountStateMachine) → IsWindow m → IsWindow (run rs m)
unfolding run
run-IsWindow [] m h = h
run-IsWindow (r ∷ rs) m h = run-IsWindow rs (after r m) (after-IsWindow r m h)

max_history-run :
    (rs : List Request) (m : MountStateMachine) → (run rs m).max_history ≡ m.max_history
unfolding run transition
max_history-run [] m = refl
max_history-run (r ∷ rs) m = elim (Bool-cases (can_transition m.state r.new_state)) [
  | inl legal ↦ max_history-run rs (after r m) ∙ rw (legal, after)
  | inr illegal ↦ max_history-run rs (after r m) ∙ rw (illegal, after)
]

-- After any calls on a new machine, one after the other, the history is exactly the last hundred of the notifications
-- that were sent, in their order.
pub history-run :
    (mount_id : String) (rs : List Request)
    → (run rs (new mount_id)).history ≡ last_n 100 (run rs (new mount_id)).notification_sender
unfolding new
history-run mount_id rs =
    run-IsWindow rs (new mount_id) refl
    ∙ ap (λ k. last_n k (run rs (new mount_id)).notification_sender)
        (max_history-run rs (new mount_id))
