-- ===== src/Tests/StateMachine.antt =====
-- Calls on a state machine of src/mount/state_machine.rs.
use fuji.Base.{◌≡◌, refl, none, List, [], ◌∷◌, length}
use fuji.Mount.StateMachine.{
  MountState, unmounted, mounting, mounted, unmounting, Request, new, push_history, transition, run,
  get_last_n,
}
use fuji.Mount.StateMachine.History.{last_n, history-run}
use fuji.Mount.StateMachine.Transitions.{IsTrace, run-IsTrace}

abbrev ask : MountState → Request
ask s = record { now = 7; new_state = s; reason = none; error = none }

abbrev script : List Request
script = ask mounting ∷ ask unmounting ∷ ask mounted ∷ []

script_mounts : (run script (new "m")).state ≡ mounted
unfolding run transition new push_history
script_mounts = refl

-- The refused request left no trace.
script_history : length (run script (new "m")).history ≡ 2
unfolding run transition new push_history
script_history = refl

last_two : length (get_last_n 1 (run script (new "m"))) ≡ 1
unfolding get_last_n run transition new push_history
last_two = refl

history-run_example :
    (run script (new "m")).history ≡ last_n 100 (run script (new "m")).notification_sender
history-run_example = history-run "m" script

run-IsTrace_example :
    IsTrace "m" unmounted (run script (new "m")).notification_sender (run script (new "m")).state
run-IsTrace_example = run-IsTrace "m" script
