-- ===== src/Mount/StateMachine.antt =====
-- src/mount/state_machine.rs: the life of one mount. `transition` takes and releases its locks one
-- by one, for reading the state, writing it, and the history; what happens when two calls cross
-- between these steps is not modelled: a call ends before the next begins. The clock is an argument.
pub mod History
pub mod Transitions
use Prim.Native.String.{◌++◌ as append}
use fuji.Base.{
  ℕ, ◌-◌, String, Bool, true, false, ◌||◌, Option, none, some, List, [], ◌∷◌, ◌++◌, leb, ltb,
  length, drop, if◌then◌else◌, Result, ok, err,
}

pub data MountState : Type 0 where
  unmounted mounting mounted failed unmounting : MountState

pub record StateTransition : Type 0 where
  pub mount_id : String
  pub from_state : MountState
  pub to_state : MountState
  pub timestamp : ℕ
  pub reason : Option String
  pub error : Option String

-- `notification_sender` holds what was handed to the broadcast channel, the oldest first. Whether
-- a receiver is there changes only the log.
pub record MountStateMachine : Type 0 where
  pub state : MountState
  pub mount_id : String
  pub notification_sender : List StateTransition
  pub history : List StateTransition
  pub max_history : ℕ

pub data TransitionError : Type 0 where
  invalid_transition : MountState → MountState → TransitionError

unfoldable pub new : String → MountStateMachine
new mount_id = record {
  state = unmounted;
  mount_id = mount_id;
  notification_sender = [];
  history = [];
  max_history = 100;
}

unfoldable pub can_transition : MountState → MountState → Bool
can_transition unmounted unmounted = true
can_transition mounting mounting = true
can_transition mounted mounted = true
can_transition failed failed = true
can_transition unmounting unmounting = true
can_transition unmounted mounting = true
can_transition mounting mounted = true
can_transition mounting failed = true
can_transition mounted unmounting = true
can_transition mounted failed = true
can_transition failed mounting = true
can_transition failed unmounted = true
can_transition unmounting unmounted = true
can_transition unmounting failed = true
can_transition _ _ = false

-- `history.push(t); if history.len() > max { history.remove(0); }`
unfoldable pub push_history : ℕ → StateTransition → List StateTransition → List StateTransition
push_history max_history t history =
    let pushed = history ++ t ∷ [] in
    if ltb max_history (length pushed) then drop 1 pushed else pushed

unfoldable pub transition :
    ℕ
    → MountState
    → Option String
    → Option String
    → MountStateMachine
    → MountStateMachine × Result TransitionError (Unit {0})
unfolding can_transition
transition now new_state reason error m =
    let t : StateTransition = record {
      mount_id = m.mount_id;
      from_state = m.state;
      to_state = new_state;
      timestamp = now;
      reason = reason;
      error = error;
    } in
    if can_transition m.state new_state
    then (
      record m {
        state = new_state;
        history = push_history m.max_history t m.history;
        notification_sender = m.notification_sender ++ t ∷ [];
      },
      ok tt,
    )
    else (m, err (invalid_transition m.state new_state))

unfoldable pub transition_with_reason :
    ℕ
    → MountState
    → String
    → MountStateMachine
    → MountStateMachine × Result TransitionError (Unit {0})
unfolding transition
transition_with_reason now new_state reason m = transition now new_state (some reason) none m

unfoldable pub is_terminal : MountStateMachine → Bool
is_terminal m = elim m.state [ mounted ↦ true | failed ↦ true | unmounted ↦ true | _ ↦ false ]

unfoldable pub is_active : MountStateMachine → Bool
is_active m = elim m.state [ mounted ↦ true | mounting ↦ true | _ ↦ false ]

unfoldable pub get_last_n : ℕ → MountStateMachine → List StateTransition
get_last_n n m =
    let len = length m.history in if leb len n then m.history else drop (len - n) m.history

unfoldable pub transition_with_error :
    ℕ
    → MountState
    → String
    → MountStateMachine
    → MountStateMachine × Result TransitionError (Unit {0})
unfolding transition
transition_with_error now new_state error m =
    transition now new_state (some (append "Error: " error)) (some error) m

unfoldable pub reset : ℕ → MountStateMachine → MountStateMachine × Result TransitionError (Unit {0})
unfolding transition_with_reason
reset now m = transition_with_reason now unmounted "Resetting mount state" m

-- A call of `transition`: the clock, the state that is asked for, its reason and its error.
pub record Request : Type 0 where
  pub now : ℕ
  pub new_state : MountState
  pub reason : Option String
  pub error : Option String

abbrev pub after : Request → MountStateMachine → MountStateMachine
after r m = (transition r.now r.new_state r.reason r.error m).0

-- A caller that goes on after an error.
unfoldable pub run : List Request → MountStateMachine → MountStateMachine
run [] m = m
run (r ∷ rs) m = run rs (after r m)
