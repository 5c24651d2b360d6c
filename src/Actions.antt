-- ===== src/Actions.antt =====
-- Goals of actions: goal_state_machine.c and goal_handle.c (rcl/rcl_action/src/rcl_action), and
-- ServerGoalHandleBase (rclcpp/rclcpp_action/src/server_goal_handle.cpp). Handles are initialised, so
-- their states are those of the enumeration.
pub mod Goals
pub mod Server
pub mod Expire
pub mod Cancel
pub mod Accept
mod Tests
use pmros.Base.{ℕ, ◌+◌, Bool, true, false, ◌&&◌, ◌||◌, not, ◌==◌, if◌then◌else◌, Option, none, some}
use pmros.Base.Bytes.{Bytes}
use pmros.Base.Int.{ℤ}
use pmros.Base.Results.{Result, ok, err, runtime_error}

-- rcl_action_goal_state_t
pub data GoalState : Type 0 where
  unknown accepted executing canceling succeeded canceled aborted : GoalState

-- rcl_action_goal_event_t, and the values past its last one.
pub data GoalEvent : Type 0 where
  execute cancel_goal succeed abort cancel_done : GoalEvent
  other_event : ℕ → GoalEvent

abbrev pub state_number : GoalState → ℕ
state_number unknown = 0
state_number accepted = 1
state_number executing = 2
state_number canceling = 3
state_number succeeded = 4
state_number canceled = 5
state_number aborted = 6

abbrev pub event_number : GoalEvent → ℕ
event_number execute = 0
event_number cancel_goal = 1
event_number succeed = 2
event_number abort = 3
event_number cancel_done = 4
event_number (other_event n) = 5 + n

abbrev pub is_state : GoalState → GoalState → Bool
is_state a b = state_number a == state_number b

abbrev is_event : GoalEvent → GoalEvent → Bool
is_event a b = event_number a == event_number b

unfoldable pub execute_event_handler : GoalState → GoalEvent → GoalState
execute_event_handler state event =
    if not (is_state accepted state) || not (is_event execute event) then unknown else executing

unfoldable pub cancel_goal_event_handler : GoalState → GoalEvent → GoalState
cancel_goal_event_handler state event =
    if (not (is_state accepted state) && not (is_state executing state))
      || not (is_event cancel_goal event)
    then unknown
    else canceling

unfoldable pub succeed_event_handler : GoalState → GoalEvent → GoalState
succeed_event_handler state event =
    if (not (is_state executing state) && not (is_state canceling state))
      || not (is_event succeed event)
    then unknown
    else succeeded

unfoldable pub abort_event_handler : GoalState → GoalEvent → GoalState
abort_event_handler state event =
    if (not (is_state executing state) && not (is_state canceling state))
      || not (is_event abort event)
    then unknown
    else aborted

unfoldable pub canceled_event_handler : GoalState → GoalEvent → GoalState
canceled_event_handler state event =
    if not (is_state canceling state) || not (is_event cancel_done event) then unknown else canceled

-- _goal_state_transition_map; `none` where it holds a null pointer.
unfoldable pub goal_state_transition_map :
    GoalState → GoalEvent → Option (GoalState → GoalEvent → GoalState)
goal_state_transition_map accepted execute = some execute_event_handler
goal_state_transition_map accepted cancel_goal = some cancel_goal_event_handler
goal_state_transition_map executing cancel_goal = some cancel_goal_event_handler
goal_state_transition_map executing succeed = some succeed_event_handler
goal_state_transition_map executing abort = some abort_event_handler
goal_state_transition_map canceling succeed = some succeed_event_handler
goal_state_transition_map canceling abort = some abort_event_handler
goal_state_transition_map canceling cancel_done = some canceled_event_handler
goal_state_transition_map state event = none

abbrev is_other : GoalEvent → Bool
is_other (other_event n) = true
is_other event = false

unfoldable pub transition_goal_state : GoalState → GoalEvent → GoalState
transition_goal_state state event =
    if is_other event then unknown else elim (goal_state_transition_map state event) [
      | none ↦ unknown
      | some handler ↦ handler state event
    ]

-- The return codes RCL_RET_OK and RCL_RET_ACTION_GOAL_EVENT_INVALID.
pub data GoalRet : Type 0 where
  goal_ok goal_event_invalid : GoalRet

-- action_msgs/msg/GoalInfo
pub record GoalInfo : Type 0 where
  pub uuid : Bytes
  pub stamp_sec : ℤ
  pub stamp_nanosec : ℕ

pub record GoalHandle : Type 0 where
  pub info : GoalInfo
  pub state : GoalState

unfoldable pub goal_handle_init : GoalInfo → GoalHandle
goal_handle_init info = record { info = info; state = accepted }

unfoldable pub update_goal_state : GoalEvent → GoalHandle → GoalRet × GoalHandle
update_goal_state event goal =
    let new_state = transition_goal_state goal.state event in
    if is_state unknown new_state
    then (goal_event_invalid, goal)
    else (goal_ok, record goal { state = new_state })

unfoldable pub is_active : GoalHandle → Bool
is_active goal =
    is_state accepted goal.state || is_state executing goal.state || is_state canceling goal.state

unfoldable pub is_cancelable : GoalHandle → Bool
is_cancelable goal = is_state canceling (transition_goal_state goal.state cancel_goal)

abbrev throw_unless_ok : GoalRet × GoalHandle → Result (Unit {0}) × GoalHandle
throw_unless_ok (goal_ok, goal) = (ok tt, goal)
throw_unless_ok (ret, goal) = (err runtime_error, goal)

-- _execute, _cancel_goal, _succeed, _abort and _canceled: the same call with an event for each.
unfoldable pub apply_event : GoalEvent → GoalHandle → Result (Unit {0}) × GoalHandle
apply_event event goal = throw_unless_ok (update_goal_state event goal)

unfoldable pub is_canceling : GoalHandle → Bool
is_canceling goal = is_state canceling goal.state

unfoldable pub is_executing : GoalHandle → Bool
is_executing goal = is_state executing goal.state

abbrev cancel_if_canceling : GoalHandle → Bool × GoalHandle
cancel_if_canceling goal =
    if is_state canceling goal.state
    then (
      elim (update_goal_state cancel_done goal).0 [ goal_ok ↦ true | goal_event_invalid ↦ false ],
      (update_goal_state cancel_done goal).1,
    )
    else (false, goal)

abbrev try_update : GoalRet × GoalHandle → Bool × GoalHandle
try_update (goal_ok, goal) = cancel_if_canceling goal
try_update (goal_event_invalid, goal) = (false, goal)

unfoldable pub try_canceling : GoalHandle → Bool × GoalHandle
try_canceling goal =
    if is_cancelable goal
    then try_update (update_goal_state cancel_goal goal)
    else cancel_if_canceling goal
