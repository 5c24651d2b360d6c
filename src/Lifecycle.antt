-- ===== src/Lifecycle.antt =====
-- The state machine of lifecycle nodes (rcl/rcl_lifecycle/src/rcl_lifecycle.c and transition_map.c).
-- A pointer to a state is its position in the array of states, which is not reallocated once there
-- are transitions; allocations succeed. The constants of lifecycle_msgs are enumerations.
pub mod Default
pub mod Node
pub mod Services
pub mod Diagram
pub mod Steps
pub mod Refine
pub mod Runs
pub mod Safety
mod Tests
use pmros.Base.{
  ℕ, suc, ◌+◌, Bool, true, false, ◌==◌, if◌then◌else◌, Option, none, some, List, [], ◌∷◌, ◌++◌,
  length, get_elem?, set,
}
use pmros.Base.Bytes.{Bytes, eq_bytes}

-- lifecycle_msgs/msg/State. The numbers below only tell the constants apart.
pub data StateId : Type 0 where
  unknown unconfigured inactive active finalized configuring cleaningup shuttingdown : StateId
  activating deactivating errorprocessing : StateId

abbrev pub state_number : StateId → ℕ
state_number unknown = 0
state_number unconfigured = 1
state_number inactive = 2
state_number active = 3
state_number finalized = 4
state_number configuring = 5
state_number cleaningup = 6
state_number shuttingdown = 7
state_number activating = 8
state_number deactivating = 9
state_number errorprocessing = 10

abbrev pub same_state : StateId → StateId → Bool
same_state a b = state_number a == state_number b

-- lifecycle_msgs/msg/Transition; a request may carry another number.
pub data TransitionId : Type 0 where
  configure cleanup activate deactivate : TransitionId
  unconfigured_shutdown inactive_shutdown active_shutdown : TransitionId
  on_configure_success on_configure_failure on_configure_error : TransitionId
  on_cleanup_success on_cleanup_failure on_cleanup_error : TransitionId
  on_activate_success on_activate_failure on_activate_error : TransitionId
  on_deactivate_success on_deactivate_failure on_deactivate_error : TransitionId
  on_shutdown_success on_shutdown_failure on_shutdown_error : TransitionId
  on_error_success on_error_failure on_error_error : TransitionId
  other_transition : ℕ → TransitionId

abbrev pub transition_number : TransitionId → ℕ
transition_number configure = 0
transition_number cleanup = 1
transition_number activate = 2
transition_number deactivate = 3
transition_number unconfigured_shutdown = 4
transition_number inactive_shutdown = 5
transition_number active_shutdown = 6
transition_number on_configure_success = 7
transition_number on_configure_failure = 8
transition_number on_configure_error = 9
transition_number on_cleanup_success = 10
transition_number on_cleanup_failure = 11
transition_number on_cleanup_error = 12
transition_number on_activate_success = 13
transition_number on_activate_failure = 14
transition_number on_activate_error = 15
transition_number on_deactivate_success = 16
transition_number on_deactivate_failure = 17
transition_number on_deactivate_error = 18
transition_number on_shutdown_success = 19
transition_number on_shutdown_failure = 20
transition_number on_shutdown_error = 21
transition_number on_error_success = 22
transition_number on_error_failure = 23
transition_number on_error_error = 24
transition_number (other_transition n) = 25 + n

abbrev pub same_transition : TransitionId → TransitionId → Bool
same_transition a b = transition_number a == transition_number b

pub record Transition : Type 0 where
  pub label : Bytes
  pub id : TransitionId
  pub start : Option ℕ
  pub goal : Option ℕ

pub record State : Type 0 where
  pub label : Bytes
  pub id : StateId
  pub valid_transitions : List Transition

pub record TransitionMap : Type 0 where
  pub states : List State
  pub transitions : List Transition

pub data Ret : Type 0 where
  ret_ok ret_error : Ret

-- A start that is null, which C does not define, counts as one that is not registered.
pub record StateMachine : Type 0 where
  pub current_state : Option ℕ
  pub transition_map : TransitionMap
  pub notifications : List (Option ℕ × Option ℕ)

abbrev later : Option ℕ → Option ℕ
later none = none
later (some i) = some (suc i)

unfoldable pub get_state : StateId → List State → Option ℕ
get_state id [] = none
get_state id (s ∷ ss) = if same_state s.id id then some 0 else later (get_state id ss)

unfoldable pub register_state : State → TransitionMap → Ret × TransitionMap
register_state state map = elim (get_state state.id map.states) [
  | none ↦ (ret_ok, record map { states = map.states ++ (state ∷ []) })
  | some i ↦ (ret_error, map)
]

abbrev pub state_at : TransitionMap → Option ℕ → Option State
state_at map none = none
state_at map (some i) = get_elem? map.states i

-- A copy of the transition goes to the state it starts from.
abbrev pub add_valid : Transition → List State → ℕ → List State
add_valid t states i = elim (get_elem? states i) [
  | none ↦ states
  | some s ↦ set states i (record s { valid_transitions = s.valid_transitions ++ (t ∷ []) })
]

abbrev start_id : TransitionMap → Transition → Option StateId
start_id map t = elim (state_at map t.start) [ none ↦ none | some s ↦ some s.id ]

abbrev registered : TransitionMap → Transition → Option ℕ
registered map t = elim (start_id map t) [ none ↦ none | some id ↦ get_state id map.states ]

unfoldable pub register_transition : Transition → TransitionMap → Ret × TransitionMap
register_transition t map = elim (registered map t) [
  | none ↦ (ret_error, map)
  | some i ↦ (
    ret_ok,
    record { states = add_valid t map.states i; transitions = map.transitions ++ (t ∷ []) },
  )
]

unfoldable pub get_transition_by_id : TransitionId → List Transition → Option Transition
get_transition_by_id id [] = none
get_transition_by_id id (t ∷ ts) =
    if same_transition t.id id then some t else get_transition_by_id id ts

unfoldable pub get_transition_by_label : Bytes → List Transition → Option Transition
get_transition_by_label label [] = none
get_transition_by_label label (t ∷ ts) =
    if eq_bytes t.label label then some t else get_transition_by_label label ts

-- The valid transitions of the current state; none where it is null.
abbrev pub valid : StateMachine → List Transition
valid m = elim (state_at m.transition_map m.current_state) [
  | none ↦ []
  | some s ↦ s.valid_transitions
]

-- `notifications` are those that it asked to publish, and `publish` says of the n-th whether that
-- succeeds.
module _ (publish : ℕ → Bool) where
  abbrev notify : Option ℕ → Option ℕ → StateMachine → Ret × StateMachine
  notify start goal m =
      let m' = record m { notifications = m.notifications ++ ((start, goal) ∷ []) } in
      (if publish (length m.notifications) then ret_ok else ret_error, m')

  unfoldable pub trigger : StateMachine → Option Transition → Bool → Ret × StateMachine
  trigger m none publish_notification = (ret_error, m)
  trigger m (some t) publish_notification = elim t.goal [
    | none ↦ (ret_error, m)
    | some goal ↦
        let m' : StateMachine = record m { current_state = some goal } in
        if publish_notification then notify t.start (some goal) m' else (ret_ok, m')
  ]

  unfoldable pub trigger_transition_by_id : StateMachine → TransitionId → Bool → Ret × StateMachine
  trigger_transition_by_id m id publish_notification =
      trigger m (get_transition_by_id id (valid m)) publish_notification

  unfoldable pub trigger_transition_by_label : StateMachine → Bytes → Bool → Ret × StateMachine
  trigger_transition_by_label m label publish_notification =
      trigger m (get_transition_by_label label (valid m)) publish_notification
