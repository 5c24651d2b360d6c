-- ===== src/Lifecycle/Default.antt =====
-- The state machine that every lifecycle node has (rcl/rcl_lifecycle/src/default_state_machine.c).
use pmros.Base.{none, List, [], ◌∷◌}
use pmros.Base.Bytes.{Bytes, codes}
use pmros.Lifecycle.{
  StateId, unknown, unconfigured, inactive, active, finalized, configuring, cleaningup,
  shuttingdown, activating, deactivating, errorprocessing, TransitionId, configure, cleanup,
  activate, deactivate, unconfigured_shutdown, inactive_shutdown, active_shutdown,
  on_configure_success, on_configure_failure, on_configure_error, on_cleanup_success,
  on_cleanup_failure, on_cleanup_error, on_activate_success, on_activate_failure, on_activate_error,
  on_deactivate_success, on_deactivate_failure, on_deactivate_error, on_shutdown_success,
  on_shutdown_failure, on_shutdown_error, on_error_success, on_error_failure, on_error_error,
  Transition, TransitionMap, StateMachine, Ret, ret_ok, ret_error, get_state, register_state,
  register_transition,
}

abbrev pub transition_success_label : Bytes
transition_success_label = codes "transition_success"

abbrev pub transition_failure_label : Bytes
transition_failure_label = codes "transition_failure"

abbrev pub transition_error_label : Bytes
transition_error_label = codes "transition_error"

-- The next step of a chain that ends with the first error.
abbrev pub if_ok : (TransitionMap → Ret × TransitionMap) → Ret × TransitionMap → Ret × TransitionMap
if_ok next (ret_ok, map) = next map
if_ok next (ret_error, map) = (ret_error, map)

abbrev pub register_states : List (StateId × Bytes) → TransitionMap → Ret × TransitionMap
register_states [] map = (ret_ok, map)
register_states ((id, label) ∷ states) map =
    if_ok (register_states states)
      (register_state (record { label = label; id = id; valid_transitions = [] }) map)

abbrev pub primary_states : List (StateId × Bytes)
primary_states =
    (unknown, codes "unknown")
    ∷ (unconfigured, codes "unconfigured")
    ∷ (inactive, codes "inactive")
    ∷ (active, codes "active")
    ∷ (finalized, codes "finalized")
    ∷ []

abbrev pub transition_states : List (StateId × Bytes)
transition_states =
    (configuring, codes "configuring")
    ∷ (cleaningup, codes "cleaningup")
    ∷ (shuttingdown, codes "shuttingdown")
    ∷ (activating, codes "activating")
    ∷ (deactivating, codes "deactivating")
    ∷ (errorprocessing, codes "errorprocessing")
    ∷ []

-- A transition with the labels of its ends; the pointers are looked up before it is registered.
pub record Row : Type 0 where
  pub label : Bytes
  pub id : TransitionId
  pub start : StateId
  pub goal : StateId

abbrev pub row : Bytes → TransitionId → StateId → StateId → Row
row label id start goal = record { label = label; id = id; start = start; goal = goal }

abbrev pub from_row : Row → TransitionMap → Transition
from_row r map = record {
  label = r.label;
  id = r.id;
  start = get_state r.start map.states;
  goal = get_state r.goal map.states;
}

unfoldable pub register_rows : List Row → TransitionMap → Ret × TransitionMap
register_rows [] map = (ret_ok, map)
register_rows (r ∷ rows) map = if_ok (register_rows rows) (register_transition (from_row r map) map)

abbrev pub configure_transitions : List Row
configure_transitions =
    row (codes "configure") configure unconfigured configuring
    ∷ row transition_success_label on_configure_success configuring inactive
    ∷ row transition_failure_label on_configure_failure configuring unconfigured
    ∷ row transition_error_label on_configure_error configuring errorprocessing
    ∷ []

abbrev pub cleanup_transitions : List Row
cleanup_transitions =
    row (codes "cleanup") cleanup inactive cleaningup
    ∷ row transition_success_label on_cleanup_success cleaningup unconfigured
    ∷ row transition_failure_label on_cleanup_failure cleaningup inactive
    ∷ row transition_error_label on_cleanup_error cleaningup errorprocessing
    ∷ []

abbrev pub activate_transitions : List Row
activate_transitions =
    row (codes "activate") activate inactive activating
    ∷ row transition_success_label on_activate_success activating active
    ∷ row transition_failure_label on_activate_failure activating inactive
    ∷ row transition_error_label on_activate_error activating errorprocessing
    ∷ []

abbrev pub deactivate_transitions : List Row
deactivate_transitions =
    row (codes "deactivate") deactivate active deactivating
    ∷ row transition_success_label on_deactivate_success deactivating inactive
    ∷ row transition_failure_label on_deactivate_failure deactivating active
    ∷ row transition_error_label on_deactivate_error deactivating errorprocessing
    ∷ []

abbrev pub shutdown_transitions : List Row
shutdown_transitions =
    row (codes "shutdown") unconfigured_shutdown unconfigured shuttingdown
    ∷ row (codes "shutdown") inactive_shutdown inactive shuttingdown
    ∷ row (codes "shutdown") active_shutdown active shuttingdown
    ∷ row transition_success_label on_shutdown_success shuttingdown finalized
    ∷ row transition_failure_label on_shutdown_failure shuttingdown finalized
    ∷ row transition_error_label on_shutdown_error shuttingdown errorprocessing
    ∷ []

abbrev pub error_transitions : List Row
error_transitions =
    row transition_success_label on_error_success errorprocessing unconfigured
    ∷ row transition_failure_label on_error_failure errorprocessing finalized
    ∷ row transition_error_label on_error_error errorprocessing finalized
    ∷ []

abbrev no_transitions : TransitionMap
no_transitions = record { states = []; transitions = [] }

-- The pointers of `_register_transitions` are those of the map with all states.
unfoldable pub register_transitions : TransitionMap → Ret × TransitionMap
unfolding register_rows
register_transitions map = if_ok (register_rows error_transitions) (
    if_ok (register_rows shutdown_transitions) (
      if_ok (register_rows deactivate_transitions) (
        if_ok (register_rows activate_transitions)
          (if_ok (register_rows cleanup_transitions) (register_rows configure_transitions map)))))

abbrev start_unconfigured : Ret × TransitionMap → Ret × StateMachine
start_unconfigured (ret_ok, map) = (
  ret_ok,
  record {
    current_state = get_state unconfigured map.states;
    transition_map = map;
    notifications = [];
  },
)
start_unconfigured (ret_error, map) = (
  ret_error,
  record { current_state = none; transition_map = no_transitions; notifications = [] },
)

unfoldable pub init_default_state_machine : Ret × StateMachine
unfolding register_transitions
init_default_state_machine = start_unconfigured (
    if_ok register_transitions
      (if_ok (register_states transition_states) (register_states primary_states no_transitions)))
