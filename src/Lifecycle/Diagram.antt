-- ===== src/Lifecycle/Diagram.antt =====
-- The diagram of the default state machine, and that its table is this diagram.
use pmros.Base.{ℕ, Option, none, some, List, [], ◌∷◌, ◌++◌, ◌≡◌, refl}
use pmros.Base.Bytes.{codes}
use pmros.Lifecycle.{
  StateId, unknown, unconfigured, inactive, active, finalized, configuring, cleaningup,
  shuttingdown, activating, deactivating, errorprocessing, TransitionId, configure, cleanup,
  activate, deactivate, unconfigured_shutdown, inactive_shutdown, active_shutdown, TransitionMap,
  StateMachine, ret_ok, get_state, register_state, register_transition, state_number, Transition,
  valid, on_configure_success, on_configure_failure, on_configure_error, on_cleanup_success,
  on_cleanup_failure, on_cleanup_error, on_activate_success, on_activate_failure, on_activate_error,
  on_deactivate_success, on_deactivate_failure, on_deactivate_error, on_shutdown_success,
  on_shutdown_failure, on_shutdown_error, on_error_success, on_error_failure, on_error_error,
}
use pmros.Lifecycle.Default.{
  register_rows, register_transitions, init_default_state_machine, Row, row,
  transition_success_label, transition_failure_label, transition_error_label,
}
use pmros.Lifecycle.Node.{CallbackReturn, cb_success, cb_failure, map_list, current_id}

-- The states that a node waits in, and those that it is in while a callback runs.
abbrev pub IsPrimary : StateId → Type 0
IsPrimary unconfigured = Unit {0}
IsPrimary inactive = Unit {0}
IsPrimary active = Unit {0}
IsPrimary finalized = Unit {0}
IsPrimary s = ⊥

abbrev pub IsTransitional : StateId → Type 0
IsTransitional configuring = Unit {0}
IsTransitional cleaningup = Unit {0}
IsTransitional shuttingdown = Unit {0}
IsTransitional activating = Unit {0}
IsTransitional deactivating = Unit {0}
IsTransitional errorprocessing = Unit {0}
IsTransitional s = ⊥

-- Where a transition leads that a user asks for.
abbrev pub begin : StateId → TransitionId → Option StateId
begin unconfigured configure = some configuring
begin unconfigured unconfigured_shutdown = some shuttingdown
begin inactive cleanup = some cleaningup
begin inactive activate = some activating
begin inactive inactive_shutdown = some shuttingdown
begin active deactivate = some deactivating
begin active active_shutdown = some shuttingdown
begin s id = none

-- Where the code of a callback leads.
abbrev pub finish : StateId → CallbackReturn → StateId
finish configuring cb_success = inactive
finish configuring cb_failure = unconfigured
finish cleaningup cb_success = unconfigured
finish cleaningup cb_failure = inactive
finish activating cb_success = active
finish activating cb_failure = inactive
finish deactivating cb_success = inactive
finish deactivating cb_failure = active
finish shuttingdown cb_success = finalized
finish shuttingdown cb_failure = finalized
finish errorprocessing cb_success = unconfigured
finish errorprocessing c = finalized
finish s c = errorprocessing

unfoldable pub default_map : TransitionMap
unfolding init_default_state_machine
default_map = init_default_state_machine.1.transition_map

abbrev pub Notes : Type 0
Notes = List (Option ℕ × Option ℕ)

abbrev pub machine_in : StateId → Notes → StateMachine
machine_in s notes = record {
  current_state = some (state_number s);
  transition_map = default_map;
  notifications = notes;
}

abbrev pub noted : StateId → StateId → Notes → Notes
noted s t notes = notes ++ ((some (state_number s), some (state_number t)) ∷ [])

pub init_default : init_default_state_machine ≡ (ret_ok, machine_in unconfigured [])
unfolding default_map init_default_state_machine register_transitions register_rows
    register_transition register_state get_state
init_default = refl

-- The rows that start in a state, in the order in which they are registered.
abbrev rows_of : StateId → List Row
rows_of unknown = []
rows_of unconfigured =
    row (codes "configure") configure unconfigured configuring
    ∷ row (codes "shutdown") unconfigured_shutdown unconfigured shuttingdown
    ∷ []
rows_of inactive =
    row (codes "cleanup") cleanup inactive cleaningup
    ∷ row (codes "activate") activate inactive activating
    ∷ row (codes "shutdown") inactive_shutdown inactive shuttingdown
    ∷ []
rows_of active =
    row (codes "deactivate") deactivate active deactivating
    ∷ row (codes "shutdown") active_shutdown active shuttingdown
    ∷ []
rows_of finalized = []
rows_of configuring =
    row transition_success_label on_configure_success configuring inactive
    ∷ row transition_failure_label on_configure_failure configuring unconfigured
    ∷ row transition_error_label on_configure_error configuring errorprocessing
    ∷ []
rows_of cleaningup =
    row transition_success_label on_cleanup_success cleaningup unconfigured
    ∷ row transition_failure_label on_cleanup_failure cleaningup inactive
    ∷ row transition_error_label on_cleanup_error cleaningup errorprocessing
    ∷ []
rows_of activating =
    row transition_success_label on_activate_success activating active
    ∷ row transition_failure_label on_activate_failure activating inactive
    ∷ row transition_error_label on_activate_error activating errorprocessing
    ∷ []
rows_of deactivating =
    row transition_success_label on_deactivate_success deactivating inactive
    ∷ row transition_failure_label on_deactivate_failure deactivating active
    ∷ row transition_error_label on_deactivate_error deactivating errorprocessing
    ∷ []
rows_of shuttingdown =
    row transition_success_label on_shutdown_success shuttingdown finalized
    ∷ row transition_failure_label on_shutdown_failure shuttingdown finalized
    ∷ row transition_error_label on_shutdown_error shuttingdown errorprocessing
    ∷ []
rows_of errorprocessing =
    row transition_success_label on_error_success errorprocessing unconfigured
    ∷ row transition_failure_label on_error_failure errorprocessing finalized
    ∷ row transition_error_label on_error_error errorprocessing finalized
    ∷ []

abbrev of_row : Row → Transition
of_row r = record {
  label = r.label;
  id = r.id;
  start = some (state_number r.start);
  goal = some (state_number r.goal);
}

pub valid_default :
    (s : StateId) (notes : Notes) → valid (machine_in s notes) ≡ map_list of_row (rows_of s)
unfolding default_map init_default_state_machine register_transitions register_rows
    register_transition register_state get_state
valid_default unknown notes = refl
valid_default unconfigured notes = refl
valid_default inactive notes = refl
valid_default active notes = refl
valid_default finalized notes = refl
valid_default configuring notes = refl
valid_default cleaningup notes = refl
valid_default shuttingdown notes = refl
valid_default activating notes = refl
valid_default deactivating notes = refl
valid_default errorprocessing notes = refl

pub current_default : (s : StateId) (notes : Notes) → current_id (machine_in s notes) ≡ some s
unfolding default_map init_default_state_machine register_transitions register_rows
    register_transition register_state get_state
current_default unknown notes = refl
current_default unconfigured notes = refl
current_default inactive notes = refl
current_default active notes = refl
current_default finalized notes = refl
current_default configuring notes = refl
current_default cleaningup notes = refl
current_default shuttingdown notes = refl
current_default activating notes = refl
current_default deactivating notes = refl
current_default errorprocessing notes = refl
