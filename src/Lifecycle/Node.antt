-- ===== src/Lifecycle/Node.antt =====
-- LifecycleNodeInterfaceImpl (rclcpp/rclcpp_lifecycle/src/lifecycle_node_interface_impl.hpp): changes
-- of state with the user's callbacks, and the service that asks for
-- them. The callbacks are functions of the previous state.
use pmros.Base.{ℕ, Bool, true, false, ◌&&◌, not, if◌then◌else◌, Option, none, some, List, [], ◌∷◌}
use mathlib.Core.Option
use pmros.Base.Bytes.{Bytes}
use pmros.Base.Results.{Result, ok, err, runtime_error}
use pmros.Lifecycle.{
  StateId, TransitionId, StateMachine, Ret, ret_ok, ret_error, same_state, state_at, valid,
  get_transition_by_label, trigger_transition_by_id, trigger_transition_by_label,
}
use pmros.Lifecycle.Default.{
  transition_success_label, transition_failure_label, transition_error_label,
}

abbrev pub map_list {ℓ κ} : {A : Type ℓ} {B : Type κ} → (A → B) → List A → List B
map_list f [] = []
map_list f (x ∷ xs) = f x ∷ map_list f xs

pub data CallbackReturn : Type 0 where
  cb_success cb_failure cb_error : CallbackReturn

pub data Outcome : Type 0 where
  returns : CallbackReturn → Outcome
  throws : Outcome

abbrev pub Callback : Type 0
Callback = Option StateId → Outcome

-- `has_services` says that the two services which is_initialized asks for exist.
pub record Node : Type 0 where
  pub state_machine : StateMachine
  pub has_services : Bool
  pub cb_map : StateId → Option Callback

abbrev is_nil {ℓ} : {A : Type ℓ} → List A → Bool
is_nil [] = true
is_nil (x ∷ xs) = false

unfoldable pub is_initialized : Node → Bool
is_initialized n =
    n.has_services
    && not (
        is_nil n.state_machine.transition_map.states
        && is_nil n.state_machine.transition_map.transitions)

unfoldable pub register_callback : StateId → Callback → Node → Node
register_callback id callback n = record n {
  cb_map = λ s. if same_state id s then some callback else n.cb_map s;
}

abbrev pub current_id : StateMachine → Option StateId
current_id m = Option.map (λ s. s.id) (state_at m.transition_map m.current_state)

abbrev pub as_return : Outcome → CallbackReturn
as_return (returns c) = c
as_return throws = cb_error

abbrev pub callback_at : Node → Option StateId → Option Callback
callback_at n none = none
callback_at n (some id) = n.cb_map id

unfoldable pub execute_callback : Node → Option StateId → Option StateId → CallbackReturn
execute_callback n id previous_state = elim (callback_at n id) [
  | none ↦ cb_success
  | some callback ↦ as_return (callback previous_state)
]

abbrev pub label_for : CallbackReturn → Bytes
label_for cb_success = transition_success_label
label_for cb_failure = transition_failure_label
label_for cb_error = transition_error_label

abbrev pub is_error : CallbackReturn → Bool
is_error cb_error = true
is_error c = false

abbrev pub is_success : CallbackReturn → Bool
is_success cb_success = true
is_success c = false

-- What a change of state returns, and the code that it assigns; `none` where it assigns none.
pub record Change : Type 0 where
  pub ret : Ret
  pub cb_return_code : Option CallbackReturn
  pub node : Node

abbrev pub with_machine : Node → StateMachine → Node
with_machine n m = record n { state_machine = m }

abbrev pub or_before : CallbackReturn → Option CallbackReturn → CallbackReturn
or_before before none = before
or_before before (some code) = code

abbrev pub answer_change : CallbackReturn → Change → Result Bool × Node
answer_change before change =
    (ok (is_success (or_before before change.cb_return_code)), change.node)

abbrev is_nonempty : Bytes → Bool
is_nonempty [] = false
is_nonempty (c ∷ s) = true

module _ (publish : ℕ → Bool) where
  -- The callback of the state that the node is in, and the transition that it leads to.
  unfoldable pub run_callback : Node → Option StateId → CallbackReturn × (Ret × StateMachine)
  run_callback n initial =
      let code = execute_callback n (current_id n.state_machine) initial in
      (code, trigger_transition_by_label publish n.state_machine (label_for code) true)

  abbrev pub error_handled : Node → CallbackReturn → Option StateId → Change
  error_handled n code initial =
      let (error_code, (ret, m)) = run_callback n initial in
      record { ret = ret; cb_return_code = some code; node = with_machine n m }

  unfoldable pub finish_change : Node → CallbackReturn → Ret → Option StateId → Change
  finish_change n code ret_error initial = record {
    ret = ret_error;
    cb_return_code = some code;
    node = n;
  }
  finish_change n code ret_ok initial =
      if is_error code
      then error_handled n code initial
      else record { ret = ret_ok; cb_return_code = some code; node = n }

  unfoldable pub start_change : Node → Ret → Option StateId → Change
  start_change n ret_error initial = record { ret = ret_error; cb_return_code = none; node = n }
  start_change n ret_ok initial =
      let (code, (ret, m)) = run_callback n initial in
      finish_change (with_machine n m) code ret initial

  unfoldable pub change_state : TransitionId → Node → Change
  change_state id n =
      let initial = current_id n.state_machine in
      let (ret, m) = trigger_transition_by_id publish n.state_machine id true in
      if is_initialized n
      then start_change (with_machine n m) ret initial
      else record { ret = ret_error; cb_return_code = none; node = n }

  -- The service. `before` is what cb_return_code holds before change_state is called, which the source
  -- leaves uninitialised.
  unfoldable pub on_change_state : CallbackReturn → TransitionId → Bytes → Node → Result Bool × Node
  on_change_state before id label n =
      if not (is_initialized n)
      then (err runtime_error, n)
      else if is_nonempty label
      then elim (get_transition_by_label label (valid n.state_machine)) [
        | none ↦ (ok false, n)
        | some t ↦ answer_change before (change_state t.id n)
      ]
      else answer_change before (change_state id n)

  -- trigger_transition: the state that the node is in afterwards.
  unfoldable pub trigger_transition : TransitionId → Node → Option StateId × Node
  trigger_transition id n = let n' = (change_state id n).node in (current_id n'.state_machine, n')

  unfoldable pub trigger_transition_label : Bytes → Node → Option StateId × Node
  trigger_transition_label label n = elim (get_transition_by_label label (valid n.state_machine)) [
    | none ↦ (current_id n.state_machine, n)
    | some t ↦ trigger_transition t.id n
  ]
