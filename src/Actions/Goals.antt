-- ===== src/Actions/Goals.antt =====
-- The life of a goal (goal_state_machine.c, goal_handle.c and server_goal_handle.cpp).
use mathlib.Core.List.{Memᴰ}
use pmros.Base.{
  ℕ, Bool, true, false, List, [], ◌∷◌, if◌then◌else◌, suc, ◌≡◌, ◌≢◌, ◌⊎◌, inl, inr, refl, arith,
  ◌↔◌, sym, ◌∙◌, subst,
}
use pmros.Base.Results.{is_ok, err, runtime_error}
use pmros.Actions.{
  GoalState, unknown, accepted, executing, canceling, succeeded, canceled, aborted, GoalEvent,
  execute, cancel_goal, succeed, abort, cancel_done, GoalHandle, GoalInfo, goal_handle_init,
  transition_goal_state, update_goal_state, goal_state_transition_map, execute_event_handler,
  cancel_goal_event_handler, succeed_event_handler, abort_event_handler, canceled_event_handler,
  is_active, is_cancelable, apply_event, try_canceling,
}

-- The documented life of a goal: who asks for what in which state.
pub data GoalStep : GoalState → GoalEvent → GoalState → Type 0 where
  starts : GoalStep accepted execute executing
  is_canceled_early : GoalStep accepted cancel_goal canceling
  is_canceled_running : GoalStep executing cancel_goal canceling
  succeeds : GoalStep executing succeed succeeded
  aborts : GoalStep executing abort aborted
  succeeds_canceling : GoalStep canceling succeed succeeded
  aborts_canceling : GoalStep canceling abort aborted
  is_done : GoalStep canceling cancel_done canceled

step_of :
    (s : GoalState) (e : GoalEvent)
    → (transition_goal_state s e ≡ unknown) ⊎ GoalStep s e (transition_goal_state s e)
unfolding transition_goal_state goal_state_transition_map execute_event_handler
    cancel_goal_event_handler succeed_event_handler abort_event_handler canceled_event_handler
step_of accepted execute = inr starts
step_of accepted cancel_goal = inr is_canceled_early
step_of executing cancel_goal = inr is_canceled_running
step_of executing succeed = inr succeeds
step_of executing abort = inr aborts
step_of canceling succeed = inr succeeds_canceling
step_of canceling abort = inr aborts_canceling
step_of canceling cancel_done = inr is_done
step_of unknown _ = inl (ground arith)
step_of accepted _ = inl (ground arith)
step_of executing _ = inl (ground arith)
step_of canceling _ = inl (ground arith)
step_of succeeded _ = inl (ground arith)
step_of canceled _ = inl (ground arith)
step_of aborted _ = inl (ground arith)

of_step : {s t : GoalState} {e : GoalEvent} → GoalStep s e t → transition_goal_state s e ≡ t
unfolding transition_goal_state goal_state_transition_map execute_event_handler
    cancel_goal_event_handler succeed_event_handler abort_event_handler canceled_event_handler
of_step starts = refl
of_step is_canceled_early = refl
of_step is_canceled_running = refl
of_step succeeds = refl
of_step aborts = refl
of_step succeeds_canceling = refl
of_step aborts_canceling = refl
of_step is_done = refl

-- For a state other than unknown, the table and its handlers lead to it exactly by the steps of the
-- diagram.
pub transition_goal_state-GoalStep :
    (s t : GoalState) (e : GoalEvent)
    → t ≢ unknown
    → (transition_goal_state s e ≡ t) ↔ GoalStep s e t
transition_goal_state-GoalStep s t e h = (
  λ p. elim (step_of s e) [ inl q ↦ absurd (h (sym p ∙ q)) | inr q ↦ subst (GoalStep s e) p q ],
  of_step,
)

-- A goal that is asked to cancel at once is canceled and this is reported exactly where it was
-- active; another goal stays as it is.
pub try_canceling_lem :
    (goal : GoalHandle)
    → try_canceling goal
      ≡ (is_active goal, if is_active goal then record goal { state = canceled } else goal)
unfolding try_canceling is_active is_cancelable update_goal_state transition_goal_state
    goal_state_transition_map execute_event_handler cancel_goal_event_handler succeed_event_handler
    abort_event_handler canceled_event_handler
try_canceling_lem goal = ground arith

-- A sequence of requests, and how many of them are carried out.
unfoldable pub apply_all : List GoalEvent → GoalHandle → ℕ × GoalHandle
apply_all [] goal = (0, goal)
apply_all (e ∷ events) goal =
    let (result, goal') = apply_event e goal in
    let (count, last) = apply_all events goal' in (if is_ok result then suc count else count, last)

-- How many steps are left at most.
abbrev pub rank : GoalState → ℕ
rank accepted = 3
rank executing = 2
rank canceling = 1
rank s = 0

-- A goal in one of these states was asked to cancel.
abbrev is_on_the_way : GoalState → Bool
is_on_the_way canceling = true
is_on_the_way canceled = true
is_on_the_way s = false

apply_event-on_the_way :
    (e : GoalEvent) (goal : GoalHandle)
    → is_on_the_way goal.state ≡ false
    → (e ≡ cancel_goal) ⊎ (is_on_the_way (apply_event e goal).1.state ≡ false)
unfolding apply_event update_goal_state transition_goal_state goal_state_transition_map
    execute_event_handler cancel_goal_event_handler succeed_event_handler abort_event_handler
    canceled_event_handler
apply_event-on_the_way e goal h = ground arith

on_the_way_asked :
    (events : List GoalEvent) (goal : GoalHandle)
    → is_on_the_way goal.state ≡ false
    → is_on_the_way (apply_all events goal).1.state ≡ true
    → Memᴰ cancel_goal events
unfolding apply_all
on_the_way_asked [] goal h l = cc
on_the_way_asked (e ∷ events) goal h l = elim (apply_event-on_the_way e goal h) [
  | inl p ↦ Memᴰ.head (sym p)
  | inr q ↦ Memᴰ.tail (on_the_way_asked events (apply_event e goal).1 q l)
]

on_the_way_of : {s : GoalState} → (s ≡ canceled) ⊎ (s ≡ canceling) → is_on_the_way s ≡ true
on_the_way_of h = ground arith

-- A new goal that ends up canceled, or is being canceled, was asked to cancel on the way.
pub canceled_was_asked :
    (info : GoalInfo) (events : List GoalEvent)
    → ((apply_all events (goal_handle_init info)).1.state ≡ canceled)
      ⊎ ((apply_all events (goal_handle_init info)).1.state ≡ canceling)
    → Memᴰ cancel_goal events
unfolding goal_handle_init
canceled_was_asked info events h =
    on_the_way_asked events (goal_handle_init info) refl (on_the_way_of h)

ended_refuses :
    (e : GoalEvent) (goal : GoalHandle)
    → is_active goal ≡ false
    → apply_event e goal ≡ (err runtime_error, goal)
unfolding is_active apply_event update_goal_state transition_goal_state goal_state_transition_map
    execute_event_handler cancel_goal_event_handler succeed_event_handler abort_event_handler
    canceled_event_handler
ended_refuses e goal h = ground arith

-- A goal that is not active refuses every request and stays as it is.
pub ended_stays :
    (events : List GoalEvent) (goal : GoalHandle)
    → is_active goal ≡ false
    → apply_all events goal ≡ (0, goal)
unfolding apply_all
ended_stays [] goal h = refl
ended_stays (e ∷ events) goal h = rw (ended_refuses e goal h, ended_stays events goal h) refl
