-- ===== src/Actions/Tests.antt =====
-- Runs of goals and of an action server, and the theorems at concrete inputs.
use pmros.Base.{ℕ, true, false, none, some, List, [], ◌∷◌, All, replicate, ◌≡◌, ◌↔◌, refl, arith}
use pmros.Base.Int.{pos, ◌+ℤ◌, ◌-ℤ◌}
use pmros.Timer.{TimerImpl, now_is}
use pmros.Actions.{
  GoalState, executing, succeeded, succeed, GoalInfo, GoalHandle, is_active, transition_goal_state,
}
use pmros.Actions.Goals.{GoalStep, transition_goal_state-GoalStep}
use pmros.Actions.Server.{
  ActionServer, accept_new_goal, expire_loop, is_expired, process_cancel_request, error_none,
  zero_uuid, goal_info_stamp_to_nanosec,
}
use pmros.Actions.Accept.{Distinct, IsAnswer, accept_new_goal-Distinct}
use pmros.Actions.Expire.{Swept, expire_loop_lem, expire_overflow}
use pmros.Actions.Cancel.{Cancelable, Stamped, cancelable_infos, process_cancel_request_lem}

abbrev info_of : ℕ → ℕ → GoalInfo
info_of id sec = record { uuid = id ∷ replicate 15 0; stamp_sec = pos sec; stamp_nanosec = 5 }

abbrev goal_in : ℕ → ℕ → GoalState → GoalHandle
goal_in id sec s = record { info = info_of id sec; state = s }

transition_example :
    (transition_goal_state executing succeed ≡ succeeded) ↔ GoalStep executing succeed succeeded
transition_example = transition_goal_state-GoalStep executing succeeded succeed (λ e. cc)

abbrev expire_timer : TimerImpl (Unit {0})
expire_timer = record {
  callback = none;
  bound_instance = 0;
  period = pos 900000000000;
  last_call_time = pos 0;
  next_call_time = pos 900000000000;
  time_credit = pos 0;
  canceled = true;
  has_jump_callback = false;
  woken = 0;
}

-- One goal runs, and one succeeded.
abbrev server : ActionServer
server = record {
  goal_handles = goal_in 1 10 executing ∷ goal_in 2 20 succeeded ∷ [];
  expire_timer = expire_timer;
  result_timeout = pos 900000000000;
}

server-Distinct : Distinct server.goal_handles
server-Distinct = ((λ e. cc, tt), (tt, tt))

accept_example :
    let answer = accept_new_goal (info_of 3 0) (now_is (pos 30000000007)) server in
    Distinct answer.1.goal_handles × IsAnswer (info_of 3 0) 30000000007 server answer
accept_example =
    accept_new_goal-Distinct (info_of 3 0) 30000000007 server (omega arith) server-Distinct

expire_loop_example :
    let e = expire_loop (some 2) (pos 900000000000) (pos 950000000000) 0 0 server.goal_handles in
    Swept (pos 900000000000) (pos 950000000000) server.goal_handles e.kept e.num_expired
expire_loop_example =
    expire_loop_lem (pos 900000000000) (pos 950000000000) (some 2) server.goal_handles (omega arith)

-- Two goals expire, and the array has one place.
abbrev two_done : List GoalHandle
two_done = goal_in 1 10 succeeded ∷ goal_in 2 20 succeeded ∷ []

expire_overflow_example :
    expire_loop (some 1) (pos 900000000000) (pos 950000000000) 0 0 two_done
    ≡ record { kept = []; num_expired = 2; writes = (0, info_of 1 10) ∷ (1, info_of 2 20) ∷ [] }
unfolding is_active is_expired goal_info_stamp_to_nanosec ◌+ℤ◌ ◌-ℤ◌
expire_overflow_example =
    expire_overflow (pos 900000000000) (pos 950000000000) 1 two_done (omega arith)
      (refl, (refl, tt))

abbrev all_goals : GoalInfo
all_goals = record { uuid = zero_uuid; stamp_sec = pos 0; stamp_nanosec = 0 }

stamped : Stamped server.goal_handles
unfolding goal_info_stamp_to_nanosec ◌+ℤ◌
stamped = (omega arith, (omega arith, tt))

zero_stamp : goal_info_stamp_to_nanosec all_goals ≡ pos 0
unfolding goal_info_stamp_to_nanosec ◌+ℤ◌
zero_stamp = refl

process_cancel_request_example :
    All
      (Cancelable server.goal_handles)
      (process_cancel_request (info_of 2 0) server.goal_handles).goals_canceling
    × (process_cancel_request all_goals server.goal_handles ≡ record {
      return_code = error_none;
      goals_canceling = cancelable_infos server.goal_handles;
    })
process_cancel_request_example =
    process_cancel_request_lem (info_of 2 0) all_goals server.goal_handles refl zero_stamp stamped
