-- ===== src/Actions/Server.antt =====
-- The goals of an action server (rcl/rcl_action/src/rcl_action/action_server.c). The server is valid
-- and allocations succeed; each function takes what rcl_clock_get_now answers while it runs. Times
-- are exact integers.
use pmros.Base.{
  ℕ, suc, Bool, false, ◌&&◌, ◌||◌, not, ◌==◌, if◌then◌else◌, leb, ltb, Option, none, some, List, [],
  ◌∷◌, ◌++◌, replicate, is_some, length,
}
use pmros.Base.Bytes.{Bytes, eq_bytes}
use pmros.Base.Int.{ℤ, pos, ◌+ℤ◌, ◌-ℤ◌, ltb_ℤ, leb_ℤ, eqb_ℤ, int64_max}
use pmros.Chrono.{std_div, to_int32, to_uint32, s_to_ns, ns_per_s}
use pmros.Timer.{
  TimerImpl, Reading, TimerRet, now_is, now_fails, timer_ok, cancel, reset, exchange_period,
}
use pmros.Actions.{GoalInfo, GoalHandle, goal_handle_init, is_active, is_cancelable}

unfoldable pub goal_info_stamp_to_nanosec : GoalInfo → ℤ
goal_info_stamp_to_nanosec info = s_to_ns info.stamp_sec +ℤ pos info.stamp_nanosec

unfoldable pub nanosec_to_goal_info_stamp : ℤ → GoalInfo → GoalInfo
nanosec_to_goal_info_stamp nanosec info = record info {
  stamp_sec = to_int32 (std_div nanosec ns_per_s).quot;
  stamp_nanosec = to_uint32 (std_div nanosec ns_per_s).rem;
}

-- rcl_action_server_impl_t: its goals, the timer for their expiry and the option result_timeout.
pub record ActionServer : Type 0 where
  pub goal_handles : List GoalHandle
  pub expire_timer : TimerImpl (Unit {0})
  pub result_timeout : ℤ

unfoldable pub find_goal : Bytes → List GoalHandle → Option GoalHandle
find_goal uuid [] = none
find_goal uuid (g ∷ goals) = if eq_bytes uuid g.info.uuid then some g else find_goal uuid goals

unfoldable pub goal_exists : GoalInfo → List GoalHandle → Bool
goal_exists info [] = false
goal_exists info (g ∷ goals) = eq_bytes g.info.uuid info.uuid || goal_exists info goals

-- `none` is the null pointer. Where the clock cannot be read, the source has reallocated the array and
-- does not store its new address: here the array is taken to stay where it was.
unfoldable pub accept_new_goal :
    GoalInfo → Reading → ActionServer → Option GoalHandle × ActionServer
accept_new_goal info (now_fails ret) server = (none, server)
accept_new_goal info (now_is now) server =
    let goal = goal_handle_init (nanosec_to_goal_info_stamp now info) in
    if goal_exists info server.goal_handles
    then (none, server)
    else (some goal, record server { goal_handles = server.goal_handles ++ (goal ∷ []) })

pub data ServerRet : Type 0 where
  server_ok server_error server_invalid_argument : ServerRet
  server_timer_error : TimerRet → ServerRet

-- The scan of _recalculate_expire_timer: how many goals are not active, and the shortest time left.
unfoldable pub next_expiry : ℤ → ℤ → List GoalHandle → ℕ → ℤ → ℕ × ℤ
next_expiry timeout now [] num_inactive minimum_period = (num_inactive, minimum_period)
next_expiry timeout now (g ∷ goals) num_inactive minimum_period =
    let delta = timeout -ℤ (now -ℤ goal_info_stamp_to_nanosec g.info) in
    let inactive = not (is_active g) in
    next_expiry timeout now goals (if inactive then suc num_inactive else num_inactive)
      (if inactive && ltb_ℤ delta minimum_period then delta else minimum_period)

abbrev clamp : ℤ → ℤ
clamp minimum_period = if ltb_ℤ minimum_period (pos 0) then pos 0 else minimum_period

-- The timer is reset, and only then gets its new period.
abbrev start_timer : ℤ → TimerRet × TimerImpl (Unit {0}) → ServerRet × TimerImpl (Unit {0})
start_timer minimum_period (timer_ok, timer) = (server_ok, (exchange_period minimum_period timer).1)
start_timer minimum_period (ret, timer) = (server_timer_error ret, timer)

abbrev set_timer :
    ℕ × ℤ → List GoalHandle → Reading → TimerImpl (Unit {0}) → ServerRet × TimerImpl (Unit {0})
set_timer (num_inactive, minimum_period) goals reading timer =
    if (0 == length goals) || (0 == num_inactive)
    then (server_ok, (cancel timer).1)
    else start_timer (clamp minimum_period) (reset reading timer)

-- The second reading is that of rcl_timer_reset.
unfoldable pub recalculate_expire_timer :
    ℤ
    → List GoalHandle
    → Reading
    → Reading
    → TimerImpl (Unit {0})
    → ServerRet × TimerImpl (Unit {0})
recalculate_expire_timer timeout goals (now_fails ret) reading timer = (server_error, timer)
recalculate_expire_timer timeout goals (now_is now) reading timer =
    set_timer (next_expiry timeout now goals 0 timeout) goals reading timer

abbrev pub with_timer : ActionServer → ServerRet × TimerImpl (Unit {0}) → ServerRet × ActionServer
with_timer server (ret, timer) = (ret, record server { expire_timer = timer })

unfoldable pub notify_goal_done : Reading → Reading → ActionServer → ServerRet × ActionServer
notify_goal_done reading reset_reading server = with_timer server (
    recalculate_expire_timer server.result_timeout server.goal_handles reading reset_reading
      server.expire_timer)

unfoldable pub is_expired : ℤ → ℤ → GoalHandle → Bool
is_expired timeout now g = ltb_ℤ timeout (now -ℤ goal_info_stamp_to_nanosec g.info)

-- What the loop of rcl_action_expire_goals leaves: the goals that stay, how many expired, and the
-- writes into the caller's array, each with its index.
pub record Expired : Type 0 where
  pub kept : List GoalHandle
  pub num_expired : ℕ
  pub writes : List (ℕ × GoalInfo)

abbrev pub keep : GoalHandle → Expired → Expired
keep g e = record e { kept = g ∷ e.kept }

abbrev pub write_if : Bool → ℕ → GoalInfo → Expired → Expired
write_if output i info e = record e { writes = if output then (i, info) ∷ e.writes else e.writes }

abbrev pub is_full : Option ℕ → ℕ → Bool
is_full none i = false
is_full (some capacity) i = leb capacity i

-- The goals from index `i` on, where `num_expired` have expired so far. An expired goal leaves the
-- array, and the next one takes its index. `capacity` is that of the caller's array, if there is one.
unfoldable pub expire_loop : Option ℕ → ℤ → ℤ → ℕ → ℕ → List GoalHandle → Expired
expire_loop capacity timeout now i num_expired [] = record {
  kept = [];
  num_expired = num_expired;
  writes = [];
}
expire_loop capacity timeout now i num_expired (g ∷ goals) =
    let gone = not (is_active g) && is_expired timeout now g in
    let rest =
      expire_loop capacity timeout now (if gone then i else suc i)
        (if gone then suc num_expired else num_expired) goals in
    if is_full capacity i
    then record { kept = g ∷ goals; num_expired = num_expired; writes = [] }
    else write_if (not (is_active g) && is_some capacity) num_expired g.info
        (if gone then rest else keep g rest)

-- expired_goals, expired_goals_capacity and num_expired agree: all given, or none.
abbrev output_expired : Bool → ℕ → Bool → Bool
output_expired has_goals capacity has_num = has_goals && has_num && ltb 0 capacity

abbrev inconsistent : Bool → ℕ → Bool → Bool
inconsistent has_goals capacity has_num =
    not (output_expired has_goals capacity has_num) && (has_goals || has_num || not (capacity == 0))

abbrev expired_at : Option ℕ → ℤ → ActionServer → Expired
expired_at capacity now server =
    expire_loop capacity server.result_timeout now 0 0 server.goal_handles

abbrev finish_expire :
    Expired → Reading → Reading → ActionServer → (ServerRet × ActionServer) × Option Expired
finish_expire e reading reset_reading server =
    (notify_goal_done reading reset_reading (record server { goal_handles = e.kept }), some e)

-- The clock is read in the function, in _recalculate_expire_timer and in rcl_timer_reset.
unfoldable pub expire_goals :
    Bool
    → ℕ
    → Bool
    → Reading
    → Reading
    → Reading
    → ActionServer
    → (ServerRet × ActionServer) × Option Expired
expire_goals has_goals capacity has_num (now_fails ret) reading reset_reading server =
    if inconsistent has_goals capacity has_num
    then ((server_invalid_argument, server), none)
    else ((server_error, server), none)
expire_goals has_goals capacity has_num (now_is now) reading reset_reading server =
    let space = if output_expired has_goals capacity has_num then some capacity else none in
    if inconsistent has_goals capacity has_num
    then ((server_invalid_argument, server), none)
    else finish_expire (expired_at space now server) reading reset_reading server

-- action_msgs/srv/CancelGoal
pub data CancelCode : Type 0 where
  error_none error_rejected error_unknown_goal_id error_goal_terminated : CancelCode

pub record CancelResponse : Type 0 where
  pub return_code : CancelCode
  pub goals_canceling : List GoalInfo

abbrev pub zero_uuid : Bytes
zero_uuid = replicate 16 0

abbrev pub cancel_found : Option GoalHandle → CancelResponse
cancel_found none = record { return_code = error_unknown_goal_id; goals_canceling = [] }
cancel_found (some g) =
    if is_cancelable g
    then record { return_code = error_none; goals_canceling = g.info ∷ [] }
    else record { return_code = error_goal_terminated; goals_canceling = [] }

unfoldable pub cancel_until : ℤ → Bytes → List GoalHandle → List GoalInfo
cancel_until request_nanosec uuid [] = []
cancel_until request_nanosec uuid (g ∷ goals) =
    let rest = cancel_until request_nanosec uuid goals in
    if is_cancelable g
      && (leb_ℤ (goal_info_stamp_to_nanosec g.info) request_nanosec || eq_bytes uuid g.info.uuid)
    then g.info ∷ rest
    else rest

unfoldable pub process_cancel_request : GoalInfo → List GoalHandle → CancelResponse
unfolding cancel_until
process_cancel_request request goals =
    let request_nanosec = goal_info_stamp_to_nanosec request in
    let is_zero_time = eqb_ℤ (pos 0) request_nanosec in
    let is_zero_uuid = eq_bytes request.uuid zero_uuid in
    let until = if is_zero_uuid && is_zero_time then pos int64_max else request_nanosec in
    if not is_zero_uuid && is_zero_time
    then cancel_found (find_goal request.uuid goals)
    else record {
      return_code = error_none;
      goals_canceling = cancel_until until request.uuid goals;
    }
