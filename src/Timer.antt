-- ===== src/Timer.antt =====
-- Timers (rcl/rcl/src/rcl/timer.c). Pointers are not null, and allocations and guard conditions
-- succeed. Every operation takes what rcl_clock_get_now answers while it runs.
pub mod Schedule
pub mod Jumps
pub mod Jitter
mod Tests
use pmros.Base.{ℕ, ◌+◌, Bool, true, false, ◌&&◌, not, if◌then◌else◌, Option, none, some}
use pmros.Base.Int.{ℤ, pos, ◌+ℤ◌, ◌-ℤ◌, ◌*ℤ◌, quot_ℤ, ltb_ℤ, leb_ℤ, eqb_ℤ}

pub data TimerRet : Type 0 where
  timer_ok timer_error timer_canceled invalid_argument already_init : TimerRet

-- rcl_clock_get_now
pub data Reading : Type 0 where
  now_is : ℤ → Reading
  now_fails : TimerRet → Reading

-- rcl_timer_impl_t without the context and the allocator. `C` is what a callback pointer points to;
-- `woken` counts the triggers of the guard condition, and `has_jump_callback` says that the jumps of a
-- ROS clock are reported.
pub record TimerImpl (C : Type 0) : Type 0 where
  pub callback : Option C
  pub bound_instance : ℕ
  pub period : ℤ
  pub last_call_time : ℤ
  pub next_call_time : ℤ
  pub time_credit : ℤ
  pub canceled : Bool
  pub has_jump_callback : Bool
  pub woken : ℕ

-- The call of a callback, with its arguments.
pub record Activation (C : Type 0) : Type 0 where
  pub callback : C
  pub since_last_call : ℤ
  pub intended_activation : ℤ
  pub instance_of : ℕ

pub data ClockChange : Type 0 where
  ros_time_no_change ros_time_activated ros_time_deactivated system_time_no_change : ClockChange

abbrev pub is_switch : ClockChange → Bool
is_switch ros_time_activated = true
is_switch ros_time_deactivated = true
is_switch change = false

-- A test of a non-zero integer.
abbrev pub is_zero : ℤ → Bool
is_zero a = eqb_ℤ (pos 0) a

abbrev pub catch_up : ℤ → ℤ → ℤ → ℤ
catch_up period next now =
    if eqb_ℤ (pos 0) period
    then now
    else let periods_ahead = pos 1 +ℤ quot_ℤ (now -ℤ next -ℤ pos 1) period in
      next +ℤ periods_ahead *ℤ period

unfoldable pub advance : ℤ → ℤ → ℤ → ℤ
advance period next_call_time now =
    let next = next_call_time +ℤ period in if ltb_ℤ next now then catch_up period next now else next

module _ {C : Type 0} where
  abbrev new_timer : Bool → ℤ → Option C → ℤ → TimerImpl C
  new_timer is_ros period callback now = record {
    callback = callback;
    bound_instance = 0;
    period = period;
    last_call_time = now;
    next_call_time = now +ℤ period;
    time_credit = pos 0;
    canceled = false;
    has_jump_callback = is_ros;
    woken = 0;
  }

  unfoldable pub timer_init :
      Option (TimerImpl C) → Bool → ℤ → Option C → Reading → TimerRet × Option (TimerImpl C)
  timer_init impl is_ros period callback (now_fails ret) =
      if ltb_ℤ period (pos 0)
      then (invalid_argument, impl)
      else elim impl [ none ↦ (ret, none) | some t ↦ (already_init, some t) ]
  timer_init impl is_ros period callback (now_is now) =
      if ltb_ℤ period (pos 0) then (invalid_argument, impl) else elim impl [
        | none ↦ (timer_ok, some (new_timer is_ros period callback now))
        | some t ↦ (already_init, some t)
      ]

  unfoldable pub timer_bind_instance : ℕ → TimerImpl C → TimerImpl C
  timer_bind_instance i timer = record timer { bound_instance = i }

  abbrev activation : ℤ → TimerImpl C → Option (Activation C)
  activation now timer = elim timer.callback [
    | none ↦ none
    | some callback ↦ some (record {
      callback = callback;
      since_last_call = now -ℤ timer.last_call_time;
      intended_activation = timer.next_call_time;
      instance_of = timer.bound_instance;
    })
  ]

  -- The result, the call of the callback, and the timer afterwards.
  unfoldable pub timer_call : Reading → TimerImpl C → TimerRet × Option (Activation C) × TimerImpl C
  timer_call (now_fails ret) timer =
      if timer.canceled then (timer_canceled, none, timer) else (ret, none, timer)
  timer_call (now_is now) timer =
      if timer.canceled
      then (timer_canceled, none, timer)
      else if ltb_ℤ now (pos 0)
      then (timer_error, none, timer)
      else (
        timer_ok,
        activation now timer,
        record timer {
          last_call_time = now;
          next_call_time = advance timer.period timer.next_call_time now;
        },
      )

  unfoldable pub get_time_until_next_call : Reading → TimerImpl C → TimerRet × Option ℤ
  get_time_until_next_call (now_fails ret) timer = (ret, none)
  get_time_until_next_call (now_is now) timer = (timer_ok, some (timer.next_call_time -ℤ now))

  unfoldable pub is_ready : Reading → TimerImpl C → TimerRet × Option Bool
  unfolding get_time_until_next_call
  is_ready reading timer =
      let (ret, time_until_next_call) = get_time_until_next_call reading timer in
      elim time_until_next_call [
        | none ↦ (ret, none)
        | some time ↦ (timer_ok, some (leb_ℤ time (pos 0) && not timer.canceled))
      ]

  unfoldable pub get_time_since_last_call : Reading → TimerImpl C → TimerRet × Option ℤ
  get_time_since_last_call (now_fails ret) timer = (ret, none)
  get_time_since_last_call (now_is now) timer = (timer_ok, some (now -ℤ timer.last_call_time))

  unfoldable pub exchange_period : ℤ → TimerImpl C → ℤ × TimerImpl C
  exchange_period new_period timer = (timer.period, record timer { period = new_period })

  unfoldable pub exchange_callback : Option C → TimerImpl C → Option C × TimerImpl C
  exchange_callback new_callback timer = (timer.callback, record timer { callback = new_callback })

  unfoldable pub cancel : TimerImpl C → TimerRet × TimerImpl C
  cancel timer = (timer_ok, record timer { canceled = true })

  unfoldable pub reset : Reading → TimerImpl C → TimerRet × TimerImpl C
  reset (now_fails ret) timer = (ret, timer)
  reset (now_is now) timer =
      (timer_ok, record timer { next_call_time = now +ℤ timer.period; canceled = false })

  -- _rcl_timer_time_jump, before the jump and after it.
  unfoldable pub before_jump : ClockChange → Reading → TimerImpl C → TimerImpl C
  before_jump change (now_fails ret) timer = timer
  before_jump change (now_is now) timer =
      if is_switch change && not (is_zero now)
      then record timer { time_credit = timer.next_call_time -ℤ now }
      else timer

  abbrev use_credit : ℤ → TimerImpl C → TimerImpl C
  use_credit now timer =
      if is_zero timer.time_credit then record timer { time_credit = pos 0 } else record timer {
        time_credit = pos 0;
        next_call_time = now -ℤ timer.time_credit +ℤ timer.period;
        last_call_time = now -ℤ timer.time_credit;
      }

  unfoldable pub after_jump : ClockChange → Reading → TimerImpl C → TimerImpl C
  after_jump change (now_fails ret) timer = timer
  after_jump change (now_is now) timer =
      if is_switch change
      then if is_zero now then timer else use_credit now timer
      else if leb_ℤ timer.next_call_time now
      then record timer { woken = timer.woken + 1 }
      else if ltb_ℤ now timer.last_call_time
      then record timer { next_call_time = now +ℤ timer.period; last_call_time = now }
      else timer
