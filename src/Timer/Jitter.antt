-- ===== src/Timer/Jitter.antt =====
-- Timers of rclcpp (rclcpp/rclcpp/src/rclcpp/timer.cpp, GenericTimer of timer.hpp) and what they
-- measure (measuring/activation_jitter_tracker.cpp, dummy_jitter_tracker.cpp and the choice in
-- jitter_tracker_factory.cpp). The writer is the list of what it was told to record; the user's
-- callback is the count of its calls.
use pmros.Base.{
  ℕ, ◌+◌, Bool, true, false, Option, none, some, List, [], ◌∷◌, ◌++◌, ◌≡◌, refl, arith, inl, inr,
}
use pmros.Base.Int.{ℤ, pos, ◌-ℤ◌, ◌≤ℤ◌, leb_ℤ, -ℤ_parts, leb_ℤ-cases}
use pmros.Base.Results.{Result, ok, err, runtime_error, invalid_argument}
use pmros.Timer.{
  TimerImpl, TimerRet, Reading, Activation, now_is, timer_ok, timer_canceled, timer_call, is_ready,
}
use pmros.Timer.Schedule.{call_ok, is_ready_lem}

pub record Measurement : Type 0 where
  pub timestamp : ℤ
  pub measurement_class : ℕ
  pub activation_jitter : ℤ

pub data JitterTracker : Type 0 where
  activation_jitter_tracker : ℕ → JitterTracker
  dummy_jitter_tracker : JitterTracker

-- JitterTrackerEnum, and any other number.
pub data JitterTrackerEnum : Type 0 where
  activation_jitter_option none_option unrecognized_option : JitterTrackerEnum

-- The key comes from the writer, which registers the class of measurements.
unfoldable pub make_tracker : JitterTrackerEnum → ℕ → Result JitterTracker
make_tracker activation_jitter_option key = ok (activation_jitter_tracker key)
make_tracker none_option key = ok dummy_jitter_tracker
make_tracker unrecognized_option key = err invalid_argument

-- `now` is what the timer's clock and `unix` what the system's clock shows.
unfoldable pub track_jitter : JitterTracker → ℤ → ℤ → ℤ → ℤ → List Measurement → List Measurement
track_jitter dummy_jitter_tracker now unix since intended written = written
track_jitter (activation_jitter_tracker key) now unix since intended written =
    written
    ++ (record { timestamp = unix; measurement_class = key; activation_jitter = now -ℤ intended }
        ∷ [])

pub record TimerBase : Type 0 where
  pub timer_handle : TimerImpl (Unit {0})
  pub jitter_tracker : JitterTracker
  pub written : List Measurement
  pub executed : ℕ

-- timer_activate_callback, which rcl_timer_call calls where the timer has it as its callback.
unfoldable pub timer_activate_callback :
    ℤ → ℤ → Option (Activation (Unit {0})) → TimerBase → TimerBase
timer_activate_callback now unix none timer = timer
timer_activate_callback now unix (some a) timer = record timer {
  written =
      track_jitter timer.jitter_tracker now unix a.since_last_call a.intended_activation
        timer.written;
}

-- What GenericTimer.execute_callback does with the result of rcl_timer_call.
abbrev pub after_call : TimerRet → TimerBase → Result (Unit {0}) × TimerBase
after_call timer_ok timer = (ok tt, record timer { executed = timer.executed + 1 })
after_call timer_canceled timer = (ok tt, timer)
after_call ret timer = (err runtime_error, timer)

unfoldable pub execute_callback : Reading → ℤ → ℤ → TimerBase → Result (Unit {0}) × TimerBase
execute_callback reading now unix timer =
    let (ret, a, handle) = timer_call reading timer.timer_handle in
    after_call ret (timer_activate_callback now unix a (record timer { timer_handle = handle }))

abbrev ready_result : TimerRet × Option Bool → Result Bool
ready_result (timer_ok, some ready) = ok ready
ready_result (ret, ready) = err runtime_error

unfoldable pub timer_is_ready : Reading → TimerBase → Result Bool
timer_is_ready reading timer = ready_result (is_ready reading timer.timer_handle)

contra : {o : Result Bool} → o ≡ ok true → o ≡ ok false → ⊥
contra p q = cc

timer_is_ready_lem :
    (timer : TimerBase) (r : ℤ)
    → timer.timer_handle.canceled ≡ false
    → timer_is_ready (now_is r) timer ≡ ok (leb_ℤ timer.timer_handle.next_call_time r)
unfolding timer_is_ready
timer_is_ready_lem timer r c = rw (is_ready_lem timer.timer_handle r c) refl

due :
    (timer : TimerBase) (r : ℤ)
    → timer.timer_handle.canceled ≡ false
    → timer_is_ready (now_is r) timer ≡ ok true
    → timer.timer_handle.next_call_time ≤ℤ r
due timer r c h = elim (leb_ℤ-cases timer.timer_handle.next_call_time r) [
  | inl (e, l) ↦ l
  | inr (e, l) ↦
      let f : timer_is_ready (now_is r) timer ≡ ok false =
        rw (timer_is_ready_lem timer r c, e) refl in
      absurd (contra h f)
]

-- A timer with the tracker that was not canceled, and which was ready when it was asked at `r`,
-- runs its callback once when it is executed at a later time, and writes one measurement, which is
-- how long after the intended time of activation the clock of the tracker was read: never negative
-- where that clock did not go back.
execute_callback_lem :
    (timer : TimerBase) (key n : ℕ) (r now unix : ℤ)
    → timer.timer_handle.callback ≡ some tt
    → timer.jitter_tracker ≡ activation_jitter_tracker key
    → timer.timer_handle.canceled ≡ false
    → timer_is_ready (now_is r) timer ≡ ok true
    → r ≤ℤ now
    → let (result, timer') = execute_callback (now_is (pos n)) now unix timer in
      let jitter = now -ℤ timer.timer_handle.next_call_time in
      (result ≡ ok tt)
      × (timer'.executed ≡ timer.executed + 1)
      × (timer'.written
          ≡ timer.written
            ++ (record { timestamp = unix; measurement_class = key; activation_jitter = jitter }
                ∷ []))
      × (pos 0 ≤ℤ jitter)
unfolding execute_callback timer_activate_callback track_jitter timer_is_ready
execute_callback_lem timer key n r now unix c k a b l =
    let later : pos 0 ≤ℤ now -ℤ timer.timer_handle.next_call_time =
      omega (arith, due timer r a b, l, -ℤ_parts now timer.timer_handle.next_call_time) in
    rw (call_ok timer.timer_handle tt n a c, k) (refl, refl, refl, later)
