-- ===== src/Timer/Tests.antt =====
-- Runs of timers, and the theorems at concrete inputs.
use pmros.Base.{ℕ, true, false, some, List, [], ◌∷◌, ◌≡◌, refl, arith}
use pmros.Base.Int.{pos, ◌+ℤ◌, ◌-ℤ◌, ◌*ℤ◌, quot_ℤ, leb_ℤ}
use pmros.Base.Results.{ok}
use pmros.Timer.{
  TimerImpl, timer_ok, now_is, advance, timer_call, is_ready, before_jump, after_jump,
  ros_time_activated, get_time_until_next_call,
}
use pmros.Timer.Schedule.{
  IsMoved, activated, timer_call_lem, intended, timetable, intended-timetable,
}
use pmros.Timer.Jumps.{switch_waits_elapsed}
use pmros.Timer.Jitter.{TimerBase, activation_jitter_tracker, timer_is_ready}

abbrev every_ten : TimerImpl (Unit {0})
every_ten = record {
  callback = some tt;
  bound_instance = 4;
  period = pos 10;
  last_call_time = pos 90;
  next_call_time = pos 100;
  time_credit = pos 0;
  canceled = false;
  has_jump_callback = true;
  woken = 0;
}

-- A call at 137 has missed three periods.
advance_skips : advance (pos 10) (pos 100) (pos 137) ≡ pos 140
unfolding advance ◌+ℤ◌ ◌-ℤ◌ ◌*ℤ◌ quot_ℤ
advance_skips = refl

timer_call_lem_example :
    let (ret, activation, timer') = timer_call (now_is (pos 137)) every_ten in
    (ret ≡ timer_ok)
    × (activation ≡ some (activated (pos 137) every_ten tt))
    × IsMoved 10 (pos 100) (pos 137) timer'.next_call_time
    × (is_ready (now_is (pos 139)) timer'
        ≡ (timer_ok, some (leb_ℤ timer'.next_call_time (pos 139))))
timer_call_lem_example = timer_call_lem every_ten tt 10 137 139 refl (omega arith) refl refl

abbrev times : List ℕ
times = 100 ∷ 117 ∷ 121 ∷ []

intended-timetable_example : intended times every_ten ≡ timetable 10 (pos 100) times
unfolding ◌+ℤ◌
intended-timetable_example =
    intended-timetable times every_ten tt 10 refl refl refl
      (omega arith, (omega arith, (omega arith, tt)))

-- 3 of 10 were left, and the timer waits 7.
switch_waits_elapsed_example :
    get_time_until_next_call (now_is (pos 5000)) (
      after_jump ros_time_activated
        (now_is (pos 5000))
        (before_jump ros_time_activated (now_is (pos 97)) every_ten))
    ≡ (timer_ok, some (pos 7))
unfolding ◌-ℤ◌
switch_waits_elapsed_example =
    switch_waits_elapsed every_ten ros_time_activated (pos 97) (pos 5000) refl refl refl refl

abbrev measured : TimerBase
measured = record {
  timer_handle = every_ten;
  jitter_tracker = activation_jitter_tracker 2;
  written = [];
  executed = 5;
}

is_due : timer_is_ready (now_is (pos 101)) measured ≡ ok true
unfolding timer_is_ready is_ready get_time_until_next_call ◌-ℤ◌
is_due = refl
