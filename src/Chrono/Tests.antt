-- ===== src/Chrono/Tests.antt =====
-- Runs of the duration and time operators, and the theorems at concrete inputs.
use pmros.Base.{◌≡◌, refl, ◌*◌, ◌+◌, ◌<◌, ◌^◌, ◌↔◌, arith}
use pmros.Base.Int.{pos, negsuc, ◌+ℤ◌, ◌-ℤ◌, int64_lowest}
use pmros.Base.Results.{ok, err, runtime_error, underflow_error}
use pmros.Chrono.{StampMsg}
use pmros.Chrono.Duration.{Duration, RmwTime}
use pmros.Chrono.Duration
use pmros.Chrono.TimePoint.{Time, ros_time, system_time}
use pmros.Chrono.TimePoint
use pmros.Chrono.Bounds.{sums_and_differences}
use pmros.Chrono.Message.{conversions, IsNormal}

abbrev before_start : Duration
before_start = record { nanoseconds = negsuc 1499999999 }

abbrev now : Time
now = record { nanoseconds = pos 7000000000; clock_type = ros_time }

abbrev later : Time
later = record { nanoseconds = pos 7000000005; clock_type = ros_time }

abbrev wall : Time
wall = record { nanoseconds = pos 7000000000; clock_type = system_time }

abbrev five : Duration
five = record { nanoseconds = pos 5 }

-- -1.5 s is -2 s and half a second.
to_msg_negative : Duration.to_msg before_start ≡ record { sec = negsuc 1; nanosec = 500000000 }
unfolding Duration.to_msg
to_msg_negative = refl

duration_max : Duration.max ≡ record { nanoseconds = pos 2147483647999999999 }
unfolding Duration.max ◌+ℤ◌
duration_max = refl

-- 2^31 s read as a negative int32_t.
rmw_time_wraps :
    Duration.to_rmw_time (record { nanoseconds = pos 2147483648000000000 })
    ≡ ok (record { sec = 18446744071562067968; nsec = 0 })
unfolding Duration.to_rmw_time
rmw_time_wraps = refl

add-now-five : TimePoint.add now five ≡ ok later
unfolding TimePoint.add ◌+ℤ◌
add-now-five = refl

sums_and_differences_example :
    (Duration.add (record { nanoseconds = negsuc 5 }) (record { nanoseconds = int64_lowest })
      ≡ err underflow_error)
    × (Duration.sub (record { nanoseconds = negsuc 5 }) (record { nanoseconds = int64_lowest })
        ≡ ok (record { nanoseconds = pos 9223372036854775802 }))
    × (TimePoint.add now five ≡ ok later)
    × (TimePoint.add_to_duration five now ≡ TimePoint.add now five)
    × (TimePoint.sub now five ≡ ok (record now { nanoseconds = now.nanoseconds -ℤ pos 5 }))
    × (TimePoint.sub_time now wall ≡ err runtime_error)
unfolding ◌+ℤ◌ ◌-ℤ◌
sums_and_differences_example =
    sums_and_differences (negsuc 5) int64_lowest now wall five (omega arith) (omega arith)
      (omega arith) (omega arith) (omega arith)

conversions_example :
    let m : StampMsg = record { sec = negsuc 1; nanosec = 500000000 } in
    (Duration.of_msg (Duration.to_msg before_start) ≡ before_start)
    × (Duration.to_msg (Duration.of_msg m) ≡ m)
    × IsNormal (Duration.to_msg before_start)
    × (TimePoint.of_msg (TimePoint.to_msg now) ros_time ≡ ok now)
    × ((r : RmwTime) × (Duration.to_rmw_time (record { nanoseconds = pos 1500000000 }) ≡ ok r)
        × (Duration.to_rmw_time (record { nanoseconds = negsuc 1500000000 }) ≡ err runtime_error)
        × ((r.sec * 1000000000 + r.nsec ≡ 1500000000) ↔ (1500000000 < 2 ^ 31 * 1000000000)))
conversions_example =
    conversions before_start (record { sec = negsuc 1; nanosec = 500000000 }) now 1500000000
      (omega arith) (omega arith) (omega arith) (omega arith)
