-- ===== src/Chrono/TimePoint.antt =====
-- rclcpp::Time (rclcpp/rclcpp/src/rclcpp/time.cpp) and the overflow tests of utilities.hpp.
use pmros.Base.{ℕ, ◌&&◌, Bool, true, false, not}
use pmros.Base.Int.{ℤ, pos, ◌+ℤ◌, ◌-ℤ◌, ltb_ℤ, leb_ℤ, eqb_ℤ, int64_max, int64_lowest}
use pmros.Base.Results.{
  Result, ok, overflow_error, underflow_error, runtime_error, ◌>>=◌, ◌>>◌, throw_if,
}
use pmros.Chrono.{StampMsg, s_to_ns, split_ns}
use pmros.Chrono.Duration.{Duration, is_pos, is_neg}

-- add_will_overflow and its three companions, at int64_t.
unfoldable pub add_will_overflow : ℤ → ℤ → Bool
unfolding ◌-ℤ◌
add_will_overflow x y = is_pos y && ltb_ℤ (pos int64_max -ℤ y) x

unfoldable pub add_will_underflow : ℤ → ℤ → Bool
unfolding ◌-ℤ◌
add_will_underflow x y = is_neg y && ltb_ℤ x (int64_lowest -ℤ y)

unfoldable pub sub_will_overflow : ℤ → ℤ → Bool
unfolding ◌+ℤ◌
sub_will_overflow x y = is_neg y && ltb_ℤ (pos int64_max +ℤ y) x

unfoldable pub sub_will_underflow : ℤ → ℤ → Bool
unfolding ◌+ℤ◌
sub_will_underflow x y = is_pos y && ltb_ℤ x (int64_lowest +ℤ y)

-- rcl_clock_type_t
pub data ClockType : Type 0 where
  clock_uninitialized ros_time system_time steady_time : ClockType

abbrev pub same_clock : ClockType → ClockType → Bool
same_clock clock_uninitialized clock_uninitialized = true
same_clock ros_time ros_time = true
same_clock system_time system_time = true
same_clock steady_time steady_time = true
same_clock _ _ = false

-- rcl_time_point_t
pub record Time : Type 0 where
  pub nanoseconds : ℤ
  pub clock_type : ClockType

-- Time(int32_t seconds, uint32_t nanoseconds, rcl_clock_type_t clock_type)
unfoldable pub of_parts : ℤ → ℕ → ClockType → Result Time
of_parts seconds nanoseconds clock = do
  throw_if (is_neg seconds) runtime_error
  ok (record { nanoseconds = s_to_ns seconds +ℤ pos nanoseconds; clock_type = clock })

-- Time(const builtin_interfaces::msg::Time &, rcl_clock_type_t)
unfoldable pub of_msg : StampMsg → ClockType → Result Time
of_msg m clock = do
  throw_if (is_neg m.sec) runtime_error
  ok (record { nanoseconds = s_to_ns m.sec +ℤ pos m.nanosec; clock_type = clock })

-- operator builtin_interfaces::msg::Time()
unfoldable pub to_msg : Time → StampMsg
unfolding split_ns
to_msg t = split_ns t.nanoseconds

-- The comparisons: each first holds the clocks against one another.
abbrev with_same_clock {ℓ} : {A : Type ℓ} → Time → Time → A → Result A
with_same_clock a b result = do
  throw_if (not (same_clock a.clock_type b.clock_type)) runtime_error
  ok result

unfoldable pub eq : Time → Time → Result Bool
eq a b = with_same_clock a b (eqb_ℤ a.nanoseconds b.nanoseconds)

unfoldable pub ne : Time → Time → Result Bool
unfolding eq
ne a b = do equal ← eq a b; ok (not equal)

unfoldable pub lt : Time → Time → Result Bool
lt a b = with_same_clock a b (ltb_ℤ a.nanoseconds b.nanoseconds)

unfoldable pub le : Time → Time → Result Bool
le a b = with_same_clock a b (leb_ℤ a.nanoseconds b.nanoseconds)

unfoldable pub ge : Time → Time → Result Bool
ge a b = with_same_clock a b (leb_ℤ b.nanoseconds a.nanoseconds)

unfoldable pub gt : Time → Time → Result Bool
gt a b = with_same_clock a b (ltb_ℤ b.nanoseconds a.nanoseconds)

-- operator+(const Duration &)
unfoldable pub add : Time → Duration → Result Time
unfolding add_will_overflow add_will_underflow
add t d = do
  throw_if (add_will_overflow d.nanoseconds t.nanoseconds) overflow_error
  throw_if (add_will_underflow d.nanoseconds t.nanoseconds) underflow_error
  ok (record { nanoseconds = t.nanoseconds +ℤ d.nanoseconds; clock_type = t.clock_type })

-- operator-(const Time &)
unfoldable pub sub_time : Time → Time → Result Duration
unfolding sub_will_overflow sub_will_underflow
sub_time a b = do
  throw_if (not (same_clock a.clock_type b.clock_type)) runtime_error
  throw_if (sub_will_overflow a.nanoseconds b.nanoseconds) overflow_error
  throw_if (sub_will_underflow a.nanoseconds b.nanoseconds) underflow_error
  ok (record { nanoseconds = a.nanoseconds -ℤ b.nanoseconds })

-- operator-(const Duration &)
unfoldable pub sub : Time → Duration → Result Time
unfolding sub_will_overflow sub_will_underflow
sub t d = do
  throw_if (sub_will_overflow t.nanoseconds d.nanoseconds) overflow_error
  throw_if (sub_will_underflow t.nanoseconds d.nanoseconds) underflow_error
  ok (record { nanoseconds = t.nanoseconds -ℤ d.nanoseconds; clock_type = t.clock_type })

-- operator+(const Duration &, const Time &)
unfoldable pub add_to_duration : Duration → Time → Result Time
unfolding add_will_overflow add_will_underflow
add_to_duration d t = do
  throw_if (add_will_overflow t.nanoseconds d.nanoseconds) overflow_error
  throw_if (add_will_underflow t.nanoseconds d.nanoseconds) underflow_error
  ok (record { nanoseconds = d.nanoseconds +ℤ t.nanoseconds; clock_type = t.clock_type })
