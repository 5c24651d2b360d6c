-- ===== src/Chrono/Duration.antt =====
-- rclcpp::Duration (rclcpp/rclcpp/src/rclcpp/duration.cpp). Its operators on doubles are left out.
use pmros.Base.{ℕ, ◌+◌, ◌%◌, ◌^◌, if◌then◌else◌, ltb, ◌&&◌, Bool, not}
use pmros.Base.Int.{ℤ, pos, pos_part, neg_part, ◌+ℤ◌, ◌-ℤ◌, ltb_ℤ, leb_ℤ, eqb_ℤ, int64_max}
use pmros.Base.Results.{
  Result, ok, err, overflow_error, underflow_error, runtime_error, ◌>>◌, throw_if,
}
use pmros.Chrono.{StampMsg, s_to_ns, split_ns, to_uint64}

pub record Duration : Type 0 where
  pub nanoseconds : ℤ

-- Duration(int32_t seconds, uint32_t nanoseconds)
unfoldable pub of_parts : ℤ → ℕ → Duration
of_parts seconds nanoseconds = record { nanoseconds = s_to_ns seconds +ℤ pos nanoseconds }

-- Duration(const builtin_interfaces::msg::Duration &)
unfoldable pub of_msg : StampMsg → Duration
of_msg m = record { nanoseconds = s_to_ns m.sec +ℤ pos m.nanosec }

-- operator builtin_interfaces::msg::Duration()
unfoldable pub to_msg : Duration → StampMsg
unfolding split_ns
to_msg d = split_ns d.nanoseconds

unfoldable pub eq : Duration → Duration → Bool
eq a b = eqb_ℤ a.nanoseconds b.nanoseconds

unfoldable pub ne : Duration → Duration → Bool
ne a b = not (eqb_ℤ a.nanoseconds b.nanoseconds)

unfoldable pub lt : Duration → Duration → Bool
lt a b = ltb_ℤ a.nanoseconds b.nanoseconds

unfoldable pub le : Duration → Duration → Bool
le a b = leb_ℤ a.nanoseconds b.nanoseconds

unfoldable pub ge : Duration → Duration → Bool
ge a b = leb_ℤ b.nanoseconds a.nanoseconds

unfoldable pub gt : Duration → Duration → Bool
gt a b = ltb_ℤ b.nanoseconds a.nanoseconds

-- static_cast<uint64_t>(std::abs(x)). At the lowest int64_t, where std::abs has no defined result,
-- this is what negation of the bit pattern gives.
abbrev pub abs : ℤ → ℕ
abs x = pos_part x + neg_part x

abbrev pub is_pos : ℤ → Bool
is_pos x = ltb_ℤ (pos 0) x

abbrev pub is_neg : ℤ → Bool
is_neg x = ltb_ℤ x (pos 0)

unfoldable pub bounds_check_duration_sum : ℤ → ℤ → ℕ → Result (Unit {0})
bounds_check_duration_sum lhsns rhsns max =
    if is_pos lhsns && is_pos rhsns
    then throw_if (ltb max ((abs lhsns + abs rhsns) % 2 ^ 64)) overflow_error
    else if is_neg lhsns && is_neg rhsns
    then throw_if (ltb max ((abs lhsns + abs rhsns) % 2 ^ 64)) underflow_error
    else ok tt

-- operator+. The sum is the exact one; the theorems say where it fits an int64_t.
unfoldable pub add : Duration → Duration → Result Duration
unfolding bounds_check_duration_sum
add a b = do
  bounds_check_duration_sum a.nanoseconds b.nanoseconds int64_max
  ok (record { nanoseconds = a.nanoseconds +ℤ b.nanoseconds })

unfoldable pub bounds_check_duration_difference : ℤ → ℤ → ℕ → Result (Unit {0})
bounds_check_duration_difference lhsns rhsns max =
    if is_pos lhsns && is_neg rhsns
    then throw_if (ltb max ((abs lhsns + abs rhsns) % 2 ^ 64)) overflow_error
    else if is_neg lhsns && is_pos rhsns
    then throw_if (ltb max ((abs lhsns + abs rhsns) % 2 ^ 64)) underflow_error
    else ok tt

-- operator-
unfoldable pub sub : Duration → Duration → Result Duration
unfolding bounds_check_duration_difference
sub a b = do
  bounds_check_duration_difference a.nanoseconds b.nanoseconds int64_max
  ok (record { nanoseconds = a.nanoseconds -ℤ b.nanoseconds })

unfoldable pub max : Duration
unfolding of_parts
max = of_parts (pos 2147483647) 999999999

-- rmw_time_t
pub record RmwTime : Type 0 where
  pub sec : ℕ
  pub nsec : ℕ

unfoldable pub to_rmw_time : Duration → Result RmwTime
unfolding to_msg
to_rmw_time d =
    let msg = to_msg d in
    if is_neg d.nanoseconds
    then err runtime_error
    else ok (record { sec = to_uint64 msg.sec; nsec = msg.nanosec })
