-- ===== src/Chrono.antt =====
-- rclcpp/rclcpp/src/rclcpp/duration.cpp and time.cpp: nanosecond durations and time points.
-- Here: what both share, the builtin_interfaces messages and the conversions of C++.
pub mod Duration
pub mod TimePoint
pub mod Bounds
pub mod Message
pub mod Order
mod Tests
use pmros.Base.{ℕ, suc, ◌+◌, ◌-◌, ◌*◌, ◌%◌, ◌/◌, ◌^◌, if◌then◌else◌, ltb}
use pmros.Base.Int.{ℤ, pos, negsuc, pos_part, neg_part, ◌+ℤ◌, ◌-ℤ◌, leb_ℤ, neg_ℕ}

abbrev pub ns_per_s : ℕ
ns_per_s = 1000000000

-- RCL_S_TO_NS: seconds to nanoseconds.
abbrev pub s_to_ns : ℤ → ℤ
s_to_ns (pos n) = pos (1000000000 * n)
s_to_ns (negsuc n) = negsuc (1000000000 * n + 999999999)

-- static_cast<uint32_t>, static_cast<uint64_t> and static_cast<int32_t> of an int64_t.
abbrev pub to_uint32 : ℤ → ℕ
to_uint32 (pos n) = n % 2 ^ 32
to_uint32 (negsuc n) = 2 ^ 32 - 1 - n % 2 ^ 32

abbrev pub to_uint64 : ℤ → ℕ
to_uint64 (pos n) = n % 2 ^ 64
to_uint64 (negsuc n) = 2 ^ 64 - 1 - n % 2 ^ 64

abbrev pub to_int32 : ℤ → ℤ
to_int32 z = let w = to_uint32 z in if ltb w (2 ^ 31) then pos w else negsuc (2 ^ 32 - 1 - w)

-- builtin_interfaces/msg/Duration and builtin_interfaces/msg/Time.
pub record StampMsg : Type 0 where
  pub sec : ℤ
  pub nanosec : ℕ

-- std::div: the quotient is cut towards zero, and the remainder has the sign of the dividend.
pub record Div : Type 0 where
  pub quot : ℤ
  pub rem : ℤ

abbrev pub std_div : ℤ → ℕ → Div
std_div (pos n) d = record { quot = pos (n / d); rem = pos (n % d) }
std_div (negsuc n) d = record { quot = neg_ℕ (suc n / d); rem = neg_ℕ (suc n % d) }

-- The conversion of a count of nanoseconds into a message, the same in Duration and in Time.
unfoldable pub split_ns : ℤ → StampMsg
unfolding ◌-ℤ◌ ◌+ℤ◌
split_ns ns =
    let result = std_div ns ns_per_s in
    if leb_ℤ (pos 0) result.rem
    then record { sec = to_int32 result.quot; nanosec = to_uint32 result.rem }
    else record {
      sec = to_int32 (result.quot -ℤ pos 1);
      nanosec = to_uint32 (pos ns_per_s +ℤ result.rem);
    }
