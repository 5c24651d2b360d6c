-- ===== src/Measuring.antt =====
-- Tracking of messages (rclcpp/rclcpp/src/rclcpp/measuring: publisher_message_tracker.cpp,
-- tracing_publisher_message_tracker.cpp, subscriber_message_tracker.cpp; hash_to_chars.hpp), with the
-- writer of measurements as an interface. The clocks are arguments, and an identifier, which starts
-- at 1 and counts messages, does not reach 2^63.
pub mod Writers
pub mod Influx
pub mod Trace
pub mod Received
mod Tests
use pmros.Base.{ℕ, zero, suc, ◌+◌, ◌*◌, ◌/◌, ◌%◌, ◌^◌, ltb, if◌then◌else◌, List, [], ◌∷◌}
use pmros.Base.Int.{ℤ, pos, ◌+ℤ◌, eqb_ℤ}
use pmros.Chrono.{to_int32}
use pmros.Base.Bytes.{Bytes}

pub record MessageTrackingVariables : Type 0 where
  pub vandenhoven_timestamp : ℤ
  pub vandenhoven_identifier : ℤ
  pub vandenhoven_publisher_hash : ℤ

-- to_char: '0' to '9', then 'A' to 'F'.
abbrev pub to_char : ℕ → ℕ
to_char d = if ltb d 10 then 48 + d else 55 + d

-- The digits from the one of weight 16 ^ i down.
unfoldable pub hex_digits : ℕ → ℕ → Bytes
hex_digits zero input = []
hex_digits (suc i) input = to_char (input / 2 ^ (4 * i) % 16) ∷ hex_digits i input

unfoldable pub hex_char_array : ℕ → Bytes
unfolding hex_digits
hex_char_array input = hex_digits 8 input

-- The hash is an int32_t in the message, and a uint32_t in the trackers.
-- PublisherMessageTracker and TracingPublisherMessageTracker: the next identifier and host_hash_.
pub record PublisherTracker : Type 0 where
  pub current_msg_id : ℤ
  pub host_hash : ℕ

abbrev pub new_tracker : ℕ → PublisherTracker
new_tracker hash = record { current_msg_id = pos 1; host_hash = hash }

-- `now` is the monotonic time. The message is changed in place.
unfoldable pub track_published :
    ℤ → MessageTrackingVariables → PublisherTracker → MessageTrackingVariables × PublisherTracker
track_published now msg tracker = (
  record {
    vandenhoven_timestamp = now;
    vandenhoven_identifier = tracker.current_msg_id;
    vandenhoven_publisher_hash = to_int32 (pos tracker.host_hash);
  },
  record tracker { current_msg_id = tracker.current_msg_id +ℤ pos 1 },
)

unfoldable pub track_traced :
    ℤ → MessageTrackingVariables → PublisherTracker → MessageTrackingVariables × PublisherTracker
track_traced now msg tracker =
    let unnamed = eqb_ℤ (pos 0) msg.vandenhoven_identifier in
    (
      record {
        vandenhoven_timestamp = now;
        vandenhoven_identifier =
            if unnamed then tracker.current_msg_id else msg.vandenhoven_identifier;
        vandenhoven_publisher_hash = to_int32 (pos tracker.host_hash);
      },
      if unnamed
          then record tracker { current_msg_id = tracker.current_msg_id +ℤ pos 1 }
          else tracker,
    )
