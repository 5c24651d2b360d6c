-- ===== src/Measuring/Trace.antt =====
-- What the trackers of publishers write into messages, and what arrives of it
-- (rclcpp/rclcpp/src/rclcpp/measuring).
use pmros.Base.{
  ℕ, ◌+◌, ◌-◌, ◌*◌, ◌/◌, ◌%◌, ◌^◌, ◌<◌, ltb, if◌then◌else◌, false, List, length, [], ◌∷◌, ◌≡◌, refl,
  arith, ◌∙◌,
}
use pmros.Base.Int.{ℤ, pos, eqb_ℤ, ◌+ℤ◌}
use pmros.Base.Bytes.{Bytes}
use pmros.Chrono.{to_int32, to_uint32}
use pmros.Measuring.{
  MessageTrackingVariables, PublisherTracker, track_traced, track_published, hex_char_array,
  hex_digits, to_char,
}

-- The value of a digit, and of a text of digits.
abbrev from_char : ℕ → ℕ
from_char c = if ltb c 58 then c - 48 else c - 55

abbrev pub decode : ℕ → Bytes → ℕ
decode value [] = value
decode value (c ∷ cs) = decode (value * 16 + from_char c) cs

from_to_char : (n : ℕ) → from_char (to_char (n % 16)) ≡ n % 16
from_to_char n = ground arith

same_word : (h : ℕ) → h < 2 ^ 32 → to_uint32 (to_int32 (pos h)) ≡ h
same_word h l = ground arith

decode-hex_char_array : (h : ℕ) → h < 2 ^ 32 → decode 0 (hex_char_array h) ≡ h
unfolding hex_char_array hex_digits
decode-hex_char_array h l = omega (
  arith,
  l,
  from_to_char (h / 268435456),
  from_to_char (h / 16777216),
  from_to_char (h / 1048576),
  from_to_char (h / 65536),
  from_to_char (h / 4096),
  from_to_char (h / 256),
  from_to_char (h / 16),
  from_to_char (h / 1),
)

length-hex_char_array : (h : ℕ) → length (hex_char_array h) ≡ 8
unfolding hex_char_array hex_digits
length-hex_char_array h = refl

-- A message that is forwarded by one publisher after another.
unfoldable pub forward :
    List (ℤ × PublisherTracker)
    → MessageTrackingVariables
    → MessageTrackingVariables × List PublisherTracker
forward [] msg = (msg, [])
forward ((now, tracker) ∷ hops) msg =
    let (msg', tracker') = track_traced now msg tracker in
    let (last, trackers) = forward hops msg' in (last, tracker' ∷ trackers)

abbrev trackers_of : List (ℤ × PublisherTracker) → List PublisherTracker
trackers_of [] = []
trackers_of ((now, tracker) ∷ hops) = tracker ∷ trackers_of hops

track_traced_named :
    (now : ℤ) (msg : MessageTrackingVariables) (tracker : PublisherTracker)
    → eqb_ℤ (pos 0) msg.vandenhoven_identifier ≡ false
    → ((track_traced now msg tracker).0.vandenhoven_identifier ≡ msg.vandenhoven_identifier)
      × ((track_traced now msg tracker).1 ≡ tracker)
unfolding track_traced
track_traced_named now msg tracker h = rw h (refl, refl)

track_traced_new :
    (now : ℤ) (msg : MessageTrackingVariables) (tracker : PublisherTracker)
    → msg.vandenhoven_identifier ≡ pos 0
    → ((track_traced now msg tracker).0.vandenhoven_identifier ≡ tracker.current_msg_id)
      × ((track_traced now msg tracker).1
          ≡ record tracker { current_msg_id = tracker.current_msg_id +ℤ pos 1 })
unfolding track_traced
track_traced_new now msg tracker z = rw z (refl, refl)

forward_named :
    (hops : List (ℤ × PublisherTracker)) (msg : MessageTrackingVariables)
    → eqb_ℤ (pos 0) msg.vandenhoven_identifier ≡ false
    → ((forward hops msg).0.vandenhoven_identifier ≡ msg.vandenhoven_identifier)
      × ((forward hops msg).1 ≡ trackers_of hops)
unfolding forward
forward_named [] msg h = (refl, refl)
forward_named ((now, tracker) ∷ hops) msg h =
    let (i, t) = track_traced_named now msg tracker h in
    let (j, u) = forward_named hops (track_traced now msg tracker).0 (rw i h) in
    (j ∙ i, rw (t, u) refl)

-- A message without an identifier, which publishers forward one after another, keeps the identifier
-- that the first of them gives it, unless that is zero; the first one counts it, and the others do
-- not count it.
forward_traced :
    (now : ℤ) (first : PublisherTracker) (hops : List (ℤ × PublisherTracker))
    (msg : MessageTrackingVariables)
    → msg.vandenhoven_identifier ≡ pos 0
    → eqb_ℤ (pos 0) first.current_msg_id ≡ false
    → let (last, trackers) = forward ((now, first) ∷ hops) msg in
      (last.vandenhoven_identifier ≡ first.current_msg_id)
      × (trackers
          ≡ record first { current_msg_id = first.current_msg_id +ℤ pos 1 } ∷ trackers_of hops)
unfolding forward
forward_traced now first hops msg z h =
    let (i, t) = track_traced_new now msg first z in
    let (j, u) = forward_named hops (track_traced now msg first).0 (rw i h) in
    (j ∙ i, rw (t, u) refl)

-- The text that a subscription writes for the publisher is the hash of that publisher's node in
-- eight hexadecimal digits, for both kinds of trackers.
hash_arrives :
    (now : ℤ) (msg : MessageTrackingVariables) (tracker : PublisherTracker)
    → tracker.host_hash < 2 ^ 32
    → let written =
        λ (m : MessageTrackingVariables). hex_char_array (to_uint32 m.vandenhoven_publisher_hash) in
      (decode 0 (written (track_published now msg tracker).0) ≡ tracker.host_hash)
      × (decode 0 (written (track_traced now msg tracker).0) ≡ tracker.host_hash)
      × (length (written (track_published now msg tracker).0) ≡ 8)
unfolding track_published track_traced
hash_arrives now msg tracker l =
    let e : decode 0 (hex_char_array (to_uint32 (to_int32 (pos tracker.host_hash))))
        ≡ tracker.host_hash =
      rw (same_word tracker.host_hash l) (decode-hex_char_array tracker.host_hash l) in
    (e, e, length-hex_char_array (to_uint32 (to_int32 (pos tracker.host_hash))))
