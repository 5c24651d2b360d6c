-- ===== src/Chrono/Message.antt =====
-- Durations and times as builtin_interfaces messages and as rmw_time_t.
use pmros.Base.{ℕ, ◌*◌, ◌/◌, ◌%◌, ◌↔◌, ◌+◌, ◌<◌, ◌≤◌, ◌^◌, ◌≡◌, refl, ap, if◌then◌else◌, arith}
use pmros.Base.Int.{ℤ, pos, negsuc, ◌+ℤ◌, InInt32, pos_part, neg_part}
use pmros.Base.Results.{ok, err, runtime_error}
use pmros.Chrono.{StampMsg, to_uint64, to_int32, s_to_ns, split_ns}
use pmros.Chrono.Duration.{Duration, RmwTime, is_neg}
use pmros.Chrono.Duration
use pmros.Chrono.TimePoint.{Time, ClockType}
use pmros.Chrono.TimePoint

-- Whole seconds in the int32_t range of a message.
abbrev pub FitsMessage : ℤ → Type 0
FitsMessage ns = (pos_part ns < 2 ^ 31 * 1000000000) × (neg_part ns ≤ 2 ^ 31 * 1000000000)

abbrev pub IsNormal : StampMsg → Type 0
IsNormal m = InInt32 m.sec × (m.nanosec < 1000000000)

join : StampMsg → ℤ
unfolding ◌+ℤ◌
join m = s_to_ns m.sec +ℤ pos m.nanosec

split_ns-IsNormal : (ns : ℤ) → IsNormal (split_ns ns)
unfolding split_ns
split_ns-IsNormal (pos n) = ground arith
split_ns-IsNormal (negsuc n) = ground arith

join-split_ns : (ns : ℤ) → FitsMessage ns → join (split_ns ns) ≡ ns
unfolding split_ns join
join-split_ns (pos n) h = ground arith
join-split_ns (negsuc n) h = ground arith

split_ns-join : (m : StampMsg) → IsNormal m → split_ns (join m) ≡ m
unfolding split_ns join
split_ns-join m (hs, hn) = go m.sec refl hs
  where
    go : (s : ℤ) → m.sec ≡ s → InInt32 s → split_ns (join m) ≡ m
    go (pos s) e h = ground arith
    go (negsuc s) e h = ground arith

of_msg-to_msg :
    (d : Duration) (m : StampMsg)
    → FitsMessage d.nanoseconds
    → IsNormal m
    → (Duration.of_msg (Duration.to_msg d) ≡ d)
      × (Duration.to_msg (Duration.of_msg m) ≡ m)
      × IsNormal (Duration.to_msg d)
unfolding Duration.of_msg Duration.to_msg join
of_msg-to_msg d m hd hm = (
  ap (λ (ns : ℤ). let d : Duration = record { nanoseconds = ns } in d)
      (join-split_ns d.nanoseconds hd),
  split_ns-join m hm,
  split_ns-IsNormal d.nanoseconds,
)

-- A time goes into a message and back on its own clock, but a negative time is refused on the way
-- back.
time_of_msg-to_msg :
    (t : Time)
    → FitsMessage t.nanoseconds
    → TimePoint.of_msg (TimePoint.to_msg t) t.clock_type
      ≡ (if is_neg t.nanoseconds then err runtime_error else ok t)
unfolding TimePoint.of_msg TimePoint.to_msg join
time_of_msg-to_msg t h = go t.nanoseconds refl h
  where
    go :
        (ns : ℤ)
        → t.nanoseconds ≡ ns
        → FitsMessage ns
        → TimePoint.of_msg (TimePoint.to_msg t) t.clock_type
          ≡ (if is_neg t.nanoseconds then err runtime_error else ok t)
    go (pos n) e h = ground (arith, join-split_ns t.nanoseconds)
    go (negsuc n) e h = ground (arith, join-split_ns t.nanoseconds)

to_rmw_time_exact :
    (n : ℕ)
    → n < 2 ^ 63
    → (r : RmwTime) × (Duration.to_rmw_time (record { nanoseconds = pos n }) ≡ ok r)
      × (Duration.to_rmw_time (record { nanoseconds = negsuc n }) ≡ err runtime_error)
      × ((r.sec * 1000000000 + r.nsec ≡ n) ↔ (n < 2 ^ 31 * 1000000000))
unfolding Duration.to_rmw_time
to_rmw_time_exact n h = (
  record { sec = to_uint64 (to_int32 (pos (n / 1000000000))); nsec = n % 1000000000 },
  ground arith,
  ground arith,
  ground arith,
)

-- A duration of whole seconds that fit an int32_t comes back from its message, a message with less
-- than a second of nanoseconds comes back from its duration, and the conversions give only such
-- messages. A time of whole seconds that fit an int32_t comes back from its message on its own clock,
-- unless it is negative, which is refused on the way back. `to_rmw_time` refuses the negative
-- durations; of the others it keeps the value exactly if the whole seconds fit an int32_t.
pub conversions :
    (d : Duration) (m : StampMsg) (t : Time) (n : ℕ)
    → FitsMessage d.nanoseconds
    → IsNormal m
    → FitsMessage t.nanoseconds
    → n < 2 ^ 63
    → (Duration.of_msg (Duration.to_msg d) ≡ d)
      × (Duration.to_msg (Duration.of_msg m) ≡ m)
      × IsNormal (Duration.to_msg d)
      × (TimePoint.of_msg (TimePoint.to_msg t) t.clock_type
          ≡ (if is_neg t.nanoseconds then err runtime_error else ok t))
      × ((r : RmwTime) × (Duration.to_rmw_time (record { nanoseconds = pos n }) ≡ ok r)
          × (Duration.to_rmw_time (record { nanoseconds = negsuc n }) ≡ err runtime_error)
          × ((r.sec * 1000000000 + r.nsec ≡ n) ↔ (n < 2 ^ 31 * 1000000000)))
conversions d m t n hd hm ht hn =
    let (back, there, normal) = of_msg-to_msg d m hd hm in
    (back, there, normal, time_of_msg-to_msg t ht, to_rmw_time_exact n hn)
