-- ===== src/Chrono/Bounds.antt =====
-- The overflow checks of duration.cpp and time.cpp against exact arithmetic.
use pmros.Base.{◌≡◌, refl, inl, inr, Bool, ◌&&◌, if◌then◌else◌, arith, Bool-cases, sym, ◌∙◌}
use pmros.Base.Int.{
  ℤ, pos, negsuc, ◌+ℤ◌, ◌-ℤ◌, ltb_ℤ, eqb_ℤ, InInt64, int64_max, int64_lowest, +ℤ_comm,
}
use pmros.Base.Results.{
  Result, ok, err, overflow_error, underflow_error, runtime_error, throw_if, ◌>>=◌,
}
use pmros.Chrono.Duration.{Duration, is_neg, is_pos}
use pmros.Chrono.Duration
use pmros.Chrono.TimePoint.{Time, same_clock, ClockType}
use pmros.Chrono.TimePoint

-- The value if the exact result fits an int64_t, and the exception for its side if not.
abbrev pub checked {ℓ} : {A : Type ℓ} → ℤ → A → Result A
checked exact value =
    if ltb_ℤ (pos int64_max) exact
    then err overflow_error
    else if ltb_ℤ exact int64_lowest
    then err underflow_error
    else ok value

abbrev duration : ℤ → Duration
duration ns = record { nanoseconds = ns }

abbrev is_lowest : ℤ → Bool
is_lowest a = eqb_ℤ a int64_lowest

-- `Duration + Duration` on all of int64_t: the exact sum if it fits, and the exception for the side
-- on which it does not. There are two exceptions to that. The sum of two lowest values is let through
-- although it does not fit, and two negative durations whose sum is the lowest value are refused
-- although it fits.
add-checked :
    (a b : ℤ)
    → InInt64 a
    → InInt64 b
    → Duration.add (duration a) (duration b) ≡ (
        if is_lowest a && is_lowest b
        then ok (duration (a +ℤ b))
        else if is_lowest (a +ℤ b) && (is_neg a && is_neg b)
        then err underflow_error
        else checked (a +ℤ b) (duration (a +ℤ b)))
unfolding Duration.add ◌+ℤ◌
add-checked (pos a) (pos b) ha hb = ground arith
add-checked (pos a) (negsuc b) ha hb = ground arith
add-checked (negsuc a) (pos b) ha hb = ground arith
add-checked (negsuc a) (negsuc b) ha hb = ground arith

-- `Duration - Duration` on all of int64_t: the exact difference if it fits, and the exception for the
-- side on which it does not. There are two exceptions to that. Zero less the lowest value is let
-- through although it does not fit, and a negative duration less a positive one, where the
-- difference is the lowest value, is refused although it fits.
sub-checked :
    (a b : ℤ)
    → InInt64 a
    → InInt64 b
    → Duration.sub (duration a) (duration b) ≡ (
        if eqb_ℤ a (pos 0) && is_lowest b
        then ok (duration (a -ℤ b))
        else if is_lowest (a -ℤ b) && (is_neg a && is_pos b)
        then err underflow_error
        else checked (a -ℤ b) (duration (a -ℤ b)))
unfolding Duration.sub ◌-ℤ◌
sub-checked (pos a) (pos b) ha hb = ground arith
sub-checked (pos a) (negsuc b) ha hb = ground arith
sub-checked (negsuc a) (pos b) ha hb = ground arith
sub-checked (negsuc a) (negsuc b) ha hb = ground arith

module _ (x y : ℤ) (hx : InInt64 x) (hy : InInt64 y) where
  add_will_overflow_lem : TimePoint.add_will_overflow x y ≡ ltb_ℤ (pos int64_max) (x +ℤ y)
  unfolding TimePoint.add_will_overflow ◌+ℤ◌
  add_will_overflow_lem = ground arith

  add_will_underflow_lem : TimePoint.add_will_underflow x y ≡ ltb_ℤ (x +ℤ y) int64_lowest
  unfolding TimePoint.add_will_underflow ◌+ℤ◌
  add_will_underflow_lem = ground arith

  sub_will_overflow_lem : TimePoint.sub_will_overflow x y ≡ ltb_ℤ (pos int64_max) (x -ℤ y)
  unfolding TimePoint.sub_will_overflow ◌-ℤ◌
  sub_will_overflow_lem = ground arith

  sub_will_underflow_lem : TimePoint.sub_will_underflow x y ≡ ltb_ℤ (x -ℤ y) int64_lowest
  unfolding TimePoint.sub_will_underflow ◌-ℤ◌
  sub_will_underflow_lem = ground arith

-- `throw_if` twice and then a value is `checked`, where the tests are the two bounds.
throw_if-checked {ℓ} :
    {A : Type ℓ} (over under : Bool) (exact : ℤ) (value : A)
    → over ≡ ltb_ℤ (pos int64_max) exact
    → under ≡ ltb_ℤ exact int64_lowest
    → (throw_if over overflow_error >>= λ _. throw_if under underflow_error >>= λ _. ok value)
      ≡ checked exact value
throw_if-checked over under exact value p q = rw (p, q) (ground arith)

module _ (t : Time) (d : Duration) (ht : InInt64 t.nanoseconds) (hd : InInt64 d.nanoseconds) where
  pub time_add-checked :
      TimePoint.add t d
      ≡ checked
          (t.nanoseconds +ℤ d.nanoseconds)
          (record t { nanoseconds = t.nanoseconds +ℤ d.nanoseconds })
  unfolding TimePoint.add
  time_add-checked = rw (+ℤ_comm t.nanoseconds d.nanoseconds) (
      throw_if-checked _ _ _ _ (add_will_overflow_lem _ _ hd ht) (add_will_underflow_lem _ _ hd ht))

  add_to_duration-checked :
      TimePoint.add_to_duration d t
      ≡ checked
          (t.nanoseconds +ℤ d.nanoseconds)
          (record t { nanoseconds = t.nanoseconds +ℤ d.nanoseconds })
  unfolding TimePoint.add_to_duration
  add_to_duration-checked = rw (+ℤ_comm d.nanoseconds t.nanoseconds) (
      throw_if-checked _ _ _ _ (add_will_overflow_lem _ _ ht hd) (add_will_underflow_lem _ _ ht hd))

  -- A time and a duration added in either order: the exact time on the clock of the time, if it fits an int64_t, and the
  -- exception for the side on which it does not.
  add-add_to_duration :
      (TimePoint.add t d
        ≡ checked
            (t.nanoseconds +ℤ d.nanoseconds)
            (record t { nanoseconds = t.nanoseconds +ℤ d.nanoseconds }))
      × (TimePoint.add_to_duration d t ≡ TimePoint.add t d)
  add-add_to_duration = (time_add-checked, add_to_duration-checked ∙ sym time_add-checked)

-- A time less a duration: the exact time on the same clock if it fits an int64_t, and the exception
-- for the side on which it does not.
pub time_sub-checked :
    (t : Time) (d : Duration)
    → InInt64 t.nanoseconds
    → InInt64 d.nanoseconds
    → let exact = t.nanoseconds -ℤ d.nanoseconds in
      TimePoint.sub t d ≡ checked exact (record t { nanoseconds = exact })
unfolding TimePoint.sub
time_sub-checked t d ht hd =
    throw_if-checked _ _ _ _ (sub_will_overflow_lem _ _ ht hd) (sub_will_underflow_lem _ _ ht hd)

-- A time less a time: refused for different clocks, and otherwise the exact duration if it fits an
-- int64_t and the exception for the side on which it does not.
pub sub_time-checked :
    (a b : Time)
    → InInt64 a.nanoseconds
    → InInt64 b.nanoseconds
    → let exact = a.nanoseconds -ℤ b.nanoseconds in
      TimePoint.sub_time a b ≡ (
        if same_clock a.clock_type b.clock_type
        then checked exact (duration exact)
        else err runtime_error)
unfolding TimePoint.sub_time
sub_time-checked a b ha hb = elim (Bool-cases (same_clock a.clock_type b.clock_type)) [
  | inl same ↦ rw same (
      throw_if-checked _ _ _ _ (sub_will_overflow_lem _ _ ha hb) (sub_will_underflow_lem _ _ ha hb))
  | inr other ↦ rw other refl
]

-- The sums and differences of durations and times on all of int64_t are exact if they fit, and
-- otherwise the exception for the side on which they do not; a time keeps its clock, and the
-- difference of times of different clocks is refused first. Two durations have four exceptions to
-- that. The sum of two lowest values, and zero less the lowest value, are let through although they do
-- not fit; two negative durations whose sum is the lowest value, and a negative one less a positive
-- one where the difference is the lowest value, are refused although they fit.
pub sums_and_differences :
    (a b : ℤ) (t u : Time) (d : Duration)
    → InInt64 a
    → InInt64 b
    → InInt64 t.nanoseconds
    → InInt64 u.nanoseconds
    → InInt64 d.nanoseconds
    → let sum = t.nanoseconds +ℤ d.nanoseconds in
      let rest = t.nanoseconds -ℤ d.nanoseconds in
      let difference = t.nanoseconds -ℤ u.nanoseconds in
      (Duration.add (duration a) (duration b) ≡ (
        if is_lowest a && is_lowest b
        then ok (duration (a +ℤ b))
        else if is_lowest (a +ℤ b) && (is_neg a && is_neg b)
        then err underflow_error
        else checked (a +ℤ b) (duration (a +ℤ b))))
      × (Duration.sub (duration a) (duration b) ≡ (
          if eqb_ℤ a (pos 0) && is_lowest b
          then ok (duration (a -ℤ b))
          else if is_lowest (a -ℤ b) && (is_neg a && is_pos b)
          then err underflow_error
          else checked (a -ℤ b) (duration (a -ℤ b))))
      × (TimePoint.add t d ≡ checked sum (record t { nanoseconds = sum }))
      × (TimePoint.add_to_duration d t ≡ TimePoint.add t d)
      × (TimePoint.sub t d ≡ checked rest (record t { nanoseconds = rest }))
      × (TimePoint.sub_time t u ≡ (
          if same_clock t.clock_type u.clock_type
          then checked difference (duration difference)
          else err runtime_error))
sums_and_differences a b t u d ha hb ht hu hd =
    let (add, add') = add-add_to_duration t d ht hd in
    (
      add-checked a b ha hb,
      sub-checked a b ha hb,
      add,
      add',
      time_sub-checked t d ht hd,
      sub_time-checked t u ht hu,
    )

-- Whatever the checks of Time let through fits an int64_t.
pub checked-InInt64 {ℓ} :
    {A : Type ℓ} (exact : ℤ) (value : A) {r : A} → checked exact value ≡ ok r → InInt64 exact
checked-InInt64 exact value h = ground arith
