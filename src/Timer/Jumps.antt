-- ===== src/Timer/Jumps.antt =====
-- Jumps of the clock of a timer (rcl/rcl/src/rcl/timer.c, _rcl_timer_time_jump).
use pmros.Base.{◌+◌, inl, inr, true, false, some, ◌≡◌, refl, arith, if◌then◌else◌}
use pmros.Base.Int.{
  ℤ, pos, ◌+ℤ◌, ◌-ℤ◌, ◌≤ℤ◌, leb_ℤ, +ℤ_parts, -ℤ_parts, eq_of_parts, leb_ℤ-cases, ltb_ℤ-cases,
}
use pmros.Timer.{
  TimerImpl, ClockChange, is_switch, is_zero, now_is, timer_ok, before_jump, after_jump,
  get_time_until_next_call,
}

credit_used : (t credit period : ℤ) → t -ℤ credit +ℤ period -ℤ t ≡ period -ℤ credit
credit_used t credit period = eq_of_parts (t -ℤ credit +ℤ period -ℤ t) (period -ℤ credit) (
    omega (
      arith,
      -ℤ_parts t credit,
      +ℤ_parts (t -ℤ credit) period,
      -ℤ_parts (t -ℤ credit +ℤ period) t,
      -ℤ_parts period credit,
    ))

module _ {C : Type 0} where
  -- Where the source of the time changes from one that reads `t0` to one that reads `t1`, neither of
  -- them zero, and the time until the next call was not zero, it is afterwards the period less what it
  -- was, which is the part of the period that had passed, not the part that remained.
  pub switch_waits_elapsed :
      (timer : TimerImpl C) (change : ClockChange) (t0 t1 : ℤ)
      → is_switch change ≡ true
      → is_zero t0 ≡ false
      → is_zero t1 ≡ false
      → let remaining = timer.next_call_time -ℤ t0 in
        is_zero remaining ≡ false
        → get_time_until_next_call
            (now_is t1)
            (after_jump change (now_is t1) (before_jump change (now_is t0) timer))
          ≡ (timer_ok, some (timer.period -ℤ remaining))
  unfolding before_jump after_jump get_time_until_next_call
  switch_waits_elapsed timer change t0 t1 s a b r =
      rw (s, a, b, r, credit_used t1 (timer.next_call_time -ℤ t0) timer.period) refl

  -- After a jump of a ROS clock whose source stays the same, a timer whose next call was due at most
  -- a period after its last one, and whose period is not negative, waits for at most a period, and
  -- its guard condition is triggered exactly where the timer is due.
  pub jump_waits_a_period :
      (timer : TimerImpl C) (change : ClockChange) (now : ℤ)
      → is_switch change ≡ false
      → pos 0 ≤ℤ timer.period
      → timer.next_call_time ≤ℤ timer.last_call_time +ℤ timer.period
      → let timer' = after_jump change (now_is now) timer in
        (timer'.next_call_time ≤ℤ now +ℤ timer.period)
        × (timer'.woken ≡ (if leb_ℤ timer.next_call_time now then timer.woken + 1 else timer.woken))
  unfolding after_jump
  jump_waits_a_period timer change now s p h =
      let e = +ℤ_parts now timer.period in
      let f = +ℤ_parts timer.last_call_time timer.period in
      elim (leb_ℤ-cases timer.next_call_time now) [
        | inl (d, l) ↦ rw (s, d) (omega (arith, l, p, e), refl)
        | inr (d, l) ↦ elim (ltb_ℤ-cases now timer.last_call_time) [
          | inl (b, _) ↦ rw (s, d, b) (omega arith, refl)
          | inr (b, g) ↦ rw (s, d, b) (omega (arith, h, g, e, f), refl)
        ]
      ]
