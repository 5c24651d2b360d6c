-- ===== src/Timer/Schedule.antt =====
-- When a timer (rcl/rcl/src/rcl/timer.c) is due.
use pmros.Base.{
  ℕ, suc, ◌+◌, ◌-◌, ◌*◌, ◌/◌, ◌≤◌, ◌<◌, ◌⊎◌, inl, inr, Bool, ◌&&◌, true, false, Option, some, List,
  [], ◌∷◌, ◌≡◌, refl, ap, arith,
}
use mathlib.Core.Option
use native.Mathlib.Nat.{div-mul-le_self, lt-div-mul-add}
use pmros.Base.Int.{
  ℤ, pos, pos_part, neg_part, ◌+ℤ◌, ◌-ℤ◌, ◌*ℤ◌, ◌≤ℤ◌, ◌<ℤ◌, quot_ℤ, ltb_ℤ, leb_ℤ, eqb_ℤ, +ℤ_parts,
}
use pmros.Timer.{
  TimerImpl, Activation, catch_up, advance, timer_call, timer_ok, now_is, is_ready,
  get_time_until_next_call,
}

-- The count of periods that timer_call moves by.
abbrev periods : ℕ → ℕ → ℕ
periods ahead p = 1 + (ahead - 1) / p

round_up :
    (ahead p : ℕ)
    → 0 < ahead
    → 0 < p
    → (ahead ≤ periods ahead p * p) × (periods ahead p * p < ahead + p)
round_up ahead p h q =
    let below = div-mul-le_self (ahead - 1) p in
    let above : ahead - 1 < (ahead - 1) / p * p + p = lt-div-mul-add q in
    let e : periods ahead p * p ≡ p + (ahead - 1) / p * p = omega arith in
    rw e (omega (arith, above, h), omega (arith, below, h))

-- The distance from an integer to a larger one.
abbrev distance : ℤ → ℤ → ℕ
distance a b = (neg_part a + pos_part b) - (pos_part a + neg_part b)

sub_pos : (a b : ℤ) → a <ℤ b → b -ℤ a ≡ pos (distance a b)
unfolding ◌-ℤ◌
sub_pos a b h = ground arith

sub_suc : (n : ℕ) → 0 < n → pos n -ℤ pos 1 ≡ pos (n - 1)
unfolding ◌-ℤ◌
sub_suc n h = ground arith

add_pos : (a : ℤ) (n m : ℕ) → a +ℤ pos n +ℤ pos m ≡ a +ℤ pos (n + m)
unfolding ◌+ℤ◌
add_pos a n m = ground arith

one_add : (n : ℕ) → pos 1 +ℤ pos n ≡ pos (1 + n)
unfolding ◌+ℤ◌
one_add n = ground arith

distance_pos : (a b : ℤ) → a <ℤ b → 0 < distance a b
distance_pos a b h = omega (arith, h)

catch_up_lem :
    (p : ℕ) (next now : ℤ)
    → 0 < p
    → next <ℤ now
    → catch_up (pos p) next now ≡ next +ℤ pos (periods (distance next now) p * p)
unfolding quot_ℤ ◌*ℤ◌
catch_up_lem p next now h l =
    let z : eqb_ℤ (pos 0) (pos p) ≡ false = ground arith in
    rw (z, sub_pos next now l, sub_suc (distance next now) (distance_pos next now l), one_add) refl

-- `moved` is `next` moved by a positive number of whole periods `p`, to the first such time that is
-- not before `now`.
pub record IsMoved (p : ℕ) (next now moved : ℤ) : Type 0 where
  pub count : ℕ
  pub moved_by : moved ≡ next +ℤ pos (count * p)
  pub count_pos : 0 < count
  pub not_before : now ≤ℤ moved
  pub first : (count ≡ 1) ⊎ (moved <ℤ now +ℤ pos p)

advance_early : (p next now : ℤ) → now ≤ℤ next +ℤ p → advance p next now ≡ next +ℤ p
unfolding advance
advance_early p next now h = ground (arith, h)

advance_late : (p next now : ℤ) → next +ℤ p <ℤ now → advance p next now ≡ catch_up p (next +ℤ p) now
unfolding advance
advance_late p next now h = let e : ltb_ℤ (next +ℤ p) now ≡ true = ground (arith, h) in rw e refl

le-lt-cases : (a b : ℤ) → (a ≤ℤ b) ⊎ (b <ℤ a)
le-lt-cases a b = ground arith

bounds :
    (next now : ℤ) (p m : ℕ)
    → next +ℤ pos p <ℤ now
    → distance (next +ℤ pos p) now ≤ m
    → m < distance (next +ℤ pos p) now + p
    → (now ≤ℤ next +ℤ pos (p + m)) × (next +ℤ pos (p + m) <ℤ now +ℤ pos p)
bounds next now p m l h g =
    let e = +ℤ_parts next (pos p) in
    let f = +ℤ_parts next (pos (p + m)) in
    let d = +ℤ_parts now (pos p) in (omega (arith, l, h, g, e, f), omega (arith, l, h, g, e, f, d))

pub advance-IsMoved : (p : ℕ) (next now : ℤ) → 0 < p → IsMoved p next now (advance (pos p) next now)
advance-IsMoved p next now h = elim (le-lt-cases now (next +ℤ pos p)) [
  | inl e ↦ rw (advance_early (pos p) next now e) (record {
    count = 1;
    moved_by = ap (λ m. next +ℤ pos m) (omega arith);
    count_pos = omega arith;
    not_before = e;
    first = inl refl;
  })
  | inr l ↦
      let ahead = distance (next +ℤ pos p) now in
      let (above, below) = round_up ahead p (distance_pos (next +ℤ pos p) now l) h in
      let b = bounds next now p (periods ahead p * p) l above below in
      rw
        (
          advance_late (pos p) next now l,
          catch_up_lem p (next +ℤ pos p) now h l,
          add_pos next p (periods ahead p * p),
        )
        (record {
          count = suc (periods ahead p);
          moved_by = ap (λ m. next +ℤ pos m) (omega arith);
          count_pos = omega arith;
          not_before = b.0;
          first = inr b.1;
        })
]

and_true : (b : Bool) → (b && true) ≡ b
and_true true = refl
and_true false = refl

module _ {C : Type 0} where
  abbrev pub called : ℤ → TimerImpl C → TimerImpl C
  called now timer = record timer {
    last_call_time = now;
    next_call_time = advance timer.period timer.next_call_time now;
  }

  abbrev pub activated : ℤ → TimerImpl C → C → Activation C
  activated now timer callback = record {
    callback = callback;
    since_last_call = now -ℤ timer.last_call_time;
    intended_activation = timer.next_call_time;
    instance_of = timer.bound_instance;
  }

  pub call_ok :
      (timer : TimerImpl C) (callback : C) (n : ℕ)
      → timer.canceled ≡ false
      → timer.callback ≡ some callback
      → timer_call (now_is (pos n)) timer
        ≡ (timer_ok, some (activated (pos n) timer callback), called (pos n) timer)
  unfolding timer_call
  call_ok timer callback n c b =
      let e : ltb_ℤ (pos n) (pos 0) ≡ false = ground arith in rw (c, e, b) refl

  pub is_ready_lem :
      (timer : TimerImpl C) (t : ℤ)
      → timer.canceled ≡ false
      → is_ready (now_is t) timer ≡ (timer_ok, some (leb_ℤ timer.next_call_time t))
  unfolding is_ready get_time_until_next_call ◌-ℤ◌
  is_ready_lem timer t c =
      let e : leb_ℤ (timer.next_call_time -ℤ t) (pos 0) ≡ leb_ℤ timer.next_call_time t =
        ground arith in
      rw (c, e, and_true (leb_ℤ timer.next_call_time t)) refl

  -- After a call at a time that is not negative, of a timer with a positive period that is not
  -- canceled, the time of the next call is moved by a positive number of whole periods, to the first
  -- such time that is not before the call; the callback gets the old time of the next call and the
  -- time since the last call; and the timer is ready exactly from the new time on.
  pub timer_call_lem :
      (timer : TimerImpl C) (callback : C) (p n t : ℕ)
      → timer.period ≡ pos p
      → 0 < p
      → timer.canceled ≡ false
      → timer.callback ≡ some callback
      → let (ret, activation, timer') = timer_call (now_is (pos n)) timer in
        (ret ≡ timer_ok)
        × (activation ≡ some (activated (pos n) timer callback))
        × IsMoved p timer.next_call_time (pos n) timer'.next_call_time
        × (is_ready (now_is (pos t)) timer'
            ≡ (timer_ok, some (leb_ℤ timer'.next_call_time (pos t))))
  timer_call_lem timer callback p n t e h c b = rw (call_ok timer callback n c b) (
    refl,
    refl,
    rw e (advance-IsMoved p timer.next_call_time (pos n) h),
    is_ready_lem (called (pos n) timer) (pos t) c,
  )

  -- The intended activations that the callbacks of a sequence of calls get.
  abbrev pub intended : List ℕ → TimerImpl C → List (Option ℤ)
  intended [] timer = []
  intended (n ∷ times) timer =
      let (ret, activation, timer') = timer_call (now_is (pos n)) timer in
      Option.map (λ a. a.intended_activation) activation ∷ intended times timer'

-- Each call comes at most a period late.
abbrev pub OnTime : ℕ → ℤ → List ℕ → Type 0
OnTime p next [] = Unit {0}
OnTime p next (n ∷ times) = (pos n ≤ℤ next +ℤ pos p) × OnTime p (next +ℤ pos p) times

-- The times `next`, `next` + p, `next` + 2p and so on, one for each call.
abbrev pub timetable : ℕ → ℤ → List ℕ → List (Option ℤ)
timetable p next [] = []
timetable p next (n ∷ times) = some next ∷ timetable p (next +ℤ pos p) times

-- The timer does not drift: where each call comes at most a period late, the intended activations are
-- whole periods apart, whenever the calls come.
pub intended-timetable :
    {C : Type 0} (times : List ℕ) (timer : TimerImpl C) (callback : C) (p : ℕ)
    → timer.period ≡ pos p
    → timer.canceled ≡ false
    → timer.callback ≡ some callback
    → OnTime p timer.next_call_time times
    → intended times timer ≡ timetable p timer.next_call_time times
intended-timetable [] timer callback p e c b h = refl
intended-timetable (n ∷ times) timer callback p e c b (l, h) =
    let moved : advance timer.period timer.next_call_time (pos n) ≡ timer.next_call_time +ℤ pos p =
      rw e (advance_early (pos p) timer.next_call_time (pos n) l) in
    let ih = intended-timetable times (called (pos n) timer) callback p e c b (rw moved h) in
    rw (call_ok timer callback n c b, ih, moved) refl
