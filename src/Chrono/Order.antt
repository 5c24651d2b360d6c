-- ===== src/Chrono/Order.antt =====
-- Sums and differences of times undo one another, and the comparisons are one order.
use pmros.Base.{◌≡◌, refl, Bool, true, false, not, arith, ◌⊎◌, subst, [], ◌∷◌, All, ◌↔◌, sym, ◌∙◌}
use pmros.Base.Int.{ℤ, ◌+ℤ◌, ◌-ℤ◌, InInt64, ltb_ℤ, eqb_ℤ, +ℤ_cancel, int_laws, eq_of_parts}
use pmros.Base.Results.{ok, err, runtime_error}
use pmros.Chrono.Duration.{Duration}
use pmros.Chrono.TimePoint.{
  Time, ClockType, clock_uninitialized, ros_time, system_time, steady_time, same_clock,
}
use pmros.Chrono.TimePoint
use pmros.Chrono.Bounds.{
  checked, checked-InInt64, time_add-checked, time_sub-checked, sub_time-checked,
}

checked-ok {ℓ} :
    {A : Type ℓ} (exact : ℤ) (value : A) {r : A} → checked exact value ≡ ok r → value ≡ r
checked-ok exact value h = ground arith

checked_fits {ℓ} :
    {A : Type ℓ} (exact : ℤ) (value : A) → InInt64 exact → checked exact value ≡ ok value
checked_fits exact value h = ground arith

same_clock_refl : (c : ClockType) → same_clock c c ≡ true
same_clock_refl clock_uninitialized = refl
same_clock_refl ros_time = refl
same_clock_refl system_time = refl
same_clock_refl steady_time = refl

cancel_left : (a b : ℤ) → a +ℤ b -ℤ a ≡ b
cancel_left a b = omega int_laws

module _ (t : Time) (d : Duration) (ht : InInt64 t.nanoseconds) (hd : InInt64 d.nanoseconds) where
  abbrev shifted : Time
  shifted = record t { nanoseconds = t.nanoseconds +ℤ d.nanoseconds }

  module _ (fits : InInt64 (t.nanoseconds +ℤ d.nanoseconds)) where
    sub-shifted : TimePoint.sub shifted d ≡ ok t
    sub-shifted =
        time_sub-checked shifted d fits hd
        ∙ rw (+ℤ_cancel t.nanoseconds d.nanoseconds) (checked_fits t.nanoseconds t ht)

    sub_time-shifted : TimePoint.sub_time shifted t ≡ ok d
    sub_time-shifted =
        sub_time-checked shifted t fits ht
        ∙ rw (same_clock_refl t.clock_type, cancel_left t.nanoseconds d.nanoseconds)
            (checked_fits d.nanoseconds d hd)

  -- If adding a duration to a time does not throw, the sum fits an int64_t, taking the duration off
  -- gives the time back, and the difference to the time is the duration.
  pub sub-add :
      (u : Time)
      → TimePoint.add t d ≡ ok u
      → InInt64 u.nanoseconds × (TimePoint.sub u d ≡ ok t) × (TimePoint.sub_time u t ≡ ok d)
  sub-add u h =
      subst
        (λ u. InInt64 u.nanoseconds × (TimePoint.sub u d ≡ ok t) × (TimePoint.sub_time u t ≡ ok d))
        (checked-ok (t.nanoseconds +ℤ d.nanoseconds) shifted sum)
        (fits, sub-shifted fits, sub_time-shifted fits)
    where
      sum : checked (t.nanoseconds +ℤ d.nanoseconds) shifted ≡ ok u
      sum = sym (time_add-checked t d ht hd) ∙ h

      fits : InInt64 (t.nanoseconds +ℤ d.nanoseconds)
      fits = checked-InInt64 (t.nanoseconds +ℤ d.nanoseconds) shifted sum

-- What the six comparisons return on times of one clock.
pub record Compares (a b : Time) : Type 0 where
  pub smaller : Bool
  pub equal : Bool
  pub larger : Bool
  pub lt_ok : TimePoint.lt a b ≡ ok smaller
  pub eq_ok : TimePoint.eq a b ≡ ok equal
  pub gt_ok : TimePoint.gt a b ≡ ok larger
  pub le_ok : TimePoint.le a b ≡ ok (not larger)
  pub ge_ok : TimePoint.ge a b ≡ ok (not smaller)
  pub ne_ok : TimePoint.ne a b ≡ ok (not equal)
  pub exactly_one :
      (smaller ∷ equal ∷ larger ∷ [] ≡ true ∷ false ∷ false ∷ [])
      ⊎ (smaller ∷ equal ∷ larger ∷ [] ≡ false ∷ true ∷ false ∷ [])
      ⊎ (smaller ∷ equal ∷ larger ∷ [] ≡ false ∷ false ∷ true ∷ [])
  pub equal_iff : (equal ≡ true) ↔ (a.nanoseconds ≡ b.nanoseconds)

-- On times of one clock no comparison throws; exactly one of `<`, `==` and `>` holds, and `==` holds
-- exactly for equal times; `<=`, `>=` and `!=` are the negations of `>`, `<` and `==`.
pub comparisons : (a b : Time) → same_clock a.clock_type b.clock_type ≡ true → Compares a b
unfolding TimePoint.lt TimePoint.le TimePoint.eq TimePoint.ne TimePoint.gt TimePoint.ge
comparisons a b same = record {
  smaller = ltb_ℤ a.nanoseconds b.nanoseconds;
  equal = eqb_ℤ a.nanoseconds b.nanoseconds;
  larger = ltb_ℤ b.nanoseconds a.nanoseconds;
  lt_ok = rw same refl;
  eq_ok = rw same refl;
  gt_ok = rw same refl;
  le_ok = rw same (ground arith);
  ge_ok = rw same (ground arith);
  ne_ok = rw same refl;
  exactly_one = ground arith;
  equal_iff = ground (arith, eq_of_parts a.nanoseconds b.nanoseconds);
}

-- Times of different clocks are neither compared nor subtracted: each call throws.
pub clock_mismatch :
    (a b : Time)
    → same_clock a.clock_type b.clock_type ≡ false
    → (TimePoint.sub_time a b ≡ err runtime_error)
      × All
          (λ result. result ≡ err runtime_error)
          (TimePoint.lt a b
            ∷ TimePoint.le a b
            ∷ TimePoint.eq a b
            ∷ TimePoint.ne a b
            ∷ TimePoint.ge a b
            ∷ TimePoint.gt a b
            ∷ [])
unfolding TimePoint.lt TimePoint.le TimePoint.eq TimePoint.ne TimePoint.gt TimePoint.ge
    TimePoint.sub_time
clock_mismatch a b other = rw other (refl, (refl, (refl, (refl, (refl, (refl, (refl, tt)))))))
