-- ===== src/Params/Range.antt =====
-- Which integers a parameter with an integer range takes.
use pmros.Base.{
  ℕ, ◌*◌, ◌/◌, ◌%◌, ◌≡◌, ◌↔◌, ◌⊎◌, inl, inr, Bool, true, false, ◌||◌, List, [], ◌∷◌, ◌==◌, refl,
  arith, if◌then◌else◌, ◌∙◌, sym, ap,
}
use native.Mathlib.Nat.{div-add-mod', mul-mod_left}
use pmros.Base.Int.{ℤ, pos, negsuc, ◌+ℤ◌, ◌-ℤ◌, ◌<ℤ◌, InInt64, eq_of_parts, eqb_ℤ, ltb_ℤ}
use pmros.Base.Bytes.{Bytes}
use pmros.Chrono.{to_uint64}
use pmros.Params.{
  IntegerRange, check_integer, check_integers, check_parameter_value_in_range, Floats,
  ParameterDescriptor, integer_value,
}

-- One of the two ends, or an integer between them that is a number of steps above the lower one.
-- With the step 0 that is every integer between them.
abbrev pub OnGrid : IntegerRange → ℤ → Type 0
OnGrid r v = (r.step ≡ 0) ⊎ ((k : ℕ) × (v ≡ r.from_value +ℤ pos (k * r.step)))

abbrev pub Allows : IntegerRange → ℤ → Type 0
Allows r v =
    (v ≡ r.from_value) ⊎ (v ≡ r.to_value) ⊎ ((r.from_value <ℤ v) × (v <ℤ r.to_value) × OnGrid r v)

-- The distance from the lower end, which the cast keeps.
distance : (v w : ℤ) → InInt64 v → InInt64 w → w <ℤ v → v ≡ w +ℤ pos (to_uint64 (v -ℤ w))
unfolding ◌+ℤ◌ ◌-ℤ◌
distance (pos v) (pos w) hv hw lt = ground arith
distance (pos v) (negsuc w) hv hw lt = ground arith
distance (negsuc v) (pos w) hv hw lt = ground arith
distance (negsuc v) (negsuc w) hv hw lt = ground arith

+ℤ_injective : (w : ℤ) (m n : ℕ) → w +ℤ pos m ≡ w +ℤ pos n → m ≡ n
unfolding ◌+ℤ◌
+ℤ_injective (pos w) m n e = ground arith
+ℤ_injective (negsuc w) m n e = ground arith

multiple : (d step : ℕ) → d % step ≡ 0 → d ≡ d / step * step
multiple d step e = omega (arith, div-add-mod' d step)

steps_of_cast :
    (r : IntegerRange) (v : ℤ)
    → InInt64 v
    → InInt64 r.from_value
    → r.from_value <ℤ v
    → to_uint64 (v -ℤ r.from_value) % r.step ≡ 0
    → (k : ℕ) × (v ≡ r.from_value +ℤ pos (k * r.step))
steps_of_cast r v hv hw lt e =
    let d = to_uint64 (v -ℤ r.from_value) in
    (
      d / r.step,
      distance v r.from_value hv hw lt ∙ ap (λ n. r.from_value +ℤ pos n) (multiple d r.step e),
    )

cast_of_steps :
    (r : IntegerRange) (v : ℤ) (k : ℕ)
    → InInt64 v
    → InInt64 r.from_value
    → r.from_value <ℤ v
    → v ≡ r.from_value +ℤ pos (k * r.step)
    → to_uint64 (v -ℤ r.from_value) % r.step ≡ 0
cast_of_steps r v k hv hw lt e =
    let d = to_uint64 (v -ℤ r.from_value) in
    ap (λ n. n % r.step)
      (+ℤ_injective r.from_value d (k * r.step) (sym (distance v r.from_value hv hw lt) ∙ e))
    ∙ mul-mod_left k r.step

-- The tests of the check, one by one.
abbrev verdict : Bool → Bool → Bool → Bool → Bool
verdict at_end outside no_step on_step =
    if at_end then true else if outside then false else if no_step then true else on_step

check_integer-verdict :
    (name : Bytes) (r : IntegerRange) (v : ℤ)
    → (check_integer name r v).successful
      ≡ verdict
          (eqb_ℤ v r.from_value || eqb_ℤ v r.to_value)
          (ltb_ℤ v r.from_value || ltb_ℤ r.to_value v)
          (r.step == 0)
          (to_uint64 (v -ℤ r.from_value) % r.step == 0)
unfolding check_integer
check_integer-verdict name r v = ground arith

check_integer_lem :
    (name : Bytes) (r : IntegerRange) (v : ℤ)
    → InInt64 v
    → InInt64 r.from_value
    → ((check_integer name r v).successful ≡ true) ↔ Allows r v
check_integer_lem name r v hv hw = rw (check_integer-verdict name r v) (
  λ e.
      ground (arith, eq_of_parts v r.from_value, eq_of_parts v r.to_value, steps_of_cast r v hv hw),
  λ a. elim a [
    | inl e ↦ ground (arith, e)
    | inr (inl e) ↦ ground (arith, e)
    | inr (inr (low, high, inl e)) ↦ ground (arith, low, high)
    | inr (inr (low, high, inr (k, e))) ↦ ground (arith, low, high, cast_of_steps r v k hv hw low e)
  ],
)

abbrev pub AllowedBy : List IntegerRange → ℤ → Type 0
AllowedBy [] v = Unit {0}
AllowedBy (r ∷ rs) v = Allows r v

abbrev pub FromInInt64 : List IntegerRange → Type 0
FromInInt64 [] = Unit {0}
FromInInt64 (r ∷ rs) = InInt64 r.from_value

first :
    (name : Bytes) (rs : List IntegerRange) (v : ℤ)
    → InInt64 v
    → FromInInt64 rs
    → ((check_integers name rs v).successful ≡ true) ↔ AllowedBy rs v
first name [] v hv hr = (λ e. tt, λ u. refl)
first name (r ∷ rs) v hv hr = check_integer_lem name r v hv hr

-- An integer is accepted exactly if the descriptor has no integer range, or its first one allows
-- the integer: its two ends, whatever their order, and between them every integer if the step is 0,
-- and those that are whole steps above the lower end if not.
pub check_parameter_value_in_range_lem {ℓ} :
    {D : Type ℓ} ⦃f : Floats D⦄ (d : ParameterDescriptor D) (v : ℤ)
    → InInt64 v
    → FromInInt64 d.integer_range
    → ((check_parameter_value_in_range d (integer_value v)).successful ≡ true)
      ↔ AllowedBy d.integer_range v
unfolding check_parameter_value_in_range
check_parameter_value_in_range_lem d v hv hd = first d.name d.integer_range v hv hd
