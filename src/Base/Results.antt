-- ===== src/Base/Results.antt =====
-- Results of code that throws: a value, or the exception that leaves the call.
use mathlib.Core.Bool.{Bool, true, false}

-- The std exceptions and those of rclcpp/exceptions.hpp that the modelled code throws.
pub data Exception : Type 0 where
  overflow_error underflow_error runtime_error invalid_argument std_out_of_range : Exception
  invalid_parameters parameter_already_declared parameter_not_declared : Exception
  parameter_immutable invalid_parameter_value length_error : Exception

pub data Result {ℓ} (A : Type ℓ) : Type ℓ where
  err : Exception → Result A
  ok : A → Result A

-- `do` over results: the first exception ends the chain.
infixl 5 ◌>>=◌ ◌>>◌
abbrev pub ◌>>=◌ {ℓ κ} : {A : Type ℓ} {B : Type κ} → Result A → (A → Result B) → Result B
call >>= next = elim call [ ok value ↦ next value | err exception ↦ err exception ]

abbrev pub ◌>>◌ {κ} : {B : Type κ} → Result (Unit {0}) → Result B → Result B
check >> next = elim check [ ok _ ↦ next | err exception ↦ err exception ]

-- Throw `e` if the test passes.
abbrev pub throw_if : Bool → Exception → Result (Unit {0})
throw_if true e = err e
throw_if false e = ok tt

abbrev pub is_ok {ℓ} : {A : Type ℓ} → Result A → Bool
is_ok (ok a) = true
is_ok (err e) = false
