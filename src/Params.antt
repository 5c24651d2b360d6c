-- ===== src/Params.antt =====
-- The parameters of a node (rclcpp/rclcpp/src/rclcpp/node_interfaces/node_parameters.cpp): their
-- values, descriptors and storage, and the checks and assignments that declaring and setting share.
-- The messages of rcl_interfaces are records here; the step of an IntegerRange is a uint64 there.
-- A double is an element of `D`, with the operations of C++ in `Floats`.
pub mod Node
pub mod Set
pub mod Query
pub mod Range
pub mod Frame
pub mod Atomic
pub mod Untouched
pub mod ReadOnly
pub mod Declare
pub mod Values
pub mod Lookup
pub mod Listing
pub mod Overrides
pub mod Sources
pub mod EventsFilter
mod Tests
mod SourceTests
use pmros.Base.{
  ℕ, ◌%◌, ◌^◌, Bool, true, false, ◌&&◌, ◌||◌, not, ◌==◌, if◌then◌else◌, Option, none, some, List,
  [], ◌∷◌, ◌++◌,
}
use pmros.Base.Int.{ℤ, ◌-ℤ◌, ltb_ℤ, eqb_ℤ}
use pmros.Base.Maps.{find, insert, nat_key}
use pmros.Base.Bytes.{Bytes, eq_bytes, bytes_key, codes}
use pmros.Chrono.{to_uint64}

-- What the code asks of a double; `epsilon` is std::numeric_limits<double>::epsilon(), `ulp` is
-- the 100.0 of __are_doubles_equal.
pub record Floats {ℓ} (D : Type ℓ) : Type ℓ where
  pub eqb : D → D → Bool
  pub ltb : D → D → Bool
  pub leb : D → D → Bool
  pub add : D → D → D
  pub sub : D → D → D
  pub mul : D → D → D
  pub div : D → D → D
  pub abs : D → D
  pub round : D → D
  pub zero : D
  pub epsilon : D
  pub ulp : D

pub data ParameterType : Type 0 where
  parameter_not_set parameter_bool parameter_integer parameter_double : ParameterType
  parameter_string parameter_byte_array parameter_bool_array : ParameterType
  parameter_integer_array parameter_double_array parameter_string_array : ParameterType

-- The value message: its type, and the field that goes with it.
pub data ParameterValue {ℓ} (D : Type ℓ) : Type ℓ where
  not_set : ParameterValue D
  bool_value : Bool → ParameterValue D
  integer_value : ℤ → ParameterValue D
  double_value : D → ParameterValue D
  string_value : Bytes → ParameterValue D
  byte_array_value : List ℕ → ParameterValue D
  bool_array_value : List Bool → ParameterValue D
  integer_array_value : List ℤ → ParameterValue D
  double_array_value : List D → ParameterValue D
  string_array_value : List Bytes → ParameterValue D

unfoldable pub get_type {ℓ} : {D : Type ℓ} → ParameterValue D → ParameterType
get_type not_set = parameter_not_set
get_type (bool_value b) = parameter_bool
get_type (integer_value n) = parameter_integer
get_type (double_value x) = parameter_double
get_type (string_value s) = parameter_string
get_type (byte_array_value bs) = parameter_byte_array
get_type (bool_array_value bs) = parameter_bool_array
get_type (integer_array_value ns) = parameter_integer_array
get_type (double_array_value xs) = parameter_double_array
get_type (string_array_value ss) = parameter_string_array

-- std::vector::operator==
abbrev eq_list {ℓ} : {A : Type ℓ} → (A → A → Bool) → List A → List A → Bool
eq_list eq [] [] = true
eq_list eq [] (b ∷ ys) = false
eq_list eq (a ∷ xs) [] = false
eq_list eq (a ∷ xs) (b ∷ ys) = eq a b && eq_list eq xs ys

abbrev eq_bool : Bool → Bool → Bool
eq_bool true b = b
eq_bool false b = not b

pub record IntegerRange : Type 0 where
  pub from_value : ℤ
  pub to_value : ℤ
  pub step : ℕ

pub record FloatingPointRange {ℓ} (D : Type ℓ) : Type ℓ where
  pub from_value : D
  pub to_value : D
  pub step : D

pub record ParameterDescriptor {ℓ} (D : Type ℓ) : Type ℓ where
  pub name : Bytes
  pub type : ParameterType
  pub description : Bytes
  pub additional_constraints : Bytes
  pub read_only : Bool
  pub floating_point_range : List (FloatingPointRange D)
  pub integer_range : List IntegerRange

pub record ParameterInfo {ℓ} (D : Type ℓ) : Type ℓ where
  pub value : ParameterValue D
  pub descriptor : ParameterDescriptor D

pub record Parameter {ℓ} (D : Type ℓ) : Type ℓ where
  pub name : Bytes
  pub value : ParameterValue D

pub record SetParametersResult : Type 0 where
  pub successful : Bool
  pub reason : Bytes

pub record ParameterEvent {ℓ} (D : Type ℓ) : Type ℓ where
  pub stamp : ℕ
  pub node : Bytes
  pub new_parameters : List (Parameter D)
  pub changed_parameters : List (Parameter D)
  pub deleted_parameters : List (Parameter D)

abbrev pub Infos {ℓ} : Type ℓ → Type ℓ
Infos D = List (Bytes × ParameterInfo D)

-- The user's callback; `none` where none is set.
abbrev pub Callback {ℓ} : Type ℓ → Type ℓ
Callback D = Option (List (Parameter D) → SetParametersResult)

abbrev pub accepted : SetParametersResult
accepted = record { successful = true; reason = [] }

-- What follows the name in the reason.
abbrev pub out_of_range : Bytes → Bytes → SetParametersResult
out_of_range name kind = record {
  successful = false;
  reason = codes "Parameter {" ++ name ++ codes "} doesn't comply with " ++ kind ++ codes " range.";
}

unfoldable pub check_integer : Bytes → IntegerRange → ℤ → SetParametersResult
check_integer name r v =
    if eqb_ℤ v r.from_value || eqb_ℤ v r.to_value
    then accepted
    else if ltb_ℤ v r.from_value || ltb_ℤ r.to_value v
    then out_of_range name (codes "integer")
    else if r.step == 0
    then accepted
    else if to_uint64 (v -ℤ r.from_value) % r.step == 0
    then accepted
    else out_of_range name (codes "integer")

abbrev pub check_integers : Bytes → List IntegerRange → ℤ → SetParametersResult
check_integers name [] v = accepted
check_integers name (r ∷ rs) v = check_integer name r v

module _ {ℓ} {D : Type ℓ} where
  abbrev pub default_descriptor : ParameterDescriptor D
  default_descriptor = record {
    name = [];
    type = parameter_not_set;
    description = [];
    additional_constraints = [];
    read_only = false;
    floating_point_range = [];
    integer_range = [];
  }

  abbrev pub default_info : ParameterInfo D
  default_info = record { value = not_set; descriptor = default_descriptor }

  -- What `operator[]` of the storage refers to.
  abbrev pub info_of : Bytes → Infos D → ParameterInfo D
  info_of name infos = elim (find name infos) [ none ↦ default_info | some i ↦ i ]

  -- The assignments of a set that was accepted.
  abbrev pub assigned : Parameter D → Infos D → ParameterInfo D
  assigned p infos = record {
    value = p.value;
    descriptor = record (info_of p.name infos).descriptor {
      name = p.name;
      type = get_type p.value;
    };
  }

  abbrev pub assign : Parameter D → Infos D → Infos D
  assign p infos = insert p.name (assigned p infos) infos

  unfoldable pub assign_all : List (Parameter D) → Infos D → Infos D
  assign_all [] infos = infos
  assign_all (p ∷ ps) infos = assign_all ps (assign p infos)

  module _ ⦃f : Floats D⦄ where
    -- ParameterValue::operator==
    unfoldable pub eq_value : ParameterValue D → ParameterValue D → Bool
    eq_value not_set not_set = true
    eq_value (bool_value a) (bool_value b) = eq_bool a b
    eq_value (integer_value a) (integer_value b) = eqb_ℤ a b
    eq_value (double_value a) (double_value b) = f.eqb a b
    eq_value (string_value a) (string_value b) = eq_bytes a b
    eq_value (byte_array_value a) (byte_array_value b) = eq_bytes a b
    eq_value (bool_array_value a) (bool_array_value b) = eq_list eq_bool a b
    eq_value (integer_array_value a) (integer_array_value b) = eq_list eqb_ℤ a b
    eq_value (double_array_value a) (double_array_value b) = eq_list f.eqb a b
    eq_value (string_array_value a) (string_array_value b) = eq_list eq_bytes a b
    eq_value a b = false

    unfoldable pub are_doubles_equal : D → D → Bool
    are_doubles_equal x y =
        f.leb (f.abs (f.sub x y)) (f.mul (f.mul f.epsilon (f.abs (f.add x y))) f.ulp)

    unfoldable pub check_double : Bytes → FloatingPointRange D → D → SetParametersResult
    unfolding are_doubles_equal
    check_double name r v =
        let rounded_div = f.round (f.div (f.sub v r.from_value) r.step) in
        if are_doubles_equal v r.from_value || are_doubles_equal v r.to_value
        then accepted
        else if f.ltb v r.from_value || f.ltb r.to_value v
        then out_of_range name (codes "floating point")
        else if f.eqb r.step f.zero
        then accepted
        else if are_doubles_equal v (f.add r.from_value (f.mul rounded_div r.step))
        then accepted
        else out_of_range name (codes "floating point")

    abbrev check_doubles : Bytes → List (FloatingPointRange D) → D → SetParametersResult
    check_doubles name [] v = accepted
    check_doubles name (r ∷ rs) v = check_double name r v

    unfoldable pub check_parameter_value_in_range :
        ParameterDescriptor D → ParameterValue D → SetParametersResult
    check_parameter_value_in_range d (integer_value v) = check_integers d.name d.integer_range v
    check_parameter_value_in_range d (double_value v) =
        check_doubles d.name d.floating_point_range v
    check_parameter_value_in_range d v = accepted

    -- Looking a descriptor up by `operator[]` adds the entry that is missing.
    unfoldable pub check_parameters : Infos D → List (Parameter D) → SetParametersResult × Infos D
    check_parameters infos [] = (accepted, infos)
    check_parameters infos (p ∷ ps) =
        let info = info_of p.name infos in
        let result = check_parameter_value_in_range info.descriptor p.value in
        let infos' = insert p.name info infos in
        let rest = check_parameters infos' ps in
        if result.successful then rest else (result, infos')

    abbrev pub ask : Callback D → List (Parameter D) → SetParametersResult
    ask none ps = accepted
    ask (some callback) ps = callback ps

    abbrev after_check :
        List (Parameter D) → SetParametersResult × Infos D → SetParametersResult × Infos D
    after_check ps (result, infos) =
        if result.successful then (result, assign_all ps infos) else (result, infos)

    unfoldable pub set_parameters_atomically_common :
        List (Parameter D) → Infos D → Callback D → SetParametersResult × Infos D
    set_parameters_atomically_common ps infos callback =
        let result = ask callback ps in
        if result.successful then after_check ps (check_parameters infos ps) else (result, infos)
