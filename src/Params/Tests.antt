-- ===== src/Params/Tests.antt =====
-- A node with a speed from 0 to 10 in steps of 5 and a read-only robot name, and the theorems at it.
use pmros.Base.{
  ℕ, ◌+◌, ◌-◌, ◌*◌, ◌/◌, true, false, ◌==◌, ltb, leb, none, some, List, [], ◌∷◌, ◌≡◌, ◌↔◌, refl,
  is_some, arith,
}
use pmros.Base.Int.{ℤ, pos, ◌-ℤ◌}
use pmros.Base.Maps.{find}
use pmros.Base.Bytes.{Bytes, eq_bytes, bytes_key, codes}
use pmros.Base.Results.{ok, err, invalid_parameters, parameter_already_declared}
use pmros.Params.{
  get_type, Floats, integer_value, string_value, parameter_integer, parameter_string,
  ParameterDescriptor, Parameter, ParameterInfo, accepted, default_descriptor, check_integer,
  check_parameter_value_in_range, check_parameters, assign_all, eq_value,
  set_parameters_atomically_common,
}
use pmros.Params.Node.{
  NodeParameters, is_empty, has_parameter, declare_parameter, declare_parameter_common,
}
use pmros.Params.Set.{
  check_declared, stage, parameters_to_be_set, any_initial_values_used, set_parameters_atomically,
}
use pmros.Params.Query.{get_parameters_by_prefix, list_parameters, listed}
use pmros.Params.Listing.{kept_names, IsSelected, list_parameters-IsSelected}
use pmros.Params.Range.{AllowedBy, check_parameter_value_in_range_lem}
use pmros.Params.Atomic.{IsAtomic, set_parameters_atomically-IsAtomic}
use pmros.Params.Untouched.{set_parameters_atomically_frame}
use pmros.Params.ReadOnly.{
  Call, call_undeclare, call_set_atomically, run_all, HasReadOnly, run_all-HasReadOnly,
}
use pmros.Params.Declare.{declare_parameter_lem}
use pmros.Params.Values.{value_at, or_else, last_value, set_parameters_atomically-last_value}

-- Whole numbers in the place of doubles.
instance abbrev whole : Floats ℕ
whole = record {
  eqb = ◌==◌;
  ltb = ltb;
  leb = leb;
  add = ◌+◌;
  sub = ◌-◌;
  mul = ◌*◌;
  div = ◌/◌;
  abs = λ x. x;
  round = λ x. x;
  zero = 0;
  epsilon = 0;
  ulp = 100;
}

abbrev speed : Bytes
speed = codes "speed"

abbrev robot : Bytes
robot = codes "robot.name"

abbrev speed_descriptor : ParameterDescriptor ℕ
speed_descriptor = record default_descriptor {
  name = speed;
  type = parameter_integer;
  integer_range = record { from_value = pos 0; to_value = pos 10; step = 5 } ∷ [];
}

abbrev speed_info : ParameterInfo ℕ
speed_info = record { value = integer_value (pos 0); descriptor = speed_descriptor }

abbrev robot_info : ParameterInfo ℕ
robot_info = record {
  value = string_value (codes "ant");
  descriptor = record default_descriptor {
    name = robot;
    type = parameter_string;
    read_only = true;
  };
}

abbrev node : NodeParameters ℕ
node = record {
  on_parameters_set_callback = none;
  parameters = (robot, robot_info) ∷ (speed, speed_info) ∷ [];
  parameter_overrides = [];
  allow_undeclared = false;
  has_events_publisher = true;
  published = [];
  combined_name = codes "/node";
}

abbrev set_speed : ℤ → List (Parameter ℕ)
set_speed v = record { name = speed; value = integer_value v } ∷ []

check_parameter_value_in_range_lem_example :
    ((check_parameter_value_in_range speed_descriptor (integer_value (pos 5))).successful ≡ true)
    ↔ AllowedBy speed_descriptor.integer_range (pos 5)
check_parameter_value_in_range_lem_example =
    check_parameter_value_in_range_lem speed_descriptor (pos 5) (ground arith) (ground arith)

set_parameters_atomically-IsAtomic_example :
    IsAtomic node (set_parameters_atomically 3 (set_speed (pos 7)) node)
set_parameters_atomically-IsAtomic_example =
    set_parameters_atomically-IsAtomic 3 (set_speed (pos 7)) node

set_parameters_atomically_frame_example :
    find robot (set_parameters_atomically 3 (set_speed (pos 5)) node).1.parameters
    ≡ find robot node.parameters
set_parameters_atomically_frame_example =
    set_parameters_atomically_frame robot 3 (set_speed (pos 5)) node refl

abbrev calls : List (Call ℕ)
calls =
    call_set_atomically 3 (record { name = robot; value = string_value [] } ∷ [])
    ∷ call_undeclare robot
    ∷ call_set_atomically 4 (set_speed (pos 5))
    ∷ []

run_all-HasReadOnly_example : HasReadOnly robot robot_info (run_all calls node)
run_all-HasReadOnly_example = run_all-HasReadOnly robot robot_info calls node (refl, refl)

abbrev limit : Bytes
limit = codes "limit"

-- A default of 7, which the range of the descriptor does not allow, with an override of 5.
abbrev overridden : NodeParameters ℕ
overridden = record node { parameter_overrides = (limit, integer_value (pos 5)) ∷ [] }

declare_parameter_lem_example :
    let call = declare_parameter limit (integer_value (pos 7)) speed_descriptor overridden in
    (is_empty limit ≡ true → call ≡ (err invalid_parameters, overridden))
    × (is_empty limit ≡ false
        → is_some (find limit overridden.parameters) ≡ true
        → call ≡ (err parameter_already_declared, overridden))
    × (is_empty limit ≡ false
        → find limit overridden.parameters ≡ none
        → (call.0 ≡ ok (integer_value (pos 5)))
          × (find limit call.1.parameters
              ≡ some (record {
                value = integer_value (pos 5);
                descriptor = record speed_descriptor { name = limit };
              }))
          × ((c : Bytes)
              → eq_bytes limit c ≡ false
              → find c call.1.parameters ≡ find c overridden.parameters))
unfolding check_parameter_value_in_range check_integer ◌-ℤ◌ get_type
declare_parameter_lem_example =
    declare_parameter_lem limit (integer_value (pos 7)) speed_descriptor overridden

set_speed_succeeds : (set_parameters_atomically 3 (set_speed (pos 5)) node).0 ≡ ok accepted
unfolding set_parameters_atomically check_declared stage parameters_to_be_set
    any_initial_values_used set_parameters_atomically_common check_parameters
    check_parameter_value_in_range check_integer ◌-ℤ◌
set_speed_succeeds = refl

set_parameters_atomically-last_value_example :
    value_at speed (set_parameters_atomically 3 (set_speed (pos 5)) node).1.parameters
    ≡ or_else (last_value speed (set_speed (pos 5))) (value_at speed node.parameters)
set_parameters_atomically-last_value_example =
    set_parameters_atomically-last_value 3 (set_speed (pos 5)) node accepted set_speed_succeeds refl
      (refl, tt) (refl, tt) speed

-- Where undeclared parameters are allowed, a refused set leaves the name before the one that its range
-- refuses.
abbrev open_node : NodeParameters ℕ
open_node = record node { allow_undeclared = true }

abbrev limit_and_speed : List (Parameter ℕ)
limit_and_speed = record { name = limit; value = integer_value (pos 1) } ∷ set_speed (pos 7)

refused_but_declared :
    has_parameter limit (set_parameters_atomically 3 limit_and_speed open_node).1 ≡ true
unfolding has_parameter set_parameters_atomically check_declared stage declare_parameter_common
    parameters_to_be_set any_initial_values_used set_parameters_atomically_common check_parameters
    check_parameter_value_in_range check_integer assign_all eq_value ◌-ℤ◌
refused_but_declared = refl

listed_names :
    list_parameters (codes "robot" ∷ []) 0 node
    ≡ record { names = robot ∷ []; prefixes = codes "robot" ∷ [] }
unfolding list_parameters
listed_names = refl

by_prefix_names :
    (get_parameters_by_prefix (codes "robot") node []).1
    ≡ (codes "name", record { name = robot; value = robot_info.value }) ∷ []
unfolding get_parameters_by_prefix
by_prefix_names = refl

list_parameters-IsSelected_example :
    ((list_parameters (codes "robot" ∷ []) 0 node).names
      ≡ kept_names (listed (codes "robot" ∷ []) 0) node.parameters)
    × ((name : Bytes)
        → (listed (codes "robot" ∷ []) 0 name ≡ true) ↔ IsSelected (codes "robot" ∷ []) 0 name)
list_parameters-IsSelected_example = list_parameters-IsSelected (codes "robot" ∷ []) 0 node
