-- ===== src/Params/Overrides.antt =====
-- Where the first values of parameters come from: the structs of rcl_yaml_param_parser
-- (rclcpp/rclcpp/src/rclcpp/parameter_map.cpp), and what the constructor of NodeParameters makes of
-- them (node_parameters.cpp). A pointer of a struct is an Option, and an array with its size a list.
use pmros.Base.{ℕ, Bool, ◌||◌, ◌==◌, if◌then◌else◌, Option, none, some, List, [], ◌∷◌, ◌++◌}
use mathlib.Core.Option
use pmros.Base.Int.{ℤ}
use pmros.Base.Maps.{find, insert}
use pmros.Base.Bytes.{Bytes, eq_bytes, bytes_key, codes}
use pmros.Base.Results.{Result, ok, err, ◌>>=◌, invalid_parameters, invalid_parameter_value}
use pmros.Params.{
  Floats, ParameterValue, bool_value, integer_value, double_value, string_value, byte_array_value,
  bool_array_value, integer_array_value, double_array_value, string_array_value, Parameter,
  default_descriptor,
}
use pmros.Params.Node.{NodeParameters, has_parameter, declare_parameter}

-- rcl_variant_t
pub record Variant {ℓ} (D : Type ℓ) : Type ℓ where
  pub bool_value : Option Bool
  pub integer_value : Option ℤ
  pub double_value : Option D
  pub string_value : Option Bytes
  pub byte_array_value : Option (List ℕ)
  pub bool_array_value : Option (List Bool)
  pub integer_array_value : Option (List ℤ)
  pub double_array_value : Option (List D)
  pub string_array_value : Option (List Bytes)

-- rcl_params_t: the names of the nodes, and for each node the names and the values.
pub record ParamsStruct {ℓ} (D : Type ℓ) : Type ℓ where
  pub node_names : Option (List (Option Bytes))
  pub params : Option (List (List (Option Bytes × Variant D)))

-- A leading slash, '/'.
abbrev pub fully_qualified : Bytes → Bytes
fully_qualified [] = codes "/"
fully_qualified (c ∷ name) = if c == 47 then c ∷ name else codes "/" ++ (c ∷ name)

abbrev pub ParameterMap {ℓ} : Type ℓ → Type ℓ
ParameterMap D = List (Bytes × List (Parameter D))

abbrev pub applies : Bytes → Bytes → Bool
applies combined_name name = eq_bytes name (codes "/**") || eq_bytes name combined_name

module _ {ℓ} {D : Type ℓ} where
  abbrev if_set : Option (ParameterValue D) → Result (ParameterValue D) → Result (ParameterValue D)
  if_set none rest = rest
  if_set (some v) rest = ok v

  unfoldable pub parameter_value_from : Option (Variant D) → Result (ParameterValue D)
  parameter_value_from none = err invalid_parameter_value
  parameter_value_from (some v) = if_set (Option.map bool_value v.bool_value) (
      if_set (Option.map integer_value v.integer_value) (
        if_set (Option.map double_value v.double_value) (
          if_set (Option.map string_value v.string_value) (
            if_set (Option.map byte_array_value v.byte_array_value) (
              if_set (Option.map bool_array_value v.bool_array_value) (
                if_set (Option.map integer_array_value v.integer_array_value) (
                  if_set (Option.map double_array_value v.double_array_value) (
                    if_set (Option.map string_array_value v.string_array_value)
                      (err invalid_parameter_value)))))))))

  -- The parameters of one node.
  abbrev pub params_of_node : List (Option Bytes × Variant D) → Result (List (Parameter D))
  params_of_node [] = ok []
  params_of_node ((none, v) ∷ entries) = err invalid_parameters
  params_of_node ((some name, v) ∷ entries) =
      let rest = params_of_node entries in
      parameter_value_from (some v) >>= λ value.
      rest >>= λ ps. ok (record { name = name; value = value } ∷ ps)

  abbrev pub params_in : Bytes → ParameterMap D → List (Parameter D)
  params_in name m = elim (find name m) [ none ↦ [] | some ps ↦ ps ]

  abbrev pub append_params : Bytes → List (Parameter D) → ParameterMap D → ParameterMap D
  append_params name ps m = insert name (params_in name m ++ ps) m

  abbrev pub add_nodes :
      List (Option Bytes)
      → List (List (Option Bytes × Variant D))
      → ParameterMap D
      → Result (ParameterMap D)
  add_nodes [] nodes m = ok m
  add_nodes (name ∷ names) [] m = ok m
  add_nodes (none ∷ names) (entries ∷ nodes) m = err invalid_parameters
  add_nodes (some name ∷ names) (entries ∷ nodes) m = elim (params_of_node entries) [
    | err e ↦ err e
    | ok ps ↦ add_nodes names nodes (append_params (fully_qualified name) ps m)
  ]

  unfoldable pub parameter_map_from : Option (ParamsStruct D) → Result (ParameterMap D)
  parameter_map_from none = err invalid_parameters
  parameter_map_from (some c_params) = elim c_params.node_names [
    | none ↦ err invalid_parameters
    | some names ↦ elim c_params.params [
      | none ↦ err invalid_parameters
      | some nodes ↦ add_nodes names nodes []
    ]
  ]

  -- The overrides that the constructor collects.
  abbrev pub override :
      List (Parameter D) → List (Bytes × ParameterValue D) → List (Bytes × ParameterValue D)
  override [] m = m
  override (p ∷ ps) m = override ps (insert p.name p.value m)

  abbrev pub override_map :
      Bytes → ParameterMap D → List (Bytes × ParameterValue D) → List (Bytes × ParameterValue D)
  override_map combined_name [] m = m
  override_map combined_name ((name, ps) ∷ nodes) m =
      override_map combined_name nodes (if applies combined_name name then override ps m else m)

  abbrev pub override_files :
      Bytes
      → List (ParameterMap D)
      → List (Bytes × ParameterValue D)
      → List (Bytes × ParameterValue D)
  override_files combined_name [] m = m
  override_files combined_name (f ∷ fs) m =
      override_files combined_name fs (override_map combined_name f m)

  -- The maps of the parameter files, and then the overrides that the constructor is given.
  unfoldable pub collect_overrides :
      Bytes → List (ParameterMap D) → List (Parameter D) → List (Bytes × ParameterValue D)
  collect_overrides combined_name files given =
      override given (override_files combined_name files [])

  module _ ⦃f : Floats D⦄ where
    -- automatically_declare_parameters_from_overrides; an exception ends the loop.
    unfoldable pub declare_overrides :
        List (Bytes × ParameterValue D) → NodeParameters D → Result (Unit {0}) × NodeParameters D
    declare_overrides [] n = (ok tt, n)
    declare_overrides ((name, v) ∷ overrides) n =
        let (r, n') = declare_parameter name v default_descriptor n in
        let skipped = declare_overrides overrides n in
        let rest = declare_overrides overrides n' in
        if has_parameter name n then skipped else elim r [ err e ↦ (err e, n') | ok value ↦ rest ]
