-- ===== src/Params/Node.antt =====
-- NodeParameters: its state, and declaring and undeclaring parameters (node_parameters.cpp). A call
-- returns its result or its exception, and the state that it leaves. The publisher of events is the
-- list of what it has published.
use pmros.Base.{Bool, true, false, if◌then◌else◌, none, some, List, [], ◌∷◌, ◌++◌, is_some}
use pmros.Base.Maps.{find, insert, erase}
use pmros.Base.Bytes.{Bytes, bytes_key}
use pmros.Base.Results.{
  Result, ok, err, invalid_parameters, parameter_already_declared, parameter_not_declared,
  parameter_immutable, invalid_parameter_value,
}
use pmros.Params.{
  Floats, ParameterValue, not_set, ParameterDescriptor, Parameter, SetParametersResult,
  ParameterEvent, Infos, Callback, info_of, set_parameters_atomically_common,
}

pub record NodeParameters {ℓ} (D : Type ℓ) : Type ℓ where
  pub on_parameters_set_callback : Callback D
  pub parameters : Infos D
  pub parameter_overrides : List (Bytes × ParameterValue D)
  pub allow_undeclared : Bool
  pub has_events_publisher : Bool
  pub published : List (ParameterEvent D)
  pub combined_name : Bytes

-- The result of __declare_parameter_common, with what it leaves in its two out-parameters.
pub record Declaration {ℓ} (D : Type ℓ) : Type ℓ where
  pub result : SetParametersResult
  pub parameters_out : Infos D
  pub parameter_event_out : ParameterEvent D

abbrev pub is_empty : Bytes → Bool
is_empty [] = true
is_empty (c ∷ s) = false

module _ {ℓ} {D : Type ℓ} where
  abbrev pub empty_event : ParameterEvent D
  empty_event = record {
    stamp = 0;
    node = [];
    new_parameters = [];
    changed_parameters = [];
    deleted_parameters = [];
  }

  abbrev pub publish : ParameterEvent D → NodeParameters D → NodeParameters D
  publish event n =
      if n.has_events_publisher then record n { published = n.published ++ (event ∷ []) } else n

  unfoldable pub has_parameter : Bytes → NodeParameters D → Bool
  has_parameter name n = is_some (find name n.parameters)

  unfoldable pub undeclare_parameter :
      Bytes → NodeParameters D → Result (Unit {0}) × NodeParameters D
  undeclare_parameter name n = elim (find name n.parameters) [
    | none ↦ (err parameter_not_declared, n)
    | some info ↦
        if info.descriptor.read_only
        then (err parameter_immutable, n)
        else (ok tt, record n { parameters = erase name n.parameters })
  ]

  module _ ⦃f : Floats D⦄ where
    abbrev pub initial_value :
        Bytes → ParameterValue D → List (Bytes × ParameterValue D) → Bool → ParameterValue D
    initial_value name default_value overrides use_overrides = elim (find name overrides) [
      | none ↦ default_value
      | some v ↦ if use_overrides then v else default_value
    ]

    unfoldable pub declare_parameter_common :
        Bytes
        → ParameterValue D
        → ParameterDescriptor D
        → Infos D
        → List (Bytes × ParameterValue D)
        → Callback D
        → ParameterEvent D
        → Bool
        → Declaration D
    declare_parameter_common name default_value descriptor out overrides callback event
          use_overrides =
        let infos : Infos D = (name, record { value = not_set; descriptor = descriptor }) ∷ [] in
        let p : Parameter D = record {
          name = name;
          value = initial_value name default_value overrides use_overrides;
        } in
        let (result, infos') = set_parameters_atomically_common (p ∷ []) infos callback in
        record {
          result = result;
          parameters_out = insert name (info_of name infos') out;
          parameter_event_out = record event { new_parameters = event.new_parameters ++ (p ∷ []) };
        }

    abbrev pub declared_value :
        Declaration D → NodeParameters D → Bytes → Result (ParameterValue D) × NodeParameters D
    declared_value d n name =
        let n' : NodeParameters D = record n { parameters = d.parameters_out } in
        if d.result.successful
        then (ok (info_of name d.parameters_out).value, publish d.parameter_event_out n')
        else (err invalid_parameter_value, n')

    unfoldable pub declare_parameter :
        Bytes
        → ParameterValue D
        → ParameterDescriptor D
        → NodeParameters D
        → Result (ParameterValue D) × NodeParameters D
    declare_parameter name default_value descriptor n =
        if is_empty name
        then (err invalid_parameters, n)
        else if is_some (find name n.parameters)
        then (err parameter_already_declared, n)
        else declared_value
            (declare_parameter_common name default_value descriptor n.parameters
              n.parameter_overrides n.on_parameters_set_callback empty_event true)
            n name
