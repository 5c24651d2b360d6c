-- ===== src/Params/Lookup.antt =====
-- What the calls that read a list of parameters return.
use pmros.Base.{
  Bool, true, ◌&&◌, ◌||◌, none, some, List, [], ◌∷◌, ◌≡◌, ◌∙◌, arith, if◌then◌else◌, map, ap,
}
use pmros.Base.Maps.{find}
use pmros.Base.Bytes.{Bytes, bytes_key}
use pmros.Base.Results.{Result, ok, err, parameter_not_declared}
use pmros.Params.{
  parameter_not_set, ParameterValue, not_set, Parameter, ParameterInfo, default_descriptor,
  get_type,
}
use pmros.Params.Node.{NodeParameters, has_parameter}
use pmros.Params.Query.{for_each, get_parameters, describe_parameters, get_parameter_types}

module _ {ℓ} {D : Type ℓ} (n : NodeParameters D) where
  abbrev pub all_declared : List Bytes → Bool
  all_declared [] = true
  all_declared (name ∷ names) = has_parameter name n && all_declared names

  -- What the storage says of a name, or what an undeclared name stands for.
  abbrev pub look_up {κ} : {B : Type κ} → (ParameterInfo D → B) → B → Bytes → B
  look_up found missing name = elim (find name n.parameters) [
    | none ↦ missing
    | some info ↦ found info
  ]

  abbrev pub answer {κ} : {B : Type κ} → (Bytes → B) → List Bytes → Result (List B)
  answer of names =
      if n.allow_undeclared || all_declared names
      then ok (map of names)
      else err parameter_not_declared

  for_each-answer {κ} :
      {B : Type κ} (found : Bytes → ParameterInfo D → B) (missing : Bytes → B) (names : List Bytes)
      → for_each found missing names n
        ≡ answer (λ name. look_up (found name) (missing name) name) names
  unfolding has_parameter
  for_each-answer found missing [] = ground arith
  for_each-answer found missing (name ∷ names) = ground (arith, for_each-answer found missing names)

  abbrev pub named : Bytes → ParameterValue D → Parameter D
  named name value = record { name = name; value = value }

  look_up-named :
      (name : Bytes)
      → look_up (λ info. named name info.value) (named name not_set) name
        ≡ named name (look_up (λ info. info.value) not_set name)
  look_up-named name = ground arith

  -- get_parameters, describe_parameters and get_parameter_types throw exactly if undeclared parameters
  -- are not allowed and one of the names is not declared. If they do not throw, they return for every
  -- name, in order, the stored value, descriptor and type, and for an undeclared name no value, the
  -- default descriptor with the name, and the type not_set.
  pub get_parameters_lem :
      (names : List Bytes)
      → (get_parameters names n
          ≡ answer (λ name. named name (look_up (λ info. info.value) not_set name)) names)
        × (describe_parameters names n
            ≡ answer
                (λ name.
                  look_up
                    (λ info. info.descriptor)
                    (record default_descriptor { name = name })
                    name)
                names)
        × (get_parameter_types names n
            ≡ answer (λ name. look_up (λ info. get_type info.value) parameter_not_set name) names)
  unfolding get_parameters describe_parameters get_parameter_types
  get_parameters_lem names = (
    for_each-answer (λ name info. named name info.value) (λ name. named name not_set) names
        ∙ ap (λ of. answer of names) (λ i name. look_up-named name i),
    for_each-answer (λ name info. info.descriptor)
        (λ name. record default_descriptor { name = name }) names,
    for_each-answer (λ name info. get_type info.value) (λ name. parameter_not_set) names,
  )
