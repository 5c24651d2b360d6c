-- ===== src/Params/Set.antt =====
-- NodeParameters: setting parameters (node_parameters.cpp). Assertions are compiled out, as in a
-- release build.
use pmros.Base.{
  ℕ, Bool, true, false, ◌&&◌, not, if◌then◌else◌, Option, none, some, List, [], ◌∷◌, ◌++◌, any,
  is_some,
}
use pmros.Base.Maps.{find, insert, erase}
use pmros.Base.Bytes.{Bytes, eq_bytes, bytes_key, codes}
use pmros.Base.Results.{Exception, Result, ok, err, invalid_parameters, parameter_not_declared}
use pmros.Params.{
  Floats, ParameterValue, not_set, Parameter, ParameterInfo, SetParametersResult, ParameterEvent,
  Infos, accepted, default_descriptor, eq_value, set_parameters_atomically_common,
}
use pmros.Params.Node.{
  NodeParameters, Declaration, is_empty, empty_event, publish, declare_parameter_common,
}

-- Where the checks of set_parameters_atomically end.
pub data Checked {ℓ} (D : Type ℓ) : Type ℓ where
  throws : Exception → Checked D
  refused : SetParametersResult → Checked D
  undeclared : List (Parameter D) → Checked D

abbrev read_only_reason : Bytes → SetParametersResult
read_only_reason name = record {
  successful = false;
  reason = codes "parameter '" ++ name ++ codes "' cannot be set because it is read-only";
}

abbrev as_result {ℓ} : {S : Type ℓ} → SetParametersResult × S → Result SetParametersResult × S
as_result (r, s) = (ok r, s)

module _ {ℓ} {D : Type ℓ} where
  abbrev pub to_declare : Parameter D → Checked D → Checked D
  to_declare p (throws e) = throws e
  to_declare p (refused r) = refused r
  to_declare p (undeclared ps) = undeclared (p ∷ ps)

  unfoldable pub check_declared : NodeParameters D → List (Parameter D) → Checked D
  check_declared n [] = undeclared []
  check_declared n (p ∷ ps) =
      let rest = check_declared n ps in
      if is_empty p.name then throws invalid_parameters else elim (find p.name n.parameters) [
        | none ↦ if n.allow_undeclared then to_declare p rest else throws parameter_not_declared
        | some info ↦ if info.descriptor.read_only then refused (read_only_reason p.name) else rest
      ]

  -- find_if over the parameters, and the assignment to the one that is found.
  abbrev value_by_name : Bytes → List (Parameter D) → ParameterValue D
  value_by_name name [] = not_set
  value_by_name name (p ∷ ps) = if eq_bytes p.name name then p.value else value_by_name name ps

  abbrev pub replace_by_name : Bytes → ParameterValue D → List (Parameter D) → List (Parameter D)
  replace_by_name name v [] = []
  replace_by_name name v (p ∷ ps) =
      if eq_bytes p.name name
      then record { name = name; value = v } ∷ ps
      else p ∷ replace_by_name name v ps

  abbrev pub replace_all : Infos D → List (Parameter D) → List (Parameter D)
  replace_all [] ps = ps
  replace_all ((name, info) ∷ staged) ps = replace_all staged (replace_by_name name info.value ps)

  -- A parameter that is set to `not_set`, and has a value.
  abbrev pub is_not_set : ParameterValue D → Bool
  is_not_set not_set = true
  is_not_set v = false

  abbrev pub has_value : Option (ParameterInfo D) → Bool
  has_value none = false
  has_value (some info) = not (is_not_set info.value)

  unfoldable pub to_undeclare : Infos D → List (Parameter D) → List (Parameter D)
  to_undeclare infos [] = []
  to_undeclare infos (p ∷ ps) =
      let rest = to_undeclare infos ps in
      if is_not_set p.value && has_value (find p.name infos) then p ∷ rest else rest

  -- The infos that declaring made take the place of those that setting made.
  unfoldable pub add_staged : Infos D → Infos D → Infos D
  add_staged [] infos = infos
  add_staged ((name, info) ∷ staged) infos = add_staged staged (insert name info infos)

  abbrev deleted : Bytes → Option (ParameterInfo D) → List (Parameter D)
  deleted name none = []
  deleted name (some info) = record { name = name; value = info.value } ∷ []

  -- The parameters that are deleted, and the storage without them.
  unfoldable pub undeclare_all : List (Parameter D) → Infos D → List (Parameter D) × Infos D
  undeclare_all [] infos = ([], infos)
  undeclare_all (p ∷ ps) infos =
      let (rest, left) = undeclare_all ps (erase p.name infos) in
      (deleted p.name (find p.name infos) ++ rest, left)

  unfoldable pub changed : Infos D → List (Parameter D) → List (Parameter D) → List (Parameter D)
  changed staged gone [] = []
  changed staged gone (p ∷ ps) =
      let rest = changed staged gone ps in
      if is_some (find p.name staged)
      then rest
      else if any (λ q. eq_bytes q.name p.name) gone
      then rest
      else p ∷ rest

  module _ ⦃f : Floats D⦄ where
    -- Each one is declared into the staging area, by its default descriptor, without overrides.
    unfoldable pub stage :
        List (Bytes × ParameterValue D) → List (Parameter D) → Declaration D → Declaration D
    stage overrides [] d = d
    stage overrides (p ∷ ps) d =
        let d' =
          declare_parameter_common p.name p.value default_descriptor d.parameters_out overrides none
            d.parameter_event_out false in
        let rest = stage overrides ps d' in if d'.result.successful then rest else d'

    unfoldable pub any_initial_values_used : List (Parameter D) → Infos D → Bool
    any_initial_values_used ps [] = false
    any_initial_values_used ps ((name, info) ∷ staged) =
        if eq_value (value_by_name name ps) info.value
        then any_initial_values_used ps staged
        else true

    unfoldable pub parameters_to_be_set : List (Parameter D) → Infos D → List (Parameter D)
    parameters_to_be_set ps staged =
        if any_initial_values_used ps staged then replace_all staged ps else ps

    abbrev pub finish :
        ℕ
        → NodeParameters D
        → List (Parameter D)
        → Declaration D
        → SetParametersResult × Infos D
        → SetParametersResult × NodeParameters D
    finish now n ps d (result, infos) =
        let staged = d.parameters_out in
        let gone = to_undeclare n.parameters ps in
        let (deleted_parameters, left) = undeclare_all gone (add_staged staged infos) in
        let event : ParameterEvent D = record d.parameter_event_out {
          stamp = now;
          deleted_parameters = deleted_parameters;
          changed_parameters = changed staged gone ps;
        } in
        if result.successful
        then (result, publish event (record n { parameters = left }))
        else (result, record n { parameters = infos })

    abbrev pub set_declared :
        ℕ
        → NodeParameters D
        → List (Parameter D)
        → Declaration D
        → SetParametersResult × NodeParameters D
    set_declared now n ps d =
        let to_be_set = parameters_to_be_set ps d.parameters_out in
        if d.result.successful
        then finish now n to_be_set d
            (set_parameters_atomically_common to_be_set n.parameters n.on_parameters_set_callback)
        else (d.result, n)

    abbrev pub start : NodeParameters D → Declaration D
    start n = record {
      result = accepted;
      parameters_out = [];
      parameter_event_out = record empty_event { node = n.combined_name };
    }

    -- `now` is the time of the node's clock.
    unfoldable pub set_parameters_atomically :
        ℕ → List (Parameter D) → NodeParameters D → Result SetParametersResult × NodeParameters D
    set_parameters_atomically now ps n = elim (check_declared n ps) [
      | throws e ↦ (err e, n)
      | refused r ↦ (ok r, n)
      | undeclared us ↦ as_result (set_declared now n ps (stage n.parameter_overrides us (start n)))
    ]

    abbrev and_result :
        SetParametersResult
        → Result (List SetParametersResult) × NodeParameters D
        → Result (List SetParametersResult) × NodeParameters D
    and_result r (err e, n) = (err e, n)
    and_result r (ok rs, n) = (ok (r ∷ rs), n)

    -- An exception ends the loop, and leaves what was set before it.
    abbrev pub and_next :
        Result SetParametersResult
        → NodeParameters D
        → Result (List SetParametersResult) × NodeParameters D
        → Result (List SetParametersResult) × NodeParameters D
    and_next (err e) n rest = (err e, n)
    and_next (ok r) n rest = and_result r rest

    unfoldable pub set_parameters :
        ℕ
        → List (Parameter D)
        → NodeParameters D
        → Result (List SetParametersResult) × NodeParameters D
    set_parameters now [] n = (ok [], n)
    set_parameters now (p ∷ ps) n =
        let (r, n') = set_parameters_atomically now (p ∷ []) n in
        let rest = set_parameters now ps n' in and_next r n' rest
