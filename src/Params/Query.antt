-- ===== src/Params/Query.antt =====
-- The calls of NodeParameters that read parameters, and the callback that is asked about changes
-- (node_parameters.cpp).
use pmros.Base.{
  ℕ, ◌+◌, Bool, true, false, ◌||◌, ◌==◌, ltb, if◌then◌else◌, Option, none, some, List, [], ◌∷◌,
  ◌++◌, any,
}
use pmros.Base.Maps.{find, insert}
use pmros.Base.Bytes.{Bytes, eq_bytes, bytes_key, codes}
use pmros.Base.Results.{Result, ok, err, parameter_not_declared, ◌>>=◌}
use pmros.Params.{
  ParameterType, parameter_not_set, not_set, ParameterDescriptor, Parameter, ParameterInfo, Infos,
  Callback, default_descriptor, get_type,
}
use pmros.Params.Node.{NodeParameters, is_empty}
use pmros.Params.Set.{is_not_set}

-- std::string::find(t) == 0, and the rest of the string then.
abbrev pub strip_prefix : Bytes → Bytes → Option Bytes
strip_prefix [] s = some s
strip_prefix (b ∷ t) [] = none
strip_prefix (b ∷ t) (c ∷ s) = let rest = strip_prefix t s in if b == c then rest else none

-- The separator, '.'.
abbrev pub separator : ℕ
separator = 46

abbrev pub count_separators : Bytes → ℕ
count_separators [] = 0
count_separators (b ∷ s) = (if b == separator then 1 else 0) + count_separators s

-- The string before the last separator; `none` where there is none.
abbrev pub before_last_separator : Bytes → Option Bytes
before_last_separator [] = none
before_last_separator (b ∷ s) = elim (before_last_separator s) [
  | none ↦ if b == separator then some [] else none
  | some t ↦ some (b ∷ t)
]

pub record ListParametersResult : Type 0 where
  pub names : List Bytes
  pub prefixes : List Bytes

-- DEPTH_RECURSIVE is 0.
abbrev pub within : ℕ → Bytes → Bool
within depth s = depth == 0 || ltb (count_separators s) depth

abbrev pub prefix_matches : ℕ → Bytes → Bytes → Bool
prefix_matches depth name prefix =
    if eq_bytes name prefix then true else elim (strip_prefix (prefix ++ codes ".") name) [
      | none ↦ false
      | some rest ↦ within depth (separator ∷ rest)
    ]

abbrev pub listed : List Bytes → ℕ → Bytes → Bool
listed [] depth name = within depth name
listed (prefix ∷ prefixes) depth name = any (prefix_matches depth name) (prefix ∷ prefixes)

abbrev pub with_prefix : Option Bytes → List Bytes → List Bytes
with_prefix none prefixes = prefixes
with_prefix (some prefix) prefixes =
    if any (λ p. eq_bytes p prefix) prefixes then prefixes else prefixes ++ (prefix ∷ [])

abbrev pub list_entry : List Bytes → ℕ → Bytes → ListParametersResult → ListParametersResult
list_entry prefixes depth name result =
    if listed prefixes depth name
    then record {
      names = result.names ++ (name ∷ []);
      prefixes = with_prefix (before_last_separator name) result.prefixes;
    }
    else result

module _ {ℓ} {D : Type ℓ} where
  unfoldable pub set_on_parameters_set_callback :
      Callback D → NodeParameters D → Callback D × NodeParameters D
  set_on_parameters_set_callback callback n =
      (n.on_parameters_set_callback, record n { on_parameters_set_callback = callback })

  -- The loop that get_parameters, describe_parameters and get_parameter_types share: what is found of
  -- each name, or what an undeclared name stands for, where these are allowed.
  abbrev pub for_each {κ} :
      {B : Type κ}
      → (Bytes → ParameterInfo D → B)
      → (Bytes → B)
      → List Bytes
      → NodeParameters D
      → Result (List B)
  for_each found missing [] n = ok []
  for_each found missing (name ∷ names) n =
      let rest = for_each found missing names n in
      elim (find name n.parameters) [
        | none ↦
            if n.allow_undeclared
            then (rest >>= λ bs. ok (missing name ∷ bs))
            else err parameter_not_declared
        | some info ↦ rest >>= λ bs. ok (found name info ∷ bs)
      ]

  unfoldable pub get_parameters : List Bytes → NodeParameters D → Result (List (Parameter D))
  get_parameters =
      for_each (λ name info. record { name = name; value = info.value })
        (λ name. record { name = name; value = not_set })

  unfoldable pub describe_parameters :
      List Bytes → NodeParameters D → Result (List (ParameterDescriptor D))
  describe_parameters =
      for_each (λ name info. info.descriptor) (λ name. record default_descriptor { name = name })

  unfoldable pub get_parameter_types : List Bytes → NodeParameters D → Result (List ParameterType)
  get_parameter_types = for_each (λ name info. get_type info.value) (λ name. parameter_not_set)

  -- get_parameter(name, parameter): `none` where it returns false and leaves `parameter` alone.
  unfoldable pub find_parameter : Bytes → NodeParameters D → Option (Parameter D)
  find_parameter name n = elim (find name n.parameters) [
    | none ↦ none
    | some info ↦
        if is_not_set info.value then none else some (record { name = name; value = info.value })
  ]

  -- An undeclared parameter has an empty name.
  unfoldable pub get_parameter : Bytes → NodeParameters D → Result (Parameter D)
  unfolding find_parameter
  get_parameter name n = elim (find_parameter name n) [
    | none ↦
        if n.allow_undeclared
        then ok (record { name = []; value = not_set })
        else err parameter_not_declared
    | some p ↦ ok p
  ]

  abbrev by_prefix :
      Bytes → Infos D → List (Bytes × Parameter D) → Bool × List (Bytes × Parameter D)
  by_prefix prefix [] out = (false, out)
  by_prefix prefix ((name, info) ∷ infos) out = elim (strip_prefix prefix name) [
    | none ↦ by_prefix prefix infos out
    | some rest ↦ if is_empty rest then by_prefix prefix infos out else (
      true,
      (by_prefix prefix infos
          (insert rest (record { name = info.descriptor.name; value = info.value }) out)).1,
    )
  ]

  unfoldable pub get_parameters_by_prefix :
      Bytes → NodeParameters D → List (Bytes × Parameter D) → Bool × List (Bytes × Parameter D)
  get_parameters_by_prefix prefix n out =
      by_prefix (if is_empty prefix then prefix else prefix ++ codes ".") n.parameters out

  abbrev pub list_entries : List Bytes → ℕ → Infos D → ListParametersResult → ListParametersResult
  list_entries prefixes depth [] result = result
  list_entries prefixes depth ((name, info) ∷ infos) result =
      list_entries prefixes depth infos (list_entry prefixes depth name result)

  unfoldable pub list_parameters : List Bytes → ℕ → NodeParameters D → ListParametersResult
  list_parameters prefixes depth n =
      list_entries prefixes depth n.parameters (record { names = []; prefixes = [] })
