-- ===== src/Params/SourceTests.antt =====
-- A parameter file and an event, and what the code makes of them.
use pmros.Base.{ℕ, Option, none, some, List, [], ◌∷◌, ◌≡◌, refl}
use pmros.Base.Int.{ℤ, pos}
use pmros.Base.Bytes.{Bytes, bytes_key, codes}
use pmros.Base.Results.{ok}
use pmros.Params.{integer_value, Parameter, ParameterEvent}
use pmros.Params.Overrides.{Variant, ParameterMap, parameter_value_from, parameter_map_from}

abbrev speed : Bytes
speed = codes "speed"

abbrev node_name : Bytes
node_name = codes "/node"

abbrev speed_of : ℕ → Parameter ℕ
speed_of v = record { name = speed; value = integer_value (pos v) }

abbrev integer_variant : ℤ → Variant ℕ
integer_variant v = record {
  bool_value = none;
  integer_value = some v;
  double_value = none;
  string_value = none;
  byte_array_value = none;
  bool_array_value = none;
  integer_array_value = none;
  double_array_value = none;
  string_array_value = none;
}

abbrev file : ParameterMap ℕ
file = (codes "/**", speed_of 1 ∷ []) ∷ (node_name, speed_of 2 ∷ []) ∷ []

abbrev names : List (Option Bytes)
names = some (codes "node") ∷ some (codes "/node") ∷ []

abbrev nodes : List (List (Option Bytes × Variant ℕ))
nodes =
    ((some speed, integer_variant (pos 5)) ∷ []) ∷ ((some speed, integer_variant (pos 6)) ∷ []) ∷ []

abbrev both : ParameterMap ℕ
both = (node_name, speed_of 5 ∷ speed_of 6 ∷ []) ∷ []

conversion :
    parameter_map_from (some (record { node_names = some names; params = some nodes })) ≡ ok both
unfolding parameter_map_from parameter_value_from
conversion = refl

abbrev event : ParameterEvent ℕ
event = record {
  stamp = 0;
  node = node_name;
  new_parameters = speed_of 1 ∷ [];
  changed_parameters = speed_of 2 ∷ [];
  deleted_parameters = [];
}
