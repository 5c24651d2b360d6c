-- ===== src/Params/Sources.antt =====
-- Which value an override takes, and which node a parameter of a file goes to.
use pmros.Base.{
  if◌then◌else◌, Option, none, some, List, [], ◌∷◌, ◌++◌, ◌≡◌, refl, ◌∙◌, arith, ap, sym,
  append_assoc, append-nil, Bool-cases, inl, inr,
}
use pmros.Base.Maps.{find, insert, find-insert}
use pmros.Base.Bytes.{Bytes, eq_bytes, eq_bytes_iff, bytes_key}
use pmros.Base.Results.{Result, ok, err}
use pmros.Params.{ParameterValue, Parameter}
use pmros.Params.Values.{last_value, or_else}
use pmros.Params.Overrides.{
  Variant, ParameterMap, fully_qualified, params_of_node, params_in, append_params, add_nodes,
  parameter_map_from, override, applies, override_map, override_files, collect_overrides,
}

module _ {ℓ} {D : Type ℓ} where
  find-override :
      (c : Bytes) (ps : List (Parameter D)) (m : List (Bytes × ParameterValue D))
      → find c (override ps m) ≡ or_else (last_value c ps) (find c m)
  find-override c [] m = refl
  find-override c (p ∷ ps) m =
      ground (arith, find-override c ps (insert p.name p.value m), find-insert p.name c p.value m)

  -- The parameters of the files that apply to a node, one after another.
  abbrev pub from_map : Bytes → ParameterMap D → List (Parameter D)
  from_map combined_name [] = []
  from_map combined_name ((name, ps) ∷ nodes) =
      if applies combined_name name
      then ps ++ from_map combined_name nodes
      else from_map combined_name nodes

  abbrev pub from_files : Bytes → List (ParameterMap D) → List (Parameter D)
  from_files combined_name [] = []
  from_files combined_name (f ∷ fs) = from_map combined_name f ++ from_files combined_name fs

  override-append :
      (ps qs : List (Parameter D)) (m : List (Bytes × ParameterValue D))
      → override (ps ++ qs) m ≡ override qs (override ps m)
  override-append [] qs m = refl
  override-append (p ∷ ps) qs m = override-append ps qs (insert p.name p.value m)

  override-from_map :
      (combined_name : Bytes) (f : ParameterMap D) (m : List (Bytes × ParameterValue D))
      → override_map combined_name f m ≡ override (from_map combined_name f) m
  override-from_map combined_name [] m = refl
  override-from_map combined_name ((name, ps) ∷ f) m = ground (
    arith,
    override-from_map combined_name f m,
    override-from_map combined_name f (override ps m),
    override-append ps (from_map combined_name f) m,
  )

  override-from_files :
      (combined_name : Bytes) (fs : List (ParameterMap D)) (m : List (Bytes × ParameterValue D))
      → override_files combined_name fs m ≡ override (from_files combined_name fs) m
  override-from_files combined_name [] m = refl
  override-from_files combined_name (f ∷ fs) m =
      override-from_files combined_name fs (override_map combined_name f m)
      ∙ ap (override (from_files combined_name fs)) (override-from_map combined_name f m)
      ∙ sym (override-append (from_map combined_name f) (from_files combined_name fs) m)

  -- An override has the last value that the constructor's argument gives it. If that gives none, it has
  -- the last one of the files, in their order, among the parameters for every node and for this one.
  collect_overrides_lem :
      (combined_name : Bytes) (files : List (ParameterMap D)) (given : List (Parameter D))
      (c : Bytes)
      → find c (collect_overrides combined_name files given)
        ≡ or_else
            (last_value c given)
            (or_else (last_value c (from_files combined_name files)) none)
  unfolding collect_overrides
  collect_overrides_lem combined_name files given c =
      find-override c given (override_files combined_name files [])
      ∙ ap (or_else (last_value c given)) (
          ap (find c) (override-from_files combined_name files [])
          ∙ find-override c (from_files combined_name files) [])

  abbrev or_empty : Result (List (Parameter D)) → List (Parameter D)
  or_empty (err e) = []
  or_empty (ok ps) = ps

  -- What the struct says of a node, under its fully qualified name.
  abbrev pub params_for :
      Bytes → List (Option Bytes) → List (List (Option Bytes × Variant D)) → List (Parameter D)
  params_for c [] nodes = []
  params_for c (name ∷ names) [] = []
  params_for c (none ∷ names) (entries ∷ nodes) = params_for c names nodes
  params_for c (some name ∷ names) (entries ∷ nodes) =
      if eq_bytes (fully_qualified name) c
      then or_empty (params_of_node entries) ++ params_for c names nodes
      else params_for c names nodes

  params_in-append_params :
      (name c : Bytes) (ps : List (Parameter D)) (m : ParameterMap D)
      → params_in c (append_params name ps m)
        ≡ (if eq_bytes name c then params_in c m ++ ps else params_in c m)
  params_in-append_params name c ps m =
      ground (arith, find-insert name c (params_in name m ++ ps) m, eq_bytes_iff name c)

  -- One node of the struct, whose parameters convert to `r`; `next` is what holds of the others.
  one_node :
      (name c : Bytes) (rest : List (Parameter D)) (m m' : ParameterMap D)
      (add : ParameterMap D → Result (ParameterMap D)) (r : Result (List (Parameter D)))
      → ((m₀ : ParameterMap D) → add m₀ ≡ ok m' → params_in c m' ≡ params_in c m₀ ++ rest)
      → (elim r [ err e ↦ err e | ok ps ↦ add (append_params name ps m) ]) ≡ ok m'
      → params_in c m' ≡ params_in c m ++ (if eq_bytes name c then or_empty r ++ rest else rest)
  one_node name c rest m m' add (err e) next h = absurd (ground (arith, h))
  one_node name c rest m m' add (ok ps) next h =
      next (append_params name ps m) h
      ∙ ap (λ qs. qs ++ rest) (params_in-append_params name c ps m)
      ∙ elim (Bool-cases (eq_bytes name c)) [
        | inl same ↦ rw same (append_assoc (params_in c m) ps rest)
        | inr other ↦ rw other refl
      ]

  params_in-add_nodes :
      (c : Bytes) (names : List (Option Bytes)) (nodes : List (List (Option Bytes × Variant D)))
      (m m' : ParameterMap D)
      → add_nodes names nodes m ≡ ok m'
      → params_in c m' ≡ params_in c m ++ params_for c names nodes
  params_in-add_nodes c [] nodes m m' h = ground (arith, h, append-nil (params_in c m))
  params_in-add_nodes c (name ∷ names) [] m m' h = ground (arith, h, append-nil (params_in c m))
  params_in-add_nodes c (none ∷ names) (entries ∷ nodes) m m' h = absurd (ground (arith, h))
  params_in-add_nodes c (some name ∷ names) (entries ∷ nodes) m m' h =
      one_node (fully_qualified name) c (params_for c names nodes) m m' (add_nodes names nodes)
        (params_of_node entries) (λ m₀. params_in-add_nodes c names nodes m₀ m') h

  -- Where parameter_map_from does not throw, the map has under each name, in order, the parameters of
  -- all nodes of the struct with that fully qualified name.
  parameter_map_from_lem :
      (c : Bytes) (names : List (Option Bytes)) (nodes : List (List (Option Bytes × Variant D)))
      (m : ParameterMap D)
      → parameter_map_from (some (record { node_names = some names; params = some nodes })) ≡ ok m
      → params_in c m ≡ params_for c names nodes
  unfolding parameter_map_from
  parameter_map_from_lem c names nodes m h = params_in-add_nodes c names nodes [] m h
