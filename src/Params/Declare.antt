-- ===== src/Params/Declare.antt =====
-- Declaring and undeclaring a parameter, on every branch.
use pmros.Base.{
  Bool, true, false, ◌&&◌, Option, none, some, [], ◌∷◌, ◌≡◌, refl, arith, if◌then◌else◌, is_some,
}
use pmros.Base.Maps.{find, find-insert_same, find-insert_other, find-erase, beq_refl}
use pmros.Base.Bytes.{Bytes, eq_bytes, bytes_key}
use pmros.Base.Results.{
  ok, err, invalid_parameters, parameter_already_declared, invalid_parameter_value,
  parameter_not_declared, parameter_immutable,
}
use pmros.Params.{
  Floats, ParameterValue, not_set, ParameterDescriptor, Parameter, ParameterInfo, Callback, ask,
  get_type, check_parameter_value_in_range, check_parameters, assign_all,
  set_parameters_atomically_common,
}
use pmros.Params.Node.{
  NodeParameters, Declaration, is_empty, empty_event, initial_value, declare_parameter_common,
  declare_parameter, undeclare_parameter, declared_value,
}

module _ {ℓ} {D : Type ℓ} ⦃f : Floats D⦄ where
  declared_value-parameters :
      (d : Declaration D) (n : NodeParameters D) (name : Bytes)
      → (declared_value d n name).1.parameters ≡ d.parameters_out
  declared_value-parameters d n name = ground arith

  module _ (name : Bytes) (v : ParameterValue D) (d : ParameterDescriptor D) where
    -- The value that the parameter is to have: that of the override of its name, if there is one.
    abbrev pub wanted : Option (ParameterValue D) → ParameterValue D
    wanted none = v
    wanted (some override) = override

    -- The parameter that is to be set, and what is stored of it.
    abbrev pub initial : NodeParameters D → Parameter D
    initial n = record { name = name; value = wanted (find name n.parameter_overrides) }

    initial_value-wanted :
        (n : NodeParameters D)
        → initial_value name v n.parameter_overrides true ≡ wanted (find name n.parameter_overrides)
    initial_value-wanted n = ground arith

    abbrev pub declaration : NodeParameters D → Declaration D
    declaration n =
        declare_parameter_common name v d n.parameters n.parameter_overrides
          n.on_parameters_set_callback empty_event true

    -- A node without a callback agrees to everything.
    abbrev pub agrees : Callback D → Parameter D → Bool
    agrees none p = true
    agrees (some callback) p = (callback (p ∷ [])).successful

    ask-agrees :
        (callback : Callback D) (p : Parameter D)
        → (ask callback (p ∷ [])).successful ≡ agrees callback p
    ask-agrees none p = refl
    ask-agrees (some callback) p = refl

    abbrev pub is_accepted : NodeParameters D → Bool
    is_accepted n =
        agrees n.on_parameters_set_callback (initial n)
        && (check_parameter_value_in_range d (initial n).value).successful

    abbrev pub stored_info : NodeParameters D → ParameterInfo D
    stored_info n =
        if is_accepted n
        then record {
          value = (initial n).value;
          descriptor = record d { name = name; type = get_type (initial n).value };
        }
        else record { value = not_set; descriptor = d }

    pub new-parameters :
        (n : NodeParameters D)
        → is_empty name ≡ false
        → find name n.parameters ≡ none
        → (declare_parameter name v d n).1.parameters ≡ (declaration n).parameters_out
    unfolding declare_parameter
    new-parameters n named missing =
        rw (named, missing) (declared_value-parameters (declaration n) n name)

    set_one :
        (value : ParameterValue D) (callback : Callback D)
        → let p : Parameter D = record { name = name; value = value } in
          let i : ParameterInfo D = record { value = not_set; descriptor = d } in
          let call = set_parameters_atomically_common (p ∷ []) ((name, i) ∷ []) callback in
          let fine = agrees callback p && (check_parameter_value_in_range d p.value).successful in
          (call.0.successful ≡ fine)
          × (find name call.1
              ≡ some (
                  if fine
                  then record {
                    value = p.value;
                    descriptor = record d { name = name; type = get_type p.value };
                  }
                  else i))
    unfolding set_parameters_atomically_common check_parameters assign_all
    set_one value callback =
        ground (arith, beq_refl name, ask-agrees callback (record { name = name; value = value }))

    find-stored :
        (n : NodeParameters D) → find name (declaration n).parameters_out ≡ some (stored_info n)
    unfolding declare_parameter_common
    find-stored n = ground (
      arith,
      find-insert_same name (stored_info n) n.parameters,
      initial_value-wanted n,
      set_one (initial n).value n.on_parameters_set_callback,
    )

    declaration-successful :
        (n : NodeParameters D) → (declaration n).result.successful ≡ is_accepted n
    unfolding declare_parameter_common
    declaration-successful n =
        rw (initial_value-wanted n) (set_one (initial n).value n.on_parameters_set_callback).0

    new-returns :
        (n : NodeParameters D)
        → is_empty name ≡ false
        → find name n.parameters ≡ none
        → (declare_parameter name v d n).0
          ≡ (if is_accepted n then ok (initial n).value else err invalid_parameter_value)
    unfolding declare_parameter
    new-returns n named missing =
        ground (arith, named, missing, find-stored n, declaration-successful n)

    new-others :
        (n : NodeParameters D) (c : Bytes)
        → eq_bytes name c ≡ false
        → find c (declaration n).parameters_out ≡ find c n.parameters
    unfolding declare_parameter_common
    new-others n c other = find-insert_other name c _ n.parameters other

    -- Declaring under an empty name, or a name that is declared, throws and changes nothing. Otherwise
    -- the value is the override, where there is one, and the default if not. If the callback and the
    -- ranges of the descriptor accept it, the call returns it and stores it with the descriptor. If
    -- one of them does not, the call throws, and the name is declared all the same, with the
    -- descriptor and without a value. The other parameters stay.
    pub declare_parameter_lem :
        (n : NodeParameters D)
        → (is_empty name ≡ true → declare_parameter name v d n ≡ (err invalid_parameters, n))
          × (is_empty name ≡ false
              → is_some (find name n.parameters) ≡ true
              → declare_parameter name v d n ≡ (err parameter_already_declared, n))
          × (is_empty name ≡ false
              → find name n.parameters ≡ none
              → ((declare_parameter name v d n).0
                  ≡ (if is_accepted n then ok (initial n).value else err invalid_parameter_value))
                × (find name (declare_parameter name v d n).1.parameters ≡ some (stored_info n))
                × ((c : Bytes)
                    → eq_bytes name c ≡ false
                    → find c (declare_parameter name v d n).1.parameters ≡ find c n.parameters))
    unfolding declare_parameter
    declare_parameter_lem n = (
      λ empty. rw (empty) refl,
      λ named declared. rw (named, declared) refl,
      λ named missing. (
        new-returns n named missing,
        rw (new-parameters n named missing) (find-stored n),
        λ c other. rw (new-parameters n named missing) (new-others n c other),
      ),
    )

module _ {ℓ} {D : Type ℓ} where
  -- Undeclaring throws and changes nothing for a name that is not declared, and for a parameter that
  -- is read-only. Otherwise the name is no longer declared, and the other parameters stay.
  pub undeclare_parameter_lem :
      (name : Bytes) (n : NodeParameters D)
      → (find name n.parameters ≡ none
          → undeclare_parameter name n ≡ (err parameter_not_declared, n))
        × ((info : ParameterInfo D)
            → find name n.parameters ≡ some info
            → (info.descriptor.read_only ≡ true
                → undeclare_parameter name n ≡ (err parameter_immutable, n))
              × (info.descriptor.read_only ≡ false
                  → ((undeclare_parameter name n).0 ≡ ok tt)
                    × ((c : Bytes)
                        → find c (undeclare_parameter name n).1.parameters
                          ≡ (if eq_bytes name c then none else find c n.parameters))))
  unfolding undeclare_parameter
  undeclare_parameter_lem name n = (
    λ missing. rw (missing, undeclare_parameter) refl,
    λ info there. (
      λ constant. rw (there, undeclare_parameter) (simp constant),
      λ variable. (
        rw (there, undeclare_parameter) (simp variable),
        λ c. rw (there, undeclare_parameter) (simp (variable, find-erase name c n.parameters)),
      ),
    ),
  )
