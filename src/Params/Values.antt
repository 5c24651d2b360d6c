-- ===== src/Params/Values.antt =====
-- What a set of declared parameters that is accepted stores.
use pmros.Base.{
  ℕ, true, false, All, Option, none, some, List, [], ◌∷◌, ◌≡◌, inl, inr, refl, ◌∙◌, arith,
  if◌then◌else◌, Option-cases, Bool-cases, ap, sym, subst, is_some,
}
use mathlib.Core.Bool.{false≢true}
use mathlib.Core.Option
use pmros.Base.Maps.{find, find-insert}
use pmros.Base.Bytes.{Bytes, eq_bytes, bytes_key}
use pmros.Base.Results.{Result, ok}
use pmros.Params.{
  Floats, ParameterValue, Parameter, SetParametersResult, Infos, assign, assigned, assign_all,
  check_parameters, set_parameters_atomically_common,
}
use pmros.Params.Frame.{mentions, check_parameters_frame, common-SetCommon}
use pmros.Params.Node.{NodeParameters, is_empty}
use pmros.Params.Set.{
  Checked, throws, refused, undeclared, check_declared, stage, start, is_not_set,
  parameters_to_be_set, any_initial_values_used, set_parameters_atomically, undeclare_all,
  to_undeclare, add_staged,
}
use pmros.Params.Atomic.{
  SetDeclared, SetAtomically, by_exception, by_read_only, by_setting, setting, accepted_parameters,
  set_parameters_atomically-SetAtomically,
}

module _ {ℓ} {D : Type ℓ} where
  -- The last value that a list gives to a name.
  abbrev pub last_value : Bytes → List (Parameter D) → Option (ParameterValue D)
  last_value c [] = none
  last_value c (p ∷ ps) = elim (last_value c ps) [
    | none ↦ if eq_bytes p.name c then some p.value else none
    | some v ↦ some v
  ]

  abbrev pub value_at : Bytes → Infos D → Option (ParameterValue D)
  value_at c infos = Option.map (λ info. info.value) (find c infos)

  abbrev pub or_else :
      Option (ParameterValue D) → Option (ParameterValue D) → Option (ParameterValue D)
  or_else none old = old
  or_else (some v) old = some v

  abbrev pub AreDeclared : NodeParameters D → List (Parameter D) → Type 0
  AreDeclared n ps = All (λ p. is_some (find p.name n.parameters) ≡ true) ps

  abbrev pub HaveValues : List (Parameter D) → Type 0
  HaveValues ps = All (λ p. is_not_set p.value ≡ false) ps

  value_at-assign_all :
      (c : Bytes) (ps : List (Parameter D)) (infos : Infos D)
      → value_at c (assign_all ps infos) ≡ or_else (last_value c ps) (value_at c infos)
  unfolding assign_all
  value_at-assign_all c [] infos = refl
  value_at-assign_all c (p ∷ ps) infos = ground (
    arith,
    value_at-assign_all c ps (assign p infos),
    find-insert p.name c (assigned p infos) infos,
  )

  abbrev NoneLeft : Checked D → Type ℓ
  NoneLeft (throws e) = Unit
  NoneLeft (refused r) = (r.successful ≡ false) × Unit {ℓ}
  NoneLeft (undeclared us) = us ≡ []

  check_declared-NoneLeft :
      (n : NodeParameters D) (ps : List (Parameter D))
      → AreDeclared n ps
      → NoneLeft (check_declared n ps)
  unfolding check_declared
  check_declared-NoneLeft n [] h = refl
  check_declared-NoneLeft n (p ∷ ps) (h, hs) =
      let rest = check_declared-NoneLeft n ps hs in
      elim (Bool-cases (is_empty p.name)) [
        | inl empty ↦ rw empty tt
        | inr named ↦ elim (Option-cases (find p.name n.parameters)) [
          | inl missing ↦ absurd (false≢true (sym (ap is_some missing) ∙ h))
          | inr (info, there) ↦ elim (Bool-cases info.descriptor.read_only) [
            | inl constant ↦ rw (named, there, constant) (refl, tt)
            | inr variable ↦ rw (named, there, variable) rest
          ]
        ]
      ]

  to_undeclare-HaveValues :
      (infos : Infos D) (ps : List (Parameter D)) → HaveValues ps → to_undeclare infos ps ≡ []
  unfolding to_undeclare
  to_undeclare-HaveValues infos [] h = refl
  to_undeclare-HaveValues infos (p ∷ ps) (h, hs) =
      ground (arith, h, to_undeclare-HaveValues infos ps hs)

  last_value-mentions :
      (c : Bytes) (ps : List (Parameter D))
      → mentions c ps ≡ true
      → is_some (last_value c ps) ≡ true
  last_value-mentions c [] h = absurd (false≢true h)
  last_value-mentions c (p ∷ ps) h = ground (arith, last_value-mentions c ps)

  -- The values that a set which is not refused leaves.
  abbrev WithValues : List (Parameter D) → Infos D → Infos D → Type ℓ
  WithValues ps before after =
      (c : Bytes) → value_at c after ≡ or_else (last_value c ps) (value_at c before)

  module _ ⦃f : Floats D⦄ where
    common-WithValues :
        (ps : List (Parameter D)) (infos : Infos D) (call : SetParametersResult × Infos D)
        → call ≡ ((check_parameters infos ps).0, assign_all ps (check_parameters infos ps).1)
        → WithValues ps infos call.1
    common-WithValues ps infos call e c =
        let infos' = (check_parameters infos ps).1 in
        rw e (
          value_at-assign_all c ps infos' ∙ elim (Bool-cases (mentions c ps)) [
            | inl mentioned ↦ ground (arith, last_value-mentions c ps mentioned)
            | inr not_there ↦
                ap (λ o. or_else (last_value c ps) (Option.map (λ info. info.value) o))
                  (check_parameters_frame c infos ps not_there)
          ])

    common_done :
        (n : NodeParameters D) (ps : List (Parameter D))
        → (set_parameters_atomically_common ps n.parameters
            n.on_parameters_set_callback).0.successful
          ≡ true
        → WithValues ps n.parameters
            (set_parameters_atomically_common ps n.parameters n.on_parameters_set_callback).1
    common_done n ps done =
        let call = set_parameters_atomically_common ps n.parameters n.on_parameters_set_callback in
        elim (common-SetCommon ps n.parameters n.on_parameters_set_callback) [
          | inl (denied, e) ↦
              absurd (false≢true (sym denied ∙ ap (λ r. r.0.successful) (sym e) ∙ done))
          | inr (inl (no_fit, e)) ↦
              absurd (false≢true (sym no_fit ∙ ap (λ r. r.0.successful) (sym e) ∙ done))
          | inr (inr (fits, e)) ↦ common-WithValues ps n.parameters call e
        ]

    accepted-WithValues :
        (n : NodeParameters D) (ps : List (Parameter D))
        → HaveValues ps
        → (setting n ps (start n)).0.successful ≡ true
        → WithValues ps n.parameters (accepted_parameters n ps (start n))
    unfolding parameters_to_be_set any_initial_values_used undeclare_all add_staged
    accepted-WithValues n ps h done c =
        let infos =
          (set_parameters_atomically_common ps n.parameters n.on_parameters_set_callback).1 in
        ap (λ gone. value_at c (undeclare_all gone infos).1)
          (to_undeclare-HaveValues n.parameters ps h)
        ∙ common_done n ps done c

    settled_values :
        (n : NodeParameters D) (ps us : List (Parameter D))
        (call : SetParametersResult × NodeParameters D)
        → us ≡ []
        → SetDeclared n ps (stage n.parameter_overrides us (start n)) call
        → call.0.successful ≡ true
        → HaveValues ps
        → WithValues ps n.parameters call.1.parameters
    unfolding stage
    settled_values n ps (u ∷ us) call e s done h = absurd (ground (arith, e))
    settled_values n ps [] call e (inl (failed, e')) done h =
        absurd (false≢true (sym failed ∙ ap (λ r. r.0.successful) (sym e') ∙ done))
    settled_values n ps [] call e (inr (inl (denied, e'))) done h =
        absurd (false≢true (sym denied ∙ ap (λ r. r.0.successful) (sym e') ∙ done))
    settled_values n ps [] call e (inr (inr (set_done, e', left))) done h =
        rw left (accepted-WithValues n ps h set_done)

    SetAtomically-WithValues :
        (now : ℕ) (ps : List (Parameter D)) (n : NodeParameters D) (r : SetParametersResult)
        (call : Result SetParametersResult × NodeParameters D)
        → SetAtomically now ps n call
        → call.0 ≡ ok r
        → r.successful ≡ true
        → AreDeclared n ps
        → HaveValues ps
        → WithValues ps n.parameters call.1.parameters
    SetAtomically-WithValues now ps n r (_, _) (by_exception e) h done ds vs =
        absurd (ground (arith, h))
    SetAtomically-WithValues now ps n r (_, _) (by_read_only r' e) h done ds vs =
        let (unsuccessful, _) = subst NoneLeft e (check_declared-NoneLeft n ps ds) in
        absurd (false≢true (ground (arith, unsuccessful, h, done)))
    SetAtomically-WithValues now ps n r (_, _) (by_setting us r' n' e s) h done ds vs =
        settled_values n ps us (r', n') (subst NoneLeft e (check_declared-NoneLeft n ps ds)) s
          (ground (arith, h, done)) vs

    -- If every parameter of a list is declared and each is given a value, then a call of
    -- set_parameters_atomically with a successful result leaves each with the last value that the list
    -- gives it, and every other parameter with the value it had.
    pub set_parameters_atomically-last_value :
        (now : ℕ) (ps : List (Parameter D)) (n : NodeParameters D) (r : SetParametersResult)
        → (set_parameters_atomically now ps n).0 ≡ ok r
        → r.successful ≡ true
        → AreDeclared n ps
        → HaveValues ps
        → (c : Bytes)
        → value_at c (set_parameters_atomically now ps n).1.parameters
          ≡ or_else (last_value c ps) (value_at c n.parameters)
    set_parameters_atomically-last_value now ps n r h done ds vs c =
        SetAtomically-WithValues now ps n r (set_parameters_atomically now ps n)
          (set_parameters_atomically-SetAtomically now ps n) h done ds vs c
