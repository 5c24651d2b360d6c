-- ===== src/Params/Frame.antt =====
-- What the checks and assignments of node_parameters.cpp leave alone.
use pmros.Base.{
  Bool, true, false, any, Option, none, some, List, [], ◌∷◌, ◌≡◌, ◌⊎◌, inl, inr, refl, ◌∙◌, arith,
  Option-cases, Bool-cases, ap, sym,
}
use mathlib.Core.Bool.{false≢true}
use pmros.Base.Maps.{find, insert, find-insert, find-insert_other}
use pmros.Base.Bytes.{Bytes, eq_bytes, eq_bytes_iff, bytes_key}
use pmros.Params.{
  Floats, Parameter, ParameterInfo, SetParametersResult, Infos, Callback, default_info, info_of,
  assign, assign_all, ask, check_parameters, check_parameter_value_in_range,
  set_parameters_atomically_common,
}

module _ {ℓ} {D : Type ℓ} where
  abbrev pub mentions : Bytes → List (Parameter D) → Bool
  mentions c ps = any (λ p. eq_bytes p.name c) ps

  -- The same entry, or an entry by default where there was none.
  abbrev pub Kept : Option (ParameterInfo D) → Option (ParameterInfo D) → Type ℓ
  Kept before after = (after ≡ before) ⊎ ((before ≡ none) × (after ≡ some default_info))

  Kept-trans : (a b c : Option (ParameterInfo D)) → Kept a b → Kept b c → Kept a c
  Kept-trans a b c (inl e) (inl e') = inl (e' ∙ e)
  Kept-trans a b c (inl e) (inr (e', e'')) = inr (ground (arith, e, e'), e'')
  Kept-trans a b c (inr (e, e')) (inl e'') = inr (e, e'' ∙ e')
  Kept-trans a b c (inr (e, e')) (inr (e'', h)) = absurd (ground (arith, e', e''))

  pub unmentioned :
      (c : Bytes) (p : Parameter D) (ps : List (Parameter D))
      → mentions c (p ∷ ps) ≡ false
      → (eq_bytes p.name c ≡ false) × (mentions c ps ≡ false)
  unmentioned c p ps h = ground arith

  -- `operator[]` for reading.
  touch-Kept :
      (name c : Bytes) (infos : Infos D)
      → Kept (find c infos) (find c (insert name (info_of name infos) infos))
  touch-Kept name c infos =
      rw (find-insert name c (info_of name infos) infos) (elim (Bool-cases (eq_bytes name c)) [
        | inl same ↦
            let e = (eq_bytes_iff name c).0 same in
            elim (Option-cases (find c infos)) [
              | inl missing ↦ inr (missing, ground (arith, same, e, missing))
              | inr (i, there) ↦ inl (ground (arith, same, e, there))
            ]
        | inr other ↦ inl (rw other refl)
      ])

  pub assign_all_frame :
      (c : Bytes) (ps : List (Parameter D)) (infos : Infos D)
      → mentions c ps ≡ false
      → find c (assign_all ps infos) ≡ find c infos
  unfolding assign_all
  assign_all_frame c [] infos h = refl
  assign_all_frame c (p ∷ ps) infos h =
      let (other, rest) = unmentioned c p ps h in
      assign_all_frame c ps (assign p infos) rest ∙ find-insert_other p.name c _ infos other

  module _ ⦃f : Floats D⦄ where
    pub check_parameters-Kept :
        (c : Bytes) (infos : Infos D) (ps : List (Parameter D))
        → Kept (find c infos) (find c (check_parameters infos ps).1)
    unfolding check_parameters
    check_parameters-Kept c infos [] = inl refl
    check_parameters-Kept c infos (p ∷ ps) =
        let infos' = insert p.name (info_of p.name infos) infos in
        let touched = touch-Kept p.name c infos in
        let fits =
          (check_parameter_value_in_range (info_of p.name infos).descriptor p.value).successful in
        elim (Bool-cases fits) [
          | inl yes_fits ↦ rw yes_fits (
              Kept-trans (find c infos) (find c infos') (find c (check_parameters infos' ps).1)
                touched (check_parameters-Kept c infos' ps))
          | inr no_fit ↦ rw no_fit touched
        ]

    pub check_parameters_frame :
        (c : Bytes) (infos : Infos D) (ps : List (Parameter D))
        → mentions c ps ≡ false
        → find c (check_parameters infos ps).1 ≡ find c infos
    unfolding check_parameters
    check_parameters_frame c infos [] h = refl
    check_parameters_frame c infos (p ∷ ps) h =
        let (other, rest) = unmentioned c p ps h in
        let infos' = insert p.name (info_of p.name infos) infos in
        let same = find-insert_other p.name c (info_of p.name infos) infos other in
        let fits =
          (check_parameter_value_in_range (info_of p.name infos).descriptor p.value).successful in
        elim (Bool-cases fits) [
          | inl yes_fits ↦ rw yes_fits (check_parameters_frame c infos' ps rest ∙ same)
          | inr no_fit ↦ rw no_fit same
        ]

    -- Where a set ends: refused by the callback, refused by a range, or done.
    abbrev pub SetCommon :
        List (Parameter D) → Infos D → Callback D → SetParametersResult × Infos D → Type ℓ
    SetCommon ps infos callback call =
        let checked = check_parameters infos ps in
        (((ask callback ps).successful ≡ false) × (call ≡ (ask callback ps, infos)))
        ⊎ ((checked.0.successful ≡ false) × (call ≡ checked))
        ⊎ ((checked.0.successful ≡ true) × (call ≡ (checked.0, assign_all ps checked.1)))

    pub common-SetCommon :
        (ps : List (Parameter D)) (infos : Infos D) (callback : Callback D)
        → SetCommon ps infos callback (set_parameters_atomically_common ps infos callback)
    unfolding set_parameters_atomically_common
    common-SetCommon ps infos callback =
        let checked = check_parameters infos ps in
        elim (Bool-cases (ask callback ps).successful) [
          | inl asked ↦ elim (Bool-cases checked.0.successful) [
            | inl fits ↦ inr (inr (fits, simp (asked, fits)))
            | inr no_fit ↦ inr (inl (no_fit, simp (asked, no_fit)))
          ]
          | inr denied ↦ inl (denied, simp denied)
        ]

    -- A set that is refused, by the callback or by a range.
    pub common_refused :
        (ps : List (Parameter D)) (infos : Infos D) (callback : Callback D) (c : Bytes)
        → (set_parameters_atomically_common ps infos callback).0.successful ≡ false
        → Kept (find c infos) (find c (set_parameters_atomically_common ps infos callback).1)
    common_refused ps infos callback c h = elim (common-SetCommon ps infos callback) [
      | inl (denied, e) ↦ rw e (inl refl)
      | inr (inl (no_fit, e)) ↦ rw e (check_parameters-Kept c infos ps)
      | inr (inr (fits, e)) ↦ absurd (false≢true (sym h ∙ ap (λ r. r.0.successful) e ∙ fits))
    ]

    pub common_frame :
        (ps : List (Parameter D)) (infos : Infos D) (callback : Callback D) (c : Bytes)
        → mentions c ps ≡ false
        → find c (set_parameters_atomically_common ps infos callback).1 ≡ find c infos
    common_frame ps infos callback c h =
        let same = check_parameters_frame c infos ps h in
        elim (common-SetCommon ps infos callback) [
          | inl (denied, e) ↦ rw e refl
          | inr (inl (no_fit, e)) ↦ rw e same
          | inr (inr (fits, e)) ↦
              rw e (assign_all_frame c ps (check_parameters infos ps).1 h ∙ same)
        ]
