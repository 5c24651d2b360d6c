-- ===== src/Params/Untouched.antt =====
-- The parameters that a call of set_parameters_atomically does not name.
use pmros.Base.{
  ℕ, false, none, List, [], ◌∷◌, ◌≡◌, inl, inr, refl, ◌∙◌, arith, Option-cases, Bool-cases, subst,
}
use pmros.Base.Maps.{find, insert, erase, find-insert_other, find-erase_other}
use pmros.Base.Bytes.{Bytes, eq_bytes, eq_bytes_iff, bytes_key}
use pmros.Base.Results.{Result}
use pmros.Params.{Floats, ParameterValue, Parameter, SetParametersResult, Infos, default_descriptor}
use pmros.Params.Frame.{mentions, unmentioned, common_frame}
use pmros.Params.Node.{NodeParameters, Declaration, is_empty, declare_parameter_common}
use pmros.Params.Set.{
  Checked, throws, refused, undeclared, to_declare, check_declared, stage, start, replace_by_name,
  replace_all, parameters_to_be_set, set_parameters_atomically, undeclare_all, to_undeclare,
  add_staged,
}
use pmros.Params.Atomic.{
  SetDeclared, SetAtomically, by_exception, by_read_only, by_setting, setting, accepted_parameters,
  set_parameters_atomically-SetAtomically,
}

module _ {ℓ} {D : Type ℓ} where
  abbrev Omits : Bytes → Checked D → Type 0
  Omits c (throws e) = Unit {0}
  Omits c (refused r) = Unit {0}
  Omits c (undeclared us) = mentions c us ≡ false

  to_declare-Omits :
      (c : Bytes) (p : Parameter D) (rest : Checked D)
      → eq_bytes p.name c ≡ false
      → Omits c rest
      → Omits c (to_declare p rest)
  to_declare-Omits c p (throws e) other o = tt
  to_declare-Omits c p (refused r) other o = tt
  to_declare-Omits c p (undeclared us) other o = ground (arith, other, o)

  check_declared-Omits :
      (c : Bytes) (n : NodeParameters D) (ps : List (Parameter D))
      → mentions c ps ≡ false
      → Omits c (check_declared n ps)
  unfolding check_declared
  check_declared-Omits c n [] h = refl
  check_declared-Omits c n (p ∷ ps) h =
      let (other, others) = unmentioned c p ps h in
      let rest = check_declared-Omits c n ps others in
      elim (Bool-cases (is_empty p.name)) [
        | inl empty ↦ rw empty tt
        | inr named ↦ elim (Option-cases (find p.name n.parameters)) [
          | inl missing ↦ elim (Bool-cases n.allow_undeclared) [
            | inl allowed ↦
                rw (named, missing, allowed) (to_declare-Omits c p (check_declared n ps) other rest)
            | inr not_allowed ↦ rw (named, missing, not_allowed) tt
          ]
          | inr (info, there) ↦ elim (Bool-cases info.descriptor.read_only) [
            | inl constant ↦ rw (named, there, constant) tt
            | inr variable ↦ rw (named, there, variable) rest
          ]
        ]
      ]

  mentions-replace_by_name :
      (c name : Bytes) (v : ParameterValue D) (ps : List (Parameter D))
      → mentions c (replace_by_name name v ps) ≡ mentions c ps
  mentions-replace_by_name c name v [] = refl
  mentions-replace_by_name c name v (p ∷ ps) =
      ground (arith, eq_bytes_iff p.name name, mentions-replace_by_name c name v ps)

  pub mentions-replace_all :
      (c : Bytes) (staged : Infos D) (ps : List (Parameter D))
      → mentions c (replace_all staged ps) ≡ mentions c ps
  mentions-replace_all c [] ps = refl
  mentions-replace_all c ((name, info) ∷ staged) ps =
      mentions-replace_all c staged (replace_by_name name info.value ps)
      ∙ mentions-replace_by_name c name info.value ps

  mentions-to_undeclare :
      (c : Bytes) (infos : Infos D) (ps : List (Parameter D))
      → mentions c ps ≡ false
      → mentions c (to_undeclare infos ps) ≡ false
  unfolding to_undeclare
  mentions-to_undeclare c infos [] h = refl
  mentions-to_undeclare c infos (p ∷ ps) h = ground (arith, mentions-to_undeclare c infos ps)

  add_staged_frame :
      (c : Bytes) (staged infos : Infos D)
      → find c staged ≡ none
      → find c (add_staged staged infos) ≡ find c infos
  unfolding add_staged
  add_staged_frame c [] infos h = refl
  add_staged_frame c ((name, info) ∷ staged) infos h = ground (
    arith,
    add_staged_frame c staged (insert name info infos),
    find-insert_other name c info infos,
  )

  undeclare_all_frame :
      (c : Bytes) (ps : List (Parameter D)) (infos : Infos D)
      → mentions c ps ≡ false
      → find c (undeclare_all ps infos).1 ≡ find c infos
  unfolding undeclare_all
  undeclare_all_frame c [] infos h = refl
  undeclare_all_frame c (p ∷ ps) infos h =
      ground (arith, undeclare_all_frame c ps (erase p.name infos), find-erase_other p.name c infos)

  module _ ⦃f : Floats D⦄ where
    mentions-parameters_to_be_set :
        (c : Bytes) (ps : List (Parameter D)) (staged : Infos D)
        → mentions c (parameters_to_be_set ps staged) ≡ mentions c ps
    unfolding parameters_to_be_set
    mentions-parameters_to_be_set c ps staged = ground (arith, mentions-replace_all c staged ps)

    stage_frame :
        (c : Bytes) (overrides : List (Bytes × ParameterValue D)) (us : List (Parameter D))
        (d : Declaration D)
        → mentions c us ≡ false
        → find c (stage overrides us d).parameters_out ≡ find c d.parameters_out
    unfolding stage declare_parameter_common
    stage_frame c overrides [] d h = refl
    stage_frame c overrides (p ∷ ps) d h =
        let (other, rest) = unmentioned c p ps h in
        let d' =
          declare_parameter_common p.name p.value default_descriptor d.parameters_out overrides none
            d.parameter_event_out false in
        let same = find-insert_other p.name c _ d.parameters_out other in
        elim (Bool-cases d'.result.successful) [
          | inl yes_declared ↦ rw yes_declared (stage_frame c overrides ps d' rest ∙ same)
          | inr failed ↦ rw failed same
        ]

    accepted_frame :
        (c : Bytes) (n : NodeParameters D) (ps : List (Parameter D)) (d : Declaration D)
        → mentions c ps ≡ false
        → find c d.parameters_out ≡ none
        → find c (accepted_parameters n ps d) ≡ find c n.parameters
    accepted_frame c n ps d h unstaged =
        let set_ps = parameters_to_be_set ps d.parameters_out in
        let omitted = mentions-parameters_to_be_set c ps d.parameters_out ∙ h in
        undeclare_all_frame c (to_undeclare n.parameters set_ps)
          (add_staged d.parameters_out (setting n ps d).1)
          (mentions-to_undeclare c n.parameters set_ps omitted)
        ∙ add_staged_frame c d.parameters_out (setting n ps d).1 unstaged
        ∙ common_frame set_ps n.parameters n.on_parameters_set_callback c omitted

    settled_frame :
        (c : Bytes) (n : NodeParameters D) (ps : List (Parameter D)) (d : Declaration D)
        (call : SetParametersResult × NodeParameters D)
        → SetDeclared n ps d call
        → mentions c ps ≡ false
        → find c d.parameters_out ≡ none
        → find c call.1.parameters ≡ find c n.parameters
    settled_frame c n ps d call (inl (failed, e)) h unstaged = rw e refl
    settled_frame c n ps d call (inr (inl (denied, e))) h unstaged = rw e (
        common_frame (parameters_to_be_set ps d.parameters_out) n.parameters
          n.on_parameters_set_callback c (mentions-parameters_to_be_set c ps d.parameters_out ∙ h))
    settled_frame c n ps d call (inr (inr (done, e, left))) h unstaged =
        rw left (accepted_frame c n ps d h unstaged)

    ended_frame :
        (c : Bytes) (now : ℕ) (ps : List (Parameter D)) (n : NodeParameters D)
        (call : Result SetParametersResult × NodeParameters D)
        → SetAtomically now ps n call
        → mentions c ps ≡ false
        → find c call.1.parameters ≡ find c n.parameters
    ended_frame c now ps n (_, _) (by_exception e) h = refl
    ended_frame c now ps n (_, _) (by_read_only r e) h = refl
    ended_frame c now ps n (_, _) (by_setting us r n' e s) h =
        let omitted : mentions c us ≡ false = subst (Omits c) e (check_declared-Omits c n ps h) in
        settled_frame c n ps (stage n.parameter_overrides us (start n)) (r, n') s h
          (stage_frame c n.parameter_overrides us (start n) omitted)

    -- A call of set_parameters_atomically, however it ends, leaves the parameters that it does not name
    -- as they were.
    pub set_parameters_atomically_frame :
        (c : Bytes) (now : ℕ) (ps : List (Parameter D)) (n : NodeParameters D)
        → mentions c ps ≡ false
        → find c (set_parameters_atomically now ps n).1.parameters ≡ find c n.parameters
    set_parameters_atomically_frame c now ps n h =
        ended_frame c now ps n (set_parameters_atomically now ps n)
          (set_parameters_atomically-SetAtomically now ps n) h
