-- ===== src/Params/ReadOnly.antt =====
-- Read-only parameters under any sequence of the calls that change a node's parameters.
use pmros.Base.{
  ℕ, true, false, some, List, [], ◌∷◌, ◌≡◌, inl, inr, refl, ◌∙◌, arith, Option-cases, Bool-cases,
  ap, subst, is_some,
}
use mathlib.Core.Bool.{false≢true}
use pmros.Base.Maps.{find}
use pmros.Base.Bytes.{Bytes, eq_bytes, eq_bytes_iff, bytes_key}
use pmros.Base.Results.{Result, ok, err}
use pmros.Params.{
  Floats, ParameterValue, ParameterDescriptor, Parameter, ParameterInfo, SetParametersResult,
  Callback,
}
use pmros.Params.Frame.{mentions}
use pmros.Params.Node.{NodeParameters, is_empty, declare_parameter, undeclare_parameter}
use pmros.Params.Set.{
  Checked, throws, refused, undeclared, to_declare, check_declared, set_parameters_atomically,
  set_parameters, and_next,
}
use pmros.Params.Query.{set_on_parameters_set_callback}
use pmros.Params.Atomic.{
  SetAtomically, by_exception, by_read_only, by_setting, set_parameters_atomically-SetAtomically,
}
use pmros.Params.Declare.{declare_parameter_lem, undeclare_parameter_lem}
use pmros.Params.Untouched.{set_parameters_atomically_frame}

pub data Call {ℓ} (D : Type ℓ) : Type ℓ where
  call_declare : Bytes → ParameterValue D → ParameterDescriptor D → Call D
  call_undeclare : Bytes → Call D
  call_set : ℕ → List (Parameter D) → Call D
  call_set_atomically : ℕ → List (Parameter D) → Call D
  call_set_callback : Callback D → Call D

module _ {ℓ} {D : Type ℓ} ⦃f : Floats D⦄ where
  abbrev pub run : Call D → NodeParameters D → NodeParameters D
  run (call_declare name v d) n = (declare_parameter name v d n).1
  run (call_undeclare name) n = (undeclare_parameter name n).1
  run (call_set now ps) n = (set_parameters now ps n).1
  run (call_set_atomically now ps) n = (set_parameters_atomically now ps n).1
  run (call_set_callback callback) n = (set_on_parameters_set_callback callback n).1

  abbrev pub run_all : List (Call D) → NodeParameters D → NodeParameters D
  run_all [] n = n
  run_all (call ∷ calls) n = run_all calls (run call n)

  -- A parameter that is declared read-only, with what is stored of it.
  abbrev pub HasReadOnly : Bytes → ParameterInfo D → NodeParameters D → Type ℓ
  HasReadOnly c info n = (find c n.parameters ≡ some info) × (info.descriptor.read_only ≡ true)

  module _ (c : Bytes) (info : ParameterInfo D) where
    abbrev OmitsIt : List (Parameter D) → Checked D → Type 0
    OmitsIt ps (throws e) = Unit {0}
    OmitsIt ps (refused r) = Unit {0}
    OmitsIt ps (undeclared us) = mentions c ps ≡ false

    omits-to_declare :
        (p : Parameter D) (ps : List (Parameter D)) (rest : Checked D)
        → eq_bytes p.name c ≡ false
        → OmitsIt ps rest
        → OmitsIt (p ∷ ps) (to_declare p rest)
    omits-to_declare p ps (throws e) other o = tt
    omits-to_declare p ps (refused r) other o = tt
    omits-to_declare p ps (undeclared us) other o = ground (arith, other, o)

    omits_more :
        (p : Parameter D) (ps : List (Parameter D)) (rest : Checked D)
        → eq_bytes p.name c ≡ false
        → OmitsIt ps rest
        → OmitsIt (p ∷ ps) rest
    omits_more p ps (throws e) other o = tt
    omits_more p ps (refused r) other o = tt
    omits_more p ps (undeclared us) other o = ground (arith, other, o)

    -- The checks let no list pass that names it.
    check_declared-OmitsIt :
        (n : NodeParameters D) (ps : List (Parameter D))
        → HasReadOnly c info n
        → OmitsIt ps (check_declared n ps)
    unfolding check_declared
    check_declared-OmitsIt n [] h = refl
    check_declared-OmitsIt n (p ∷ ps) h =
        let rest = check_declared-OmitsIt n ps h in
        let is_it : eq_bytes p.name c ≡ true → find p.name n.parameters ≡ some info =
          λ same. ap (λ name. find name n.parameters) ((eq_bytes_iff p.name c).0 same) ∙ h.0 in
        elim (Bool-cases (is_empty p.name)) [
          | inl empty ↦ rw empty tt
          | inr named ↦ elim (Bool-cases (eq_bytes p.name c)) [
            | inl same ↦ rw (named, is_it same, h.1) tt
            | inr other ↦ elim (Option-cases (find p.name n.parameters)) [
              | inl missing ↦ elim (Bool-cases n.allow_undeclared) [
                | inl allowed ↦
                    rw (named, missing, allowed)
                      (omits-to_declare p ps (check_declared n ps) other rest)
                | inr not_allowed ↦ rw (named, missing, not_allowed) tt
              ]
              | inr (info', there) ↦ elim (Bool-cases info'.descriptor.read_only) [
                | inl constant ↦ rw (named, there, constant) tt
                | inr variable ↦
                    rw (named, there, variable) (omits_more p ps (check_declared n ps) other rest)
              ]
            ]
          ]
        ]

    set_kept :
        (now : ℕ) (ps : List (Parameter D)) (n : NodeParameters D)
        (call : Result SetParametersResult × NodeParameters D)
        → HasReadOnly c info n
        → SetAtomically now ps n call
        → (mentions c ps ≡ false → find c call.1.parameters ≡ find c n.parameters)
        → HasReadOnly c info call.1
    set_kept now ps n (_, _) h (by_exception e) frame = h
    set_kept now ps n (_, _) h (by_read_only r e) frame = h
    set_kept now ps n (_, _) h (by_setting us r n' e s) frame =
        (frame (subst (OmitsIt ps) e (check_declared-OmitsIt n ps h)) ∙ h.0, h.1)

    set_atomically_kept :
        (now : ℕ) (ps : List (Parameter D)) (n : NodeParameters D)
        → HasReadOnly c info n
        → HasReadOnly c info (set_parameters_atomically now ps n).1
    set_atomically_kept now ps n h =
        set_kept now ps n (set_parameters_atomically now ps n) h
          (set_parameters_atomically-SetAtomically now ps n)
          (set_parameters_atomically_frame c now ps n)

    and_next_kept :
        (r : Result SetParametersResult) (n : NodeParameters D)
        (rest : Result (List SetParametersResult) × NodeParameters D)
        → HasReadOnly c info n
        → HasReadOnly c info rest.1
        → HasReadOnly c info (and_next r n rest).1
    and_next_kept (err e) n rest h h' = h
    and_next_kept (ok r) n (err e, n') h h' = h'
    and_next_kept (ok r) n (ok rs, n') h h' = h'

    set_parameters_kept :
        (now : ℕ) (ps : List (Parameter D)) (n : NodeParameters D)
        → HasReadOnly c info n
        → HasReadOnly c info (set_parameters now ps n).1
    unfolding set_parameters
    set_parameters_kept now [] n h = h
    set_parameters_kept now (p ∷ ps) n h =
        let (r, n') = set_parameters_atomically now (p ∷ []) n in
        let h' = set_atomically_kept now (p ∷ []) n h in
        and_next_kept r n' (set_parameters now ps n') h' (set_parameters_kept now ps n' h')

    -- A name that finds another entry, or none, is another name.
    is_other :
        (name : Bytes) (n : NodeParameters D)
        → HasReadOnly c info n
        → (find name n.parameters ≡ some info → ⊥)
        → eq_bytes name c ≡ false
    is_other name n h differs = elim (Bool-cases (eq_bytes name c)) [
      | inl same ↦
          absurd (differs (ap (λ x. find x n.parameters) ((eq_bytes_iff name c).0 same) ∙ h.0))
      | inr other ↦ other
    ]

    undeclare_kept :
        (name : Bytes) (n : NodeParameters D)
        → HasReadOnly c info n
        → HasReadOnly c info (undeclare_parameter name n).1
    undeclare_kept name n h =
        let (missing, there) = undeclare_parameter_lem name n in
        elim (Option-cases (find name n.parameters)) [
          | inl e ↦ rw (missing e) h
          | inr (info', e) ↦ elim (Bool-cases info'.descriptor.read_only) [
            | inl constant ↦ rw ((there info' e).0 constant) h
            | inr variable ↦
                let other =
                  is_other name n h (λ e'. false≢true (ground (arith, e, e', variable, h.1))) in
                (((there info' e).1 variable).1 c ∙ rw other h.0, h.1)
          ]
        ]

    declare_kept :
        (name : Bytes) (v : ParameterValue D) (d : ParameterDescriptor D) (n : NodeParameters D)
        → HasReadOnly c info n
        → HasReadOnly c info (declare_parameter name v d n).1
    declare_kept name v d n h =
        let (unnamed, declared, new) = declare_parameter_lem name v d n in
        elim (Bool-cases (is_empty name)) [
          | inl empty ↦ rw (unnamed empty) h
          | inr named ↦ elim (Option-cases (find name n.parameters)) [
            | inl missing ↦
                let other = is_other name n h (λ e. ground (arith, missing, e)) in
                let (returned, stored, others) = new named missing in (others c other ∙ h.0, h.1)
            | inr (info', there) ↦ rw (declared named (ap is_some there)) h
          ]
        ]

    run_kept :
        (call : Call D) (n : NodeParameters D)
        → HasReadOnly c info n
        → HasReadOnly c info (run call n)
    unfolding set_on_parameters_set_callback
    run_kept (call_declare name v d) n h = declare_kept name v d n h
    run_kept (call_undeclare name) n h = undeclare_kept name n h
    run_kept (call_set now ps) n h = set_parameters_kept now ps n h
    run_kept (call_set_atomically now ps) n h = set_atomically_kept now ps n h
    run_kept (call_set_callback callback) n h = h

    -- No sequence of calls changes anything of a parameter that is declared read-only, or undeclares
    -- it.
    pub run_all-HasReadOnly :
        (calls : List (Call D)) (n : NodeParameters D)
        → HasReadOnly c info n
        → HasReadOnly c info (run_all calls n)
    run_all-HasReadOnly [] n h = h
    run_all-HasReadOnly (call ∷ calls) n h =
        run_all-HasReadOnly calls (run call n) (run_kept call n h)
