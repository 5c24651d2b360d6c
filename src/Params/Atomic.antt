-- ===== src/Params/Atomic.antt =====
-- Setting parameters atomically: where a call ends, and what a call that fails leaves.
use pmros.Base.{ℕ, true, false, List, ◌≡◌, ◌⊎◌, inl, inr, refl, ◌∙◌, arith, Bool-cases, ap, sym}
use mathlib.Core.Bool.{false≢true}
use pmros.Base.Maps.{find}
use pmros.Base.Bytes.{Bytes, bytes_key}
use pmros.Base.Results.{Exception, Result, ok, err}
use pmros.Params.{Floats, Parameter, SetParametersResult, Infos, set_parameters_atomically_common}
use pmros.Params.Frame.{Kept, common_refused}
use pmros.Params.Node.{NodeParameters, Declaration}
use pmros.Params.Set.{
  Checked, throws, refused, undeclared, check_declared, stage, start, set_declared,
  parameters_to_be_set, set_parameters_atomically, undeclare_all, to_undeclare, add_staged,
}

module _ {ℓ} {D : Type ℓ} ⦃f : Floats D⦄ where
  abbrev pub setting :
      NodeParameters D → List (Parameter D) → Declaration D → SetParametersResult × Infos D
  setting n ps d =
      set_parameters_atomically_common (parameters_to_be_set ps d.parameters_out) n.parameters
        n.on_parameters_set_callback

  -- The storage after a set that was accepted.
  abbrev pub accepted_parameters : NodeParameters D → List (Parameter D) → Declaration D → Infos D
  accepted_parameters n ps d =
      (undeclare_all (to_undeclare n.parameters (parameters_to_be_set ps d.parameters_out))
        (add_staged d.parameters_out (setting n ps d).1)).1

  -- Where a call ends, once its parameters are checked: at the staging, refused, or done.
  abbrev pub SetDeclared :
      NodeParameters D
      → List (Parameter D)
      → Declaration D
      → SetParametersResult × NodeParameters D
      → Type ℓ
  SetDeclared n ps d call =
      ((d.result.successful ≡ false) × (call ≡ (d.result, n)))
      ⊎ (((setting n ps d).0.successful ≡ false)
          × (call ≡ ((setting n ps d).0, record n { parameters = (setting n ps d).1 })))
      ⊎ (((setting n ps d).0.successful ≡ true)
          × (call.0 ≡ (setting n ps d).0)
          × (call.1.parameters ≡ accepted_parameters n ps d))

  pub set_declared-SetDeclared :
      (now : ℕ) (n : NodeParameters D) (ps : List (Parameter D)) (d : Declaration D)
      → SetDeclared n ps d (set_declared now n ps d)
  set_declared-SetDeclared now n ps d = elim (Bool-cases d.result.successful) [
    | inl staged ↦ elim (Bool-cases (setting n ps d).0.successful) [
      | inl done ↦ inr (inr (done, simp (staged, done), ground (arith, staged, done)))
      | inr denied ↦ inr (inl (denied, simp (staged, denied)))
    ]
    | inr failed ↦ inl (failed, simp failed)
  ]

  -- The whole call, by where its checks end.
  pub data SetAtomically (now : ℕ) (ps : List (Parameter D)) (n : NodeParameters D)
      : Result SetParametersResult × NodeParameters D → Type ℓ where
    by_exception : (e : Exception) → SetAtomically now ps n (err e, n)
    by_read_only :
        (r : SetParametersResult)
        → check_declared n ps ≡ refused r
        → SetAtomically now ps n (ok r, n)
    by_setting :
        (us : List (Parameter D)) (r : SetParametersResult) (n' : NodeParameters D)
        → check_declared n ps ≡ undeclared us
        → SetDeclared n ps (stage n.parameter_overrides us (start n)) (r, n')
        → SetAtomically now ps n (ok r, n')

  pub set_parameters_atomically-SetAtomically :
      (now : ℕ) (ps : List (Parameter D)) (n : NodeParameters D)
      → SetAtomically now ps n (set_parameters_atomically now ps n)
  unfolding set_parameters_atomically
  set_parameters_atomically-SetAtomically now ps n = go (check_declared n ps) refl
    where
      go :
          (c : Checked D)
          → check_declared n ps ≡ c
          → SetAtomically now ps n (set_parameters_atomically now ps n)
      go (throws e) h = rw (h, set_parameters_atomically) (by_exception e)
      go (refused r) h = rw (h, set_parameters_atomically) (by_read_only r h)
      go (undeclared us) h =
          let d = stage n.parameter_overrides us (start n) in
          let call = set_declared now n ps d in
          rw (h, set_parameters_atomically)
            (by_setting us call.0 call.1 h (set_declared-SetDeclared now n ps d))

  abbrev pub Unchanged : NodeParameters D → NodeParameters D → Type ℓ
  Unchanged n n' =
      (n' ≡ record n { parameters = n'.parameters })
      × ((c : Bytes) → Kept (find c n.parameters) (find c n'.parameters))

  -- What is promised of a call that fails.
  abbrev pub IsAtomic : NodeParameters D → Result SetParametersResult × NodeParameters D → Type ℓ
  IsAtomic n call =
      ((e : Exception) → call.0 ≡ err e → call.1 ≡ n)
      × ((r : SetParametersResult) → call.0 ≡ ok r → r.successful ≡ false → Unchanged n call.1)

  refused_setting :
      (n : NodeParameters D) (ps : List (Parameter D)) (d : Declaration D) (r : SetParametersResult)
      (n' : NodeParameters D)
      → SetDeclared n ps d (r, n')
      → r.successful ≡ false
      → Unchanged n n'
  refused_setting n ps d r n' (inl (failed, e)) h = rw (ap (λ call. call.1) e) (refl, λ c. inl refl)
  refused_setting n ps d r n' (inr (inl (denied, e))) h = rw (ap (λ call. call.1) e) (
    refl,
    λ c.
        common_refused (parameters_to_be_set ps d.parameters_out) n.parameters
          n.on_parameters_set_callback c denied,
  )
  refused_setting n ps d r n' (inr (inr (done, e, left))) h =
      absurd (false≢true (sym h ∙ ap (λ result. result.successful) e ∙ done))

  SetAtomically-IsAtomic :
      (now : ℕ) (ps : List (Parameter D)) (n : NodeParameters D)
      (call : Result SetParametersResult × NodeParameters D)
      → SetAtomically now ps n call
      → IsAtomic n call
  SetAtomically-IsAtomic now ps n (_, _) (by_exception e) =
      (λ e' h. refl, λ r h. absurd (ground arith))
  SetAtomically-IsAtomic now ps n (_, _) (by_read_only r c) =
      (λ e h. refl, λ r' h failed. (refl, λ c'. inl refl))
  SetAtomically-IsAtomic now ps n (_, _) (by_setting us r n' c s) = (
    λ e h. absurd (ground arith),
    λ r' h failed.
        refused_setting n ps (stage n.parameter_overrides us (start n)) r n' s
          (ground (arith, h, failed)),
  )

  -- A call that throws changes nothing. A call that returns an unsuccessful result publishes no event
  -- and keeps every declared parameter as it was; all that it may change is to leave an entry
  -- without a value under a name that had none.
  pub set_parameters_atomically-IsAtomic :
      (now : ℕ) (ps : List (Parameter D)) (n : NodeParameters D)
      → IsAtomic n (set_parameters_atomically now ps n)
  set_parameters_atomically-IsAtomic now ps n =
      SetAtomically-IsAtomic now ps n (set_parameters_atomically now ps n)
        (set_parameters_atomically-SetAtomically now ps n)
