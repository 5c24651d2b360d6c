-- ===== src/Params/Listing.antt =====
-- Which names list_parameters returns.
use pmros.Base.{
  ℕ, ◌+◌, ◌<◌, Bool, true, any, some, List, [], ◌∷◌, ◌++◌, ◌≡◌, ◌⊎◌, ◌↔◌, inl, inr, refl, ◌∙◌,
  arith, sym, if◌then◌else◌, Bool-cases, Option-cases, append_assoc, append-nil,
}
use mathlib.Core.Bool.{false≢true}
use pmros.Base.Bytes.{Bytes, eq_bytes, eq_bytes_iff, codes}
use pmros.Params.{Infos}
use pmros.Params.Node.{NodeParameters}
use pmros.Params.Query.{
  strip_prefix, separator, count_separators, within, prefix_matches, listed, list_entry,
  ListParametersResult, list_entries, list_parameters,
}

strip_prefix-append : (t s r : Bytes) → (strip_prefix t s ≡ some r) ↔ (s ≡ t ++ r)
strip_prefix-append [] s r = ground arith
strip_prefix-append (b ∷ t) [] r = ground arith
strip_prefix-append (b ∷ t) (c ∷ s) r = ground (arith, strip_prefix-append t s r)

-- Not deeper than asked for; 0 is any depth.
abbrev pub WithinDepth : ℕ → ℕ → Type 0
WithinDepth depth separators = (depth ≡ 0) ⊎ (separators < depth)

-- The name itself, or a name below it.
abbrev pub IsUnder : ℕ → Bytes → Bytes → Type 0
IsUnder depth prefix name =
    (name ≡ prefix)
    ⊎ ((rest : Bytes) × (name ≡ prefix ++ codes "." ++ rest)
        × WithinDepth depth (1 + count_separators rest))

within-WithinDepth :
    (depth : ℕ) (s : Bytes) → (within depth s ≡ true) ↔ WithinDepth depth (count_separators s)
within-WithinDepth depth s = ground arith

prefix_matches-IsUnder :
    (depth : ℕ) (name prefix : Bytes)
    → (prefix_matches depth name prefix ≡ true) ↔ IsUnder depth prefix name
prefix_matches-IsUnder depth name prefix =
    let stripped = strip_prefix (prefix ++ codes ".") name in
    elim (Bool-cases (eq_bytes name prefix)) [
      | inl same ↦ (λ h. inl ((eq_bytes_iff name prefix).0 same), λ u. rw same refl)
      | inr other ↦ (
        λ h. elim (Option-cases stripped) [
          | inl nothing ↦ absurd (ground (arith, h, other, nothing))
          | inr (rest, e) ↦ inr (
            rest,
            (strip_prefix-append (prefix ++ codes ".") name rest).0 e,
            (within-WithinDepth depth (separator ∷ rest)).0 (rw (other, e) at h),
          )
        ],
        λ u. elim u [
          | inl e ↦ absurd (false≢true (sym other ∙ (eq_bytes_iff name prefix).1 e))
          | inr (rest, e, deep) ↦
              rw (other, (strip_prefix-append (prefix ++ codes ".") name rest).1 e)
                ((within-WithinDepth depth (separator ∷ rest)).1 deep)
        ],
      )
    ]

abbrev pub IsUnderOne : ℕ → List Bytes → Bytes → Type 0
IsUnderOne depth [] name = ⊥
IsUnderOne depth (prefix ∷ prefixes) name =
    IsUnder depth prefix name ⊎ IsUnderOne depth prefixes name

any-IsUnderOne :
    (depth : ℕ) (name : Bytes) (prefixes : List Bytes)
    → (any (prefix_matches depth name) prefixes ≡ true) ↔ IsUnderOne depth prefixes name
any-IsUnderOne depth name [] = (λ h. false≢true h, λ u. absurd u)
any-IsUnderOne depth name (prefix ∷ prefixes) =
    let here = prefix_matches-IsUnder depth name prefix in
    let there = any-IsUnderOne depth name prefixes in
    elim (Bool-cases (prefix_matches depth name prefix)) [
      | inl yes_here ↦ (λ h. inl (here.0 yes_here), λ u. rw yes_here refl)
      | inr not_here ↦ (
        λ h. inr (there.0 (rw not_here at h)),
        λ u. elim u [
          | inl under ↦ absurd (false≢true (sym not_here ∙ here.1 under))
          | inr below ↦ rw not_here (there.1 below)
        ],
      )
    ]

abbrev pub IsSelected : List Bytes → ℕ → Bytes → Type 0
IsSelected [] depth name = WithinDepth depth (count_separators name)
IsSelected (prefix ∷ prefixes) depth name = IsUnderOne depth (prefix ∷ prefixes) name

listed-IsSelected :
    (prefixes : List Bytes) (depth : ℕ) (name : Bytes)
    → (listed prefixes depth name ≡ true) ↔ IsSelected prefixes depth name
listed-IsSelected [] depth name = within-WithinDepth depth name
listed-IsSelected (prefix ∷ prefixes) depth name = any-IsUnderOne depth name (prefix ∷ prefixes)

names-list_entry :
    (prefixes : List Bytes) (depth : ℕ) (name : Bytes) (rest : List Bytes)
    (result : ListParametersResult)
    → (list_entry prefixes depth name result).names ++ rest
      ≡ result.names ++ (if listed prefixes depth name then name ∷ rest else rest)
names-list_entry prefixes depth name rest result = elim (Bool-cases (listed prefixes depth name)) [
  | inl chosen ↦ rw chosen (append_assoc result.names (name ∷ []) rest)
  | inr left_out ↦ rw left_out refl
]

module _ {ℓ} {D : Type ℓ} where
  abbrev pub kept_names : (Bytes → Bool) → Infos D → List Bytes
  kept_names test [] = []
  kept_names test ((name, info) ∷ infos) =
      if test name then name ∷ kept_names test infos else kept_names test infos

  names-list_entries :
      (prefixes : List Bytes) (depth : ℕ) (infos : Infos D) (result : ListParametersResult)
      → (list_entries prefixes depth infos result).names
        ≡ result.names ++ kept_names (listed prefixes depth) infos
  names-list_entries prefixes depth [] result = sym (append-nil result.names)
  names-list_entries prefixes depth ((name, info) ∷ infos) result =
      names-list_entries prefixes depth infos (list_entry prefixes depth name result)
      ∙ names-list_entry prefixes depth name (kept_names (listed prefixes depth) infos) result

  -- list_parameters returns the declared names, in the order of the storage, that pass a test. Without
  -- prefixes, a name passes if the depth is 0 or above the number of its separators. With prefixes, it
  -- passes if it is one of them, or one of them, a separator and more, where the depth is 0 or
  -- above the number of separators after the prefix.
  pub list_parameters-IsSelected :
      (prefixes : List Bytes) (depth : ℕ) (n : NodeParameters D)
      → ((list_parameters prefixes depth n).names ≡ kept_names (listed prefixes depth) n.parameters)
        × ((name : Bytes) → (listed prefixes depth name ≡ true) ↔ IsSelected prefixes depth name)
  unfolding list_parameters
  list_parameters-IsSelected prefixes depth n = (
    names-list_entries prefixes depth n.parameters (record { names = []; prefixes = [] }),
    listed-IsSelected prefixes depth,
  )
