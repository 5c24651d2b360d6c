-- ===== src/Topics/Expand/Replaced.antt =====
-- What rcutils_repl_str makes of a topic name (rcl/rcl/src/rcl/expand_topic_name.c).
use pmros.Base.{
  ◌≤◌, ◌<◌, Bool, true, false, if◌then◌else◌, Option, none, some, List, [], ◌∷◌, ◌++◌, ◌≡◌, inl,
  inr, refl, sym, ap, ◌∙◌, arith, Bool-cases, append_assoc,
}
use pmros.Base.Bytes.{Bytes, eq_bytes, eq_bytes_iff}
use pmros.Topics.Expand.{is_prefix, ReplStr, Environment}
use pmros.Topics.Expand.Segments.{
  Segment, plain, named, flatten, plains, NoBraces, WellFormed, named_count, value, brace,
}

-- Every occurrence of a substitution replaced.
abbrev pub replace_segments : Bytes → Bytes → List Segment → List Segment
replace_segments n r [] = []
replace_segments n r (plain c ∷ segs) = plain c ∷ replace_segments n r segs
replace_segments n r (named m ∷ segs) =
    let rest = replace_segments n r segs in
    if eq_bytes n m then plains r ++ rest else named m ∷ rest

pub flatten-plains :
    (r : Bytes) (segs : List Segment) → flatten (plains r ++ segs) ≡ r ++ flatten segs
flatten-plains [] segs = refl
flatten-plains (c ∷ r) segs = ap (λ (s : Bytes). c ∷ s) (flatten-plains r segs)

is_prefix-name :
    (n m s : Bytes)
    → NoBraces n
    → NoBraces m
    → is_prefix (n ++ (125 ∷ [])) (m ++ (125 ∷ s)) ≡ eq_bytes n m
is_prefix-name [] [] s a b = refl
is_prefix-name [] (d ∷ m) s a b = ground arith
is_prefix-name (c ∷ n) [] s a b = ground arith
is_prefix-name (c ∷ n) (d ∷ m) s (_, a) (_, b) = ground (arith, is_prefix-name n m s a b)

module _ (repl : ReplStr) where
  open repl use {repl_str, repl_end, repl_here, repl_skip}

  skip_name :
      (n m r s : Bytes)
      → NoBraces m
      → repl_str (m ++ (125 ∷ s)) (brace n) r ≡ m ++ (125 ∷ repl_str s (brace n) r)
  skip_name n [] r s b = repl_skip (brace n) r 125 s refl
  skip_name n (c ∷ m) r s ((opens, _), b) =
      repl_skip (brace n) r c (m ++ (125 ∷ s)) (ground arith)
      ∙ ap (λ (xs : Bytes). c ∷ xs) (skip_name n m r s b)

  pub repl_str-flatten :
      (n r : Bytes) (segs : List Segment)
      → NoBraces n
      → WellFormed segs
      → repl_str (flatten segs) (brace n) r ≡ flatten (replace_segments n r segs)
  repl_str-flatten n r [] a w = repl_end (brace n) r
  repl_str-flatten n r (plain c ∷ segs) a (opens, _, w) =
      repl_skip (brace n) r c (flatten segs) (ground arith)
      ∙ ap (λ (xs : Bytes). c ∷ xs) (repl_str-flatten n r segs a w)
  repl_str-flatten n r (named m ∷ segs) a (b, _, w) =
      let ih = repl_str-flatten n r segs a w in
      elim (Bool-cases (eq_bytes n m)) [
        | inl e ↦
            let same : n ≡ m = (eq_bytes_iff n m).0 e in
            rw (e, ← same)
              (ap (λ (s : Bytes). repl_str (123 ∷ s) (brace n) r)
                  (sym (append_assoc n (125 ∷ []) (flatten segs)))
                ∙ repl_here (brace n) r (flatten segs) (λ q. absurd cc)
                ∙ ap (λ (s : Bytes). r ++ s) ih
                ∙ sym (flatten-plains r (replace_segments n r segs)))
        | inr e ↦ rw e (
            repl_skip (brace n) r 123 (m ++ (125 ∷ flatten segs))
              (is_prefix-name n m (flatten segs) a b ∙ e)
            ∙ ap (λ (s : Bytes). 123 ∷ s) (skip_name n m r (flatten segs) b)
            ∙ ap (λ (s : Bytes). 123 ∷ (m ++ (125 ∷ s))) ih)
      ]

pub plains-WellFormed :
    (r : Bytes) (segs : List Segment) → NoBraces r → WellFormed segs → WellFormed (plains r ++ segs)
plains-WellFormed [] segs b w = w
plains-WellFormed (c ∷ r) segs ((p, q), b) w = (p, q, plains-WellFormed r segs b w)

pub replace_segments-WellFormed :
    (n r : Bytes) (segs : List Segment)
    → NoBraces r
    → WellFormed segs
    → WellFormed (replace_segments n r segs)
replace_segments-WellFormed n r [] b w = tt
replace_segments-WellFormed n r (plain c ∷ segs) b (p, q, w) =
    (p, q, replace_segments-WellFormed n r segs b w)
replace_segments-WellFormed n r (named m ∷ segs) b (p, q, w) =
    let ih = replace_segments-WellFormed n r segs b w in
    elim (Bool-cases (eq_bytes n m)) [
      | inl e ↦ rw e (plains-WellFormed r (replace_segments n r segs) b ih)
      | inr e ↦ rw e (p, q, ih)
    ]

pub named_count-plains :
    (r : Bytes) (segs : List Segment) → named_count (plains r ++ segs) ≡ named_count segs
named_count-plains [] segs = refl
named_count-plains (c ∷ r) segs = named_count-plains r segs

abbrev pub occurs : Bytes → List Segment → Bool
occurs n [] = false
occurs n (plain c ∷ segs) = occurs n segs
occurs n (named m ∷ segs) = if eq_bytes n m then true else occurs n segs

pub named_count-replace_segments :
    (n r : Bytes) (segs : List Segment)
    → (named_count (replace_segments n r segs) ≤ named_count segs)
      × (occurs n segs ≡ true → named_count (replace_segments n r segs) < named_count segs)
named_count-replace_segments n r [] = (omega arith, λ h. absurd cc)
named_count-replace_segments n r (plain c ∷ segs) = named_count-replace_segments n r segs
named_count-replace_segments n r (named m ∷ segs) =
    let (le, lt) = named_count-replace_segments n r segs in
    let e = named_count-plains r (replace_segments n r segs) in
    (ground (arith, le, lt, e), ground (arith, le, lt, e))

abbrev pub append_to : Bytes → Option Bytes → Option Bytes
append_to r none = none
append_to r (some s) = some (r ++ s)

-- What a name stands for: every substitution replaced by its value, if each has one.
abbrev pub expand : Environment → List Segment → Option Bytes
expand env [] = some []
expand env (plain c ∷ segs) = append_to (c ∷ []) (expand env segs)
expand env (named n ∷ segs) = elim (value env n) [
  | none ↦ none
  | some r ↦ append_to r (expand env segs)
]

pub expand-plains :
    (env : Environment) (r : Bytes) (segs : List Segment)
    → expand env (plains r ++ segs) ≡ append_to r (expand env segs)
expand-plains env [] segs = ground arith
expand-plains env (c ∷ r) segs = ground (arith, expand-plains env r segs)

expand-named :
    (env : Environment) (m : Bytes) (a b : List Segment)
    → expand env a ≡ expand env b
    → expand env (named m ∷ a) ≡ expand env (named m ∷ b)
expand-named env m a b h =
    ap
      (λ (o : Option Bytes). elim (value env m) as (λ v. Option Bytes) [
        | none ↦ none
        | some r ↦ append_to r o
      ])
      h

pub expand-replace_segments :
    (env : Environment) (n r : Bytes) (segs : List Segment)
    → value env n ≡ some r
    → expand env (replace_segments n r segs) ≡ expand env segs
expand-replace_segments env n r [] v = refl
expand-replace_segments env n r (plain c ∷ segs) v =
    ap (append_to (c ∷ [])) (expand-replace_segments env n r segs v)
expand-replace_segments env n r (named m ∷ segs) v =
    let ih = expand-replace_segments env n r segs v in
    elim (Bool-cases (eq_bytes n m)) [
      | inl e ↦
          let same : n ≡ m = (eq_bytes_iff n m).0 e in
          rw e (expand-plains env r (replace_segments n r segs) ∙ rw (ih, ← same, v) refl)
      | inr e ↦ rw e (expand-named env m (replace_segments n r segs) segs ih)
    ]

pub expand_unknown :
    (env : Environment) (n : Bytes) (segs : List Segment)
    → value env n ≡ none
    → occurs n segs ≡ true
    → expand env segs ≡ none
expand_unknown env n [] v h = absurd cc
expand_unknown env n (plain c ∷ segs) v h = rw (expand_unknown env n segs v h) refl
expand_unknown env n (named m ∷ segs) v h = elim (Bool-cases (eq_bytes n m)) [
  | inl e ↦ let same : n ≡ m = (eq_bytes_iff n m).0 e in rw (← same, v) refl
  | inr e ↦ ground (arith, expand_unknown env n segs v (rw e at h))
]
