-- ===== src/Topics/Expand/Expanded.antt =====
-- The loop over the substitutions of a topic name (rcl/rcl/src/rcl/expand_topic_name.c).
use pmros.Base.{
  ℕ, zero, suc, ◌+◌, ◌-◌, ◌%◌, ◌^◌, ◌<◌, true, Option, none, some, List, [], ◌∷◌, ◌++◌, length,
  drop, ◌≡◌, ◌⊎◌, inl, inr, refl, ap, ◌∙◌, subst, arith, Bool-cases, Option-cases,
}
use pmros.Base.Bytes.{Bytes, codes, eq_bytes, eq_bytes_iff}
use pmros.Topics.Expand.{take, index_of, ReplStr, Environment, Loop, done, unknown, expand_loop}
use pmros.Topics.Expand.Segments.{
  Segment, plain, named, flatten, NoBraces, WellFormed, named_count, value, brace,
  take_substitution, replacement-value,
}
use pmros.Topics.Expand.Replaced.{
  replace_segments, repl_str-flatten, replace_segments-WellFormed, occurs,
  named_count-replace_segments, expand, expand-replace_segments, expand_unknown,
}

-- The first substitution `n`, at `i`, of a text.
pub record First (s : Bytes) (segs : List Segment) : Type 0 where
  pub i : ℕ
  pub n : Bytes
  pub rest : Bytes
  pub opens : index_of 123 s ≡ some i
  pub closes : index_of 125 s ≡ some (i + (length n + 1))
  pub rest_eq : drop i s ≡ 123 ∷ (n ++ (125 ∷ rest))
  pub clean : NoBraces n
  pub short : length n + 2 < 2 ^ 64
  pub occurs_in : occurs n segs ≡ true

closing : (n s : Bytes) → NoBraces n → index_of 125 (n ++ (125 ∷ s)) ≡ some (length n)
closing [] s b = refl
closing (c ∷ n) s ((_, q), b) = ground (arith, closing n s b)

pub named_at_start :
    (n : Bytes) (segs : List Segment)
    → NoBraces n
    → length n + 2 < 2 ^ 64
    → (f : First (flatten (named n ∷ segs)) (named n ∷ segs)) × (f.n ≡ n)
named_at_start n segs b l = (
  record {
    i = 0;
    n = n;
    rest = flatten segs;
    opens = refl;
    closes = ground (arith, closing n (flatten segs) b);
    rest_eq = refl;
    clean = b;
    short = l;
    occurs_in = rw ((eq_bytes_iff n n).1 refl) refl;
  },
  refl,
)

pub named_or_plain :
    (segs : List Segment)
    → WellFormed segs
    → ((index_of 123 (flatten segs) ≡ none)
        × ((env : Environment) → expand env segs ≡ some (flatten segs)))
      ⊎ First (flatten segs) segs
named_or_plain [] w = inl (refl, λ env. refl)
named_or_plain (plain c ∷ segs) (p, q, w) = elim (named_or_plain segs w) [
  | inl (e, x) ↦ inl (ground (arith, e), λ env. rw (x env) refl)
  | inr f ↦ inr (record {
    i = suc f.i;
    n = f.n;
    rest = f.rest;
    opens = ground (arith, f.opens);
    closes = ground (arith, f.closes);
    rest_eq = f.rest_eq;
    clean = f.clean;
    short = f.short;
    occurs_in = f.occurs_in;
  })
]
named_or_plain (named n ∷ segs) (b, l, w) = inr (named_at_start n segs b l).0

-- The values of substitutions have no braces.
pub record IsClean (env : Environment) : Type 0 where
  pub clean_name : NoBraces env.node_name
  pub clean_namespace : NoBraces env.node_namespace
  pub clean_values : (n r : Bytes) → env.substitutions n ≡ some r → NoBraces r

same_value : (a b : Bytes) → ◌≡◌ {A = Option Bytes} (some a) (some b) → a ≡ b
same_value a b h = cc (h)

clean_value : (env : Environment) → IsClean env → (n r : Bytes) → value env n ≡ some r → NoBraces r
clean_value env c n r v = elim (Bool-cases (eq_bytes (codes "node") n)) [
  | inl e ↦ subst NoBraces (same_value env.node_name r (rw e at v)) c.clean_name
  | inr e ↦ elim (Bool-cases (eq_bytes (codes "ns") n)) [
    | inl e' ↦ subst NoBraces (same_value env.node_namespace r (rw (e, e') at v)) c.clean_namespace
    | inr e' ↦ elim (Bool-cases (eq_bytes (codes "namespace") n)) [
      | inl e'' ↦
          subst NoBraces (same_value env.node_namespace r (rw (e, e', e'') at v)) c.clean_namespace
      | inr e'' ↦ c.clean_values n r (rw (e, e', e'') at v)
    ]
  ]
]

abbrev pub outcome : Option Bytes → Loop
outcome none = unknown
outcome (some s) = done s

module _ (repl : ReplStr) (env : Environment) where
  open repl use {repl_str}

  -- One round of the loop at the first substitution.
  pub expand_loop_step :
      (fuel : ℕ) (segs : List Segment)
      → WellFormed segs
      → (f : First (flatten segs) segs)
      → (value env f.n ≡ none → expand_loop repl env (suc fuel) (flatten segs) ≡ unknown)
        × ((r : Bytes)
            → value env f.n ≡ some r
            → expand_loop repl env (suc fuel) (flatten segs)
              ≡ expand_loop repl env fuel (flatten (replace_segments f.n r segs)))
  unfolding expand_loop
  expand_loop_step fuel segs w f =
      let len : (f.i + (length f.n + 1) + 2 ^ 64 + 1 - f.i) % 2 ^ 64 ≡ length f.n + 2 =
        omega (arith, f.short) in
      let found = replacement-value env f.n f.rest f.clean in
      let key : take ((f.i + (length f.n + 1) + 2 ^ 64 + 1 - f.i) % 2 ^ 64)
            (drop f.i (flatten segs))
          ≡ brace f.n =
        rw (len, f.rest_eq) (take_substitution f.n f.rest) in
      (
        (λ v. rw (f.opens, f.closes, len, f.rest_eq, found, v, expand_loop) refl),
        (λ r v.
            rw (f.opens, f.closes, len, f.rest_eq, found, v, expand_loop)
              (ap (λ (k : Bytes). expand_loop repl env fuel (repl_str (flatten segs) k r)) key
                ∙ ap (λ (s : Bytes). expand_loop repl env fuel s)
                    (repl_str-flatten repl f.n r segs f.clean w))),
      )

  pub expand_loop_lem :
      (fuel : ℕ) (segs : List Segment)
      → IsClean env
      → WellFormed segs
      → named_count segs < fuel
      → expand_loop repl env fuel (flatten segs) ≡ outcome (expand env segs)
  unfolding expand_loop
  expand_loop_lem zero segs c w l = elim l [ ]
  expand_loop_lem (suc fuel) segs c w l = elim (named_or_plain segs w) [
    | inl (e, x) ↦ rw (e, x env, expand_loop) refl
    | inr f ↦
        let (stop, step) = expand_loop_step fuel segs w f in
        elim (Option-cases (value env f.n)) [
          | inl v ↦ stop v ∙ rw (expand_unknown env f.n segs v f.occurs_in) refl
          | inr (r, v) ↦
              let less = (named_count-replace_segments f.n r segs).1 f.occurs_in in
              step r v
              ∙ expand_loop_lem fuel (replace_segments f.n r segs) c
                  (replace_segments-WellFormed f.n r segs (clean_value env c f.n r v) w)
                  (omega (arith, l, less))
              ∙ ap outcome (expand-replace_segments env f.n r segs v)
        ]
  ]
