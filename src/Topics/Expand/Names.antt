-- ===== src/Topics/Expand/Names.antt =====
-- rcl_expand_topic_name as a whole (rcl/rcl/src/rcl/expand_topic_name.c), with the validation of
-- topic names.
use pmros.Base.{
  suc, ◌+◌, ◌^◌, ◌≤◌, ◌<◌, Bool, true, false, ◌==◌, ◌&&◌, if◌then◌else◌, Option, none, some, List,
  [], ◌∷◌, ◌++◌, length, ◌≡◌, inl, inr, refl, sym, ap, ◌∙◌, subst, arith, Bool-cases, Option-cases,
  append_assoc,
}
use pmros.Base.Bytes.{Bytes}
use pmros.Topics.Grammar.{IsBody, end, character, substitution}
use pmros.Topics.Accepted.{IsPath}
use pmros.Topics.Expand.{
  index_of, ReplStr, Environment, expand_loop, ExpandRet, ret_ok, unknown_substitution,
  in_namespace, starts_with, absolute, without_tilde, finish_expansion, expand_valid,
}
use pmros.Topics.Expand.Segments.{
  Segment, flatten, plains, NoBraces, WellFormed, named_count, of_body,
}
use pmros.Topics.Expand.Replaced.{
  flatten-plains, plains-WellFormed, named_count-plains, append_to, expand, expand-plains,
}
use pmros.Topics.Expand.Expanded.{named_or_plain, IsClean, outcome, expand_loop_lem}

abbrev pub expansion : Environment → ReplStr → Option Bytes → ExpandRet × Option Bytes
expansion env repl none = (unknown_substitution, none)
expansion env repl (some s) = (ret_ok, some (absolute repl env s))

module _ (repl : ReplStr) (env : Environment) where
  and_false : (b : Bool) → (b && false) ≡ false
  and_false true = refl
  and_false false = refl

  finish-outcome : (o : Option Bytes) → finish_expansion repl env (outcome o) ≡ expansion env repl o
  finish-outcome none = refl
  finish-outcome (some s) = refl

  -- The segments of a name, its tilde replaced.
  pub record Decomposed (input : Bytes) : Type 0 where
    pub segs : List Segment
    pub flat : flatten segs ≡ without_tilde repl env input
    pub formed : WellFormed segs
    pub few : named_count segs ≤ length input
    pub closed : index_of 123 input ≡ none → expand env segs ≡ some (flatten segs)
    pub rooted : starts_with repl env 47 input ≡ true → without_tilde repl env input ≡ input

  pub expand_valid_lem :
      (input : Bytes)
      → IsClean env
      → (d : Decomposed input)
      → expand_valid repl env input ≡ expansion env repl (expand env d.segs)
  expand_valid_lem input c d = elim (Option-cases (index_of 123 input)) [
    | inr (i, e) ↦
        rw (e, and_false (starts_with repl env 47 input))
          (ap
              (λ (s : Bytes).
                finish_expansion repl env (expand_loop repl env (suc (length input)) s))
              (sym d.flat)
            ∙ ap (finish_expansion repl env) (
                expand_loop_lem repl env (suc (length input)) d.segs c d.formed
                  (omega (arith, d.few)))
            ∙ finish-outcome (expand env d.segs))
    | inl e ↦ elim (Bool-cases (starts_with repl env 47 input)) [
      | inl s ↦ rw (e, s, d.closed e, d.flat, d.rooted s, s) refl
      | inr s ↦ rw (e, s, d.closed e, d.flat) refl
    ]
  ]

  no_tilde : (s : Bytes) → IsBody s → without_tilde repl env s ≡ s
  no_tilde _ end = refl
  no_tilde _ (character w body) = ground arith
  no_tilde _ (substitution name words start body) = refl

  no_name_closed :
      (segs : List Segment)
      → WellFormed segs
      → index_of 123 (flatten segs) ≡ none
      → expand env segs ≡ some (flatten segs)
  no_name_closed segs w h = elim (named_or_plain segs w) [
    | inl (e, x) ↦ x env
    | inr f ↦ absurd (cc (h, f.opens))
  ]

  abbrev ns_part : Bytes
  ns_part =
      if length env.node_namespace == 1 then env.node_namespace else env.node_namespace ++ (47 ∷ [])

  in_namespace-ns_part : (s : Bytes) → in_namespace repl env s ≡ ns_part ++ s
  in_namespace-ns_part s = elim (Bool-cases (length env.node_namespace == 1)) [
    | inl e ↦ rw e refl
    | inr e ↦ rw e (sym (append_assoc env.node_namespace (47 ∷ []) s))
  ]

  append-NoBraces : (a b : Bytes) → NoBraces a → NoBraces b → NoBraces (a ++ b)
  append-NoBraces [] b p q = q
  append-NoBraces (c ∷ a) b (x, p) q = (x, append-NoBraces a b p q)

  ns_part-NoBraces : IsClean env → NoBraces ns_part
  ns_part-NoBraces c = elim (Bool-cases (length env.node_namespace == 1)) [
    | inl e ↦ rw e c.clean_namespace
    | inr e ↦ rw e (
        append-NoBraces env.node_namespace (47 ∷ []) c.clean_namespace
          ((omega arith, omega arith), tt))
  ]

  decompose_tilde :
      (cs : Bytes) → IsClean env → length cs + 3 < 2 ^ 64 → IsBody cs → Decomposed (126 ∷ cs)
  decompose_tilde cs c l body =
      let (segs, e, w, n) = of_body cs body (omega (arith, l)) in
      let path = ns_part ++ env.node_name in
      let clean : NoBraces path =
        append-NoBraces ns_part env.node_name (ns_part-NoBraces c) c.clean_name in
      record {
        segs = plains path ++ segs;
        flat =
            flatten-plains path segs
            ∙ ap (λ (s : Bytes). path ++ s) e
            ∙ append_assoc ns_part env.node_name cs
            ∙ sym (in_namespace-ns_part (env.node_name ++ cs));
        formed = plains-WellFormed path segs clean w;
        few = omega (arith, n, named_count-plains path segs);
        closed = λ h.
            let no : index_of 123 (flatten segs) ≡ none = rw e (ground (arith, h)) in
            expand-plains env path segs
            ∙ ap (append_to path) (no_name_closed segs w no)
            ∙ ap (λ (s : Bytes). some s) (sym (flatten-plains path segs));
        rooted = λ h. absurd cc;
      }

  pub decompose :
      (input : Bytes) → IsClean env → length input + 2 < 2 ^ 64 → IsPath input → Decomposed input
  decompose input c l (inl body) =
      let (segs, e, w, n) = of_body input body l in
      record {
        segs = segs;
        flat = e ∙ sym (no_tilde input body);
        formed = w;
        few = n;
        closed = λ h. no_name_closed segs w (rw e h);
        rooted = λ h. no_tilde input body;
      }
  decompose input c l (inr (cs, t, body)) =
      let size : length input ≡ suc (length cs) = ap length t in
      subst Decomposed (sym t) (decompose_tilde cs c (omega (arith, l, size)) body)
