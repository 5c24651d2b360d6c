-- ===== src/Topics/Expand/Segments.antt =====
-- A topic name as a list of characters and substitutions, for the expansion of topic names
-- (rcl/rcl/src/rcl/expand_topic_name.c).
use pmros.Base.{
  ℕ, suc, ◌+◌, ◌-◌, ◌^◌, ◌≤◌, ◌<◌, true, if◌then◌else◌, Option, some, List, [], ◌∷◌, ◌++◌, length,
  ◌≡◌, ◌≢◌, refl, ap, arith, All,
}
use pmros.Base.Bytes.{Bytes, codes, eq_bytes}
use pmros.Topics.Grammar.{IsBody, end, character, substitution, is_word}
use pmros.Topics.Expand.{take, same_start, Environment, replacement}

pub data Segment : Type 0 where
  plain : ℕ → Segment
  named : Bytes → Segment

abbrev pub flatten : List Segment → Bytes
flatten [] = []
flatten (plain c ∷ segs) = c ∷ flatten segs
flatten (named n ∷ segs) = 123 ∷ (n ++ (125 ∷ flatten segs))

abbrev pub plains : Bytes → List Segment
plains [] = []
plains (c ∷ s) = plain c ∷ plains s

abbrev pub NoBraces : Bytes → Type 0
NoBraces = All (λ (c : ℕ). (c ≢ 123) × (c ≢ 125))

abbrev pub WellFormed : List Segment → Type 0
WellFormed [] = Unit
WellFormed (plain c ∷ segs) = (c ≢ 123) × (c ≢ 125) × WellFormed segs
WellFormed (named n ∷ segs) = NoBraces n × (length n + 2 < 2 ^ 64) × WellFormed segs

abbrev pub named_count : List Segment → ℕ
named_count [] = 0
named_count (plain c ∷ segs) = named_count segs
named_count (named n ∷ segs) = suc (named_count segs)

words-NoBraces : (n : Bytes) → All (λ (c : ℕ). is_word c ≡ true) n → NoBraces n
words-NoBraces [] h = tt
words-NoBraces (c ∷ n) (w, h) = ((ground arith, ground arith), words-NoBraces n h)

length-named : (n s : Bytes) → length n < length (123 ∷ (n ++ (125 ∷ s)))
length-named [] s = omega arith
length-named (c ∷ n) s = omega (arith, length-named n s)

length-rest : (n s : Bytes) → length s < length (123 ∷ (n ++ (125 ∷ s)))
length-rest [] s = omega arith
length-rest (c ∷ n) s = omega (arith, length-rest n s)

pub of_body :
    (s : Bytes)
    → IsBody s
    → length s + 2 < 2 ^ 64
    → (segs : List Segment) × (flatten segs ≡ s) × WellFormed segs × (named_count segs ≤ length s)
of_body _ end l = ([], refl, tt, omega arith)
of_body _ (character {c} {cs} w body) l =
    let (segs, e, f, n) = of_body cs body (omega (arith, l)) in
    (
      plain c ∷ segs,
      ap (λ (xs : Bytes). c ∷ xs) e,
      (ground arith, ground arith, f),
      omega (arith, n),
    )
of_body _ (substitution name {cs} words start body) l =
    let (segs, e, f, n) = of_body cs body (omega (arith, l, length-rest name cs)) in
    (
      named name ∷ segs,
      ap (λ (xs : Bytes). 123 ∷ (name ++ (125 ∷ xs))) e,
      (words-NoBraces name words, omega (arith, l, length-named name cs), f),
      omega (arith, n, length-rest name cs),
    )

-- What a substitution stands for.
abbrev pub value : Environment → Bytes → Option Bytes
value env n =
    if eq_bytes (codes "node") n
    then some env.node_name
    else if eq_bytes (codes "ns") n
    then some env.node_namespace
    else if eq_bytes (codes "namespace") n
    then some env.node_namespace
    else env.substitutions n

abbrev pub brace : Bytes → Bytes
brace n = 123 ∷ (n ++ (125 ∷ []))

take-brace : (n s : Bytes) → take (suc (length n)) (n ++ (125 ∷ s)) ≡ n ++ (125 ∷ [])
take-brace [] s = refl
take-brace (c ∷ n) s = ap (λ (xs : Bytes). c ∷ xs) (take-brace n s)

pub take_substitution : (n s : Bytes) → take (length n + 2) (123 ∷ (n ++ (125 ∷ s))) ≡ brace n
take_substitution n s =
    let e : length n + 2 ≡ suc (suc (length n)) = omega arith in
    rw e (ap (λ (xs : Bytes). 123 ∷ xs) (take-brace n s))

take_name : (n s : Bytes) → take (length n) (n ++ s) ≡ n
take_name [] s = refl
take_name (c ∷ n) s = ap (λ (xs : Bytes). c ∷ xs) (take_name n s)

same_name :
    (w n : Bytes)
    → NoBraces w
    → NoBraces n
    → eq_bytes (take (suc (length n)) (w ++ (125 ∷ []))) (n ++ (125 ∷ [])) ≡ eq_bytes w n
same_name [] [] a b = refl
same_name [] (d ∷ n) a b = ground arith
same_name (c ∷ w) [] a b = ground arith
same_name (c ∷ w) (d ∷ n) (_, a) (_, b) = ground (arith, same_name w n a b)

same_start-brace :
    (w n s : Bytes)
    → NoBraces w
    → NoBraces n
    → same_start (length n + 2) (brace w) (123 ∷ (n ++ (125 ∷ s))) ≡ eq_bytes w n
same_start-brace w n s a b =
    let e : length n + 2 ≡ suc (suc (length n)) = omega arith in
    rw (take_substitution n s, e) (same_name w n a b)

pub replacement-value :
    (env : Environment) (n s : Bytes)
    → NoBraces n
    → replacement env (length n + 2) (123 ∷ (n ++ (125 ∷ s))) ≡ value env n
unfolding replacement
replacement-value env n s b =
    let node = same_start-brace (codes "node") n s (omega arith) b in
    let ns = same_start-brace (codes "ns") n s (omega arith) b in
    let namespace = same_start-brace (codes "namespace") n s (omega arith) b in
    let e : length n + 2 - 2 ≡ length n = omega arith in
    ground (arith, node, ns, namespace, e, take_name n (125 ∷ s))
