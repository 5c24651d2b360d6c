-- ===== src/Topics/Accepted.antt =====
-- The topic names that rcl_validate_topic_name_with_size accepts
-- (rcl/rcl/src/rcl/validate_topic_name.c).
use pmros.Base.{ℕ, suc, true, false, none, [], ◌∷◌, ◌≡◌, ◌⊎◌, ◌↔◌, ◌≢◌, inl, inr, refl, ap, arith}
use pmros.Base.Bytes.{Bytes}
use pmros.Topics.{
  Scan, refused, reached, scan, scan_character, is_digit, check_tokens, last, after_scan,
  validate_topic_name, valid,
}
use pmros.Topics.Indices.{InName, validate_topic_name-InName}
use pmros.Topics.Grammar.{
  IsBody, end, scan_sound, scan_complete, scan_next, closed_cases, character, substitution,
}

-- A body, or a tilde before one.
abbrev pub IsPath : Bytes → Type 0
IsPath s = IsBody s ⊎ ((cs : Bytes) × (s ≡ 126 ∷ cs) × IsBody cs)

-- No digit comes after a slash.
abbrev NoNumberToken : Bytes → Type 0
NoNumberToken [] = Unit
NoNumberToken (c ∷ []) = Unit
NoNumberToken (c ∷ d ∷ ds) = (c ≡ 47 → is_digit d ≡ false) × NoNumberToken (d ∷ ds)

-- A slash comes after a tilde that is followed by two characters at least.
abbrev TildeThenSlash : Bytes → Type 0
TildeThenSlash [] = Unit
TildeThenSlash (c ∷ []) = Unit
TildeThenSlash (c ∷ d ∷ []) = Unit
TildeThenSlash (c ∷ d ∷ e ∷ es) = c ≡ 126 → d ≡ 47

scan_iff : (s : Bytes) → ((q : ℕ) × (scan 0 false 0 s ≡ reached false q)) ↔ IsPath s
unfolding scan scan_character
scan_iff s = (to s, from s)
  where
    to : (s : Bytes) → (q : ℕ) × (scan 0 false 0 s ≡ reached false q) → IsPath s
    to [] h = inl end
    to (c ∷ cs) (q, e) =
        let (o', p', h, e') = scan_next 0 0 c false cs q e in
        elim (closed_cases 0 0 c o' p' h) [
          | inl (w, f, g) ↦ inl (character w ((scan_sound cs).0 1 p' q (omega arith) (cc (f, e'))))
          | inr (inl (t, z, f, g)) ↦
              inr
                (cs, ap (λ (x : ℕ). x ∷ cs) t, (scan_sound cs).0 1 p' q (omega arith) (cc (f, e')))
          | inr (inr (b, f, g)) ↦
              let (name, rest, s, words, start, body) =
                (scan_sound cs).1 1 p' q (omega (arith, g)) (cc (f, e')) in
              inl (rw (b, s) (substitution name words (start (omega (arith, g))) body))
        ]

    from : (s : Bytes) → IsPath s → (q : ℕ) × (scan 0 false 0 s ≡ reached false q)
    from s (inl body) = scan_complete s body 0 0
    from s (inr (cs, e, body)) = rw e (scan_complete cs body 1 0)

tokens_cons :
    (first i c d : ℕ) (ds : Bytes)
    → (check_tokens first i (c ∷ d ∷ ds) ≡ (valid, none)) ↔ (
        (c ≡ 47 → is_digit d ≡ false)
        × ((i ≡ 1) → (first ≡ 126) → (c ≡ 47))
        × (check_tokens first (suc i) (d ∷ ds) ≡ (valid, none)))
unfolding check_tokens
tokens_cons first i c d ds = ground arith

later_tokens :
    (first i : ℕ) (s : Bytes)
    → (check_tokens first (suc (suc i)) s ≡ (valid, none)) ↔ NoNumberToken s
unfolding check_tokens
later_tokens first i [] = ((λ e. tt), (λ u. refl))
later_tokens first i (c ∷ []) = ((λ e. tt), (λ u. refl))
later_tokens first i (c ∷ d ∷ ds) =
    ground (arith, tokens_cons first (suc (suc i)) c d ds, later_tokens first (suc i) (d ∷ ds))

tokens_iff :
    (c : ℕ) (cs : Bytes)
    → (check_tokens c 0 (c ∷ cs) ≡ (valid, none))
      ↔ (NoNumberToken (c ∷ cs) × TildeThenSlash (c ∷ cs))
unfolding check_tokens
tokens_iff c [] = ((λ e. (tt, tt)), (λ u. refl))
tokens_iff c (d ∷ []) = ground (arith, tokens_cons c 0 c d [])
tokens_iff c (d ∷ e ∷ es) =
    ground (arith, tokens_cons c 0 c d (e ∷ es), tokens_cons c 1 d e es, later_tokens c 0 (e ∷ es))

abbrev pub IsTopicName : Bytes → Type 0
IsTopicName [] = ⊥
IsTopicName (c ∷ cs) =
    (is_digit c ≡ false)
    × (last c cs ≢ 47)
    × IsPath (c ∷ cs)
    × NoNumberToken (c ∷ cs)
    × TildeThenSlash (c ∷ cs)

after_scan_iff :
    (c : ℕ) (cs : Bytes) (s : Scan)
    → (after_scan c cs s ≡ (valid, none))
      ↔ (((q : ℕ) × (s ≡ reached false q)) × (check_tokens c 0 (c ∷ cs) ≡ (valid, none)))
unfolding after_scan
after_scan_iff c cs (refused r j) = ((λ e. absurd cc), (λ ((q, e), f). absurd cc))
after_scan_iff c cs (reached true p) = ((λ e. absurd cc), (λ ((q, e), f). absurd cc))
after_scan_iff c cs (reached false p) = ((λ e. ((p, refl), e)), (λ (u, f). f))

scanned_iff :
    (c : ℕ) (cs : Bytes)
    → (after_scan c cs (scan 0 false 0 (c ∷ cs)) ≡ (valid, none))
      ↔ (IsPath (c ∷ cs) × NoNumberToken (c ∷ cs) × TildeThenSlash (c ∷ cs))
scanned_iff c cs =
    let (to, from) = after_scan_iff c cs (scan 0 false 0 (c ∷ cs)) in
    let (to_path, from_path) = scan_iff (c ∷ cs) in
    let (to_tokens, from_tokens) = tokens_iff c cs in
    (
      (λ e. let (tokens, tilde) = to_tokens (to e).1 in (to_path (to e).0, tokens, tilde)),
      (λ (path, tokens, tilde). from (from_path path, from_tokens (tokens, tilde))),
    )

accepted : (name : Bytes) → (validate_topic_name name ≡ (valid, none)) ↔ IsTopicName name
unfolding validate_topic_name
accepted [] = ((λ e. absurd cc), (λ (u : ⊥). absurd u))
accepted (c ∷ cs) = ground (arith, scanned_iff c cs)

-- A topic name is accepted exactly if it follows the grammar: it is not empty, and it does not
-- begin with a digit or end with a slash; it is made of letters, digits, underscores, slashes and
-- names in curly braces, perhaps empty, that do not begin with a digit, with perhaps a tilde before
-- them; no digit comes after a slash; and after the tilde comes a slash, unless the name has only
-- one more character, which can then be any letter, digit or underscore. A name that is refused
-- gets the index of one of its characters, or 0 where it has none.
pub validate_topic_name_lem :
    (name : Bytes)
    → ((validate_topic_name name ≡ (valid, none)) ↔ IsTopicName name)
      × InName name (validate_topic_name name)
validate_topic_name_lem name = (accepted name, validate_topic_name-InName name)
