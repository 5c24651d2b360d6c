-- ===== src/Topics/Grammar.antt =====
-- The names that rcl/rcl/src/rcl/validate_topic_name.c accepts.
use pmros.Base.{
  ℕ, suc, ◌<◌, Bool, true, false, ◌||◌, ◌==◌, [], ◌∷◌, ◌++◌, All, ◌≡◌, ◌⊎◌, inl, inr, refl, ap, ◌∙◌,
  arith,
}
use pmros.Base.Bytes.{Bytes}
use pmros.Topics.{Scan, refused, reached, scan, scan_character, is_digit, is_alnum}

abbrev pub is_word : ℕ → Bool
is_word c = is_alnum c || c == 95

-- The name of a substitution: words, and no digit first.
abbrev pub starts_with_number : Bytes → Bool
starts_with_number [] = false
starts_with_number (c ∷ cs) = is_digit c

-- Letters, digits, underscores and slashes, and names in curly braces, which may be empty.
pub data IsBody : Bytes → Type 0 where
  end : IsBody []
  character : {c : ℕ} {cs : Bytes} → (is_word c || c == 47) ≡ true → IsBody cs → IsBody (c ∷ cs)
  substitution :
      (name : Bytes) {cs : Bytes}
      → All (λ (c : ℕ). is_word c ≡ true) name
      → starts_with_number name ≡ false
      → IsBody cs
      → IsBody (123 ∷ (name ++ (125 ∷ cs)))

pub closed_cases :
    (i p c : ℕ) (o : Bool) (q : ℕ)
    → scan_character i false p c ≡ reached o q
    → (((is_word c || c == 47) ≡ true) × (o ≡ false) × (q ≡ p))
      ⊎ ((c ≡ 126) × (i ≡ 0) × (o ≡ false) × (q ≡ p))
      ⊎ ((c ≡ 123) × (o ≡ true) × (q ≡ i))
unfolding scan_character
closed_cases i p c o q e = ground arith

open_cases :
    (i p c : ℕ) (o : Bool) (q : ℕ)
    → p < i
    → scan_character i true p c ≡ reached o q
    → ((is_word c ≡ true) × (i ≡ suc p → is_digit c ≡ false) × (o ≡ true) × (q ≡ p))
      ⊎ ((c ≡ 125) × (o ≡ false) × (q ≡ p))
unfolding scan_character
open_cases i p c o q l e = ground arith

closed_character :
    (i p c : ℕ) → (is_word c || c == 47) ≡ true → scan_character i false p c ≡ reached false p
unfolding scan_character
closed_character i p c h = ground arith

open_character :
    (i p c : ℕ)
    → is_word c ≡ true
    → p < i
    → (i ≡ suc p → is_digit c ≡ false)
    → scan_character i true p c ≡ reached true p
unfolding scan_character
open_character i p c h l d = ground arith

-- A step of the loop that is not refused.
pub scan_next :
    (i p c : ℕ) (o : Bool) (cs : Bytes) (q : ℕ)
    → scan i o p (c ∷ cs) ≡ reached false q
    → (o' : Bool) × (p' : ℕ) × (scan_character i o p c ≡ reached o' p')
      × (scan (suc i) o' p' cs ≡ reached false q)
unfolding scan
scan_next i p c o cs q e = next (scan_character i o p c) refl e
  where
    next :
        (s : Scan)
        → scan_character i o p c ≡ s
        → (elim s [ refused r j ↦ refused r j | reached o' p' ↦ scan (suc i) o' p' cs ])
          ≡ reached false q
        → (o' : Bool) × (p' : ℕ) × (scan_character i o p c ≡ reached o' p')
          × (scan (suc i) o' p' cs ≡ reached false q)
    next (refused r j) h e = absurd cc
    next (reached o' p') h e = (o', p', h, e)

scan_step :
    (i p c : ℕ) (o o' : Bool) (p' : ℕ) (cs : Bytes)
    → scan_character i o p c ≡ reached o' p'
    → scan i o p (c ∷ cs) ≡ scan (suc i) o' p' cs
unfolding scan
scan_step i p c o o' p' cs h = rw (h, scan) refl

-- What is left of a name from inside curly braces on.
abbrev IsOpen : ℕ → ℕ → Bytes → Type 0
IsOpen i p s =
    (name : Bytes) × (rest : Bytes) × (s ≡ name ++ (125 ∷ rest))
    × All (λ (c : ℕ). is_word c ≡ true) name
    × (i ≡ suc p → starts_with_number name ≡ false)
    × IsBody rest

pub scan_sound :
    (s : Bytes)
    → ((i p q : ℕ) → 0 < i → scan i false p s ≡ reached false q → IsBody s)
      × ((i p q : ℕ) → p < i → scan i true p s ≡ reached false q → IsOpen i p s)
unfolding scan
scan_sound [] = ((λ i p q l e. end), (λ i p q l e. absurd cc))
scan_sound (c ∷ cs) =
    let (closed, opened) = scan_sound cs in
    let at_closed : (i p q : ℕ)
        → 0 < i
        → scan i false p (c ∷ cs) ≡ reached false q
        → IsBody (c ∷ cs) =
      λ i p q l e.
        let (o', p', h, e') = scan_next i p c false cs q e in
        elim (closed_cases i p c o' p' h) [
          | inl (w, f, g) ↦ character w (closed (suc i) p' q (omega arith) (cc (f, e')))
          | inr (inl (t, z, f, g)) ↦ absurd (omega (arith, z, l))
          | inr (inr (b, f, g)) ↦
              let (name, rest, s, words, start, body) =
                opened (suc i) p' q (omega (arith, g)) (cc (f, e')) in
              rw (b, s) (substitution name words (start (omega (arith, g))) body)
        ] in
    let at_open : (i p q : ℕ)
        → p < i
        → scan i true p (c ∷ cs) ≡ reached false q
        → IsOpen i p (c ∷ cs) =
      λ i p q l e.
        let (o', p', h, e') = scan_next i p c true cs q e in
        elim (open_cases i p c o' p' l h) [
          | inl (w, d, f, g) ↦
              let (name, rest, s, words, start, body) =
                opened (suc i) p' q (omega (arith, l, g)) (cc (f, e')) in
              (c ∷ name, rest, ap (λ (xs : Bytes). c ∷ xs) s, (w, words), d, body)
          | inr (b, f, g) ↦ (
            [],
            cs,
            ap (λ (x : ℕ). x ∷ cs) b,
            tt,
            (λ z. refl),
            closed (suc i) p' q (omega arith) (cc (f, e')),
          )
        ] in
    (at_closed, at_open)

scan_substitution :
    (name rest : Bytes) (i p : ℕ)
    → p < i
    → All (λ (c : ℕ). is_word c ≡ true) name
    → (i ≡ suc p → starts_with_number name ≡ false)
    → (j : ℕ) × (scan i true p (name ++ (125 ∷ rest)) ≡ scan (suc j) false p rest)
unfolding scan scan_character
scan_substitution [] rest i p l words start = (i, refl)
scan_substitution (c ∷ name) rest i p l (w, words) start =
    let (j, e) =
      scan_substitution name rest (suc i) p (omega (arith, l)) words
        (λ z. absurd (omega (arith, z, l))) in
    (j, scan_step i p c true true p (name ++ (125 ∷ rest)) (open_character i p c w l start) ∙ e)

pub scan_complete :
    (s : Bytes) → IsBody s → (i p : ℕ) → (q : ℕ) × (scan i false p s ≡ reached false q)
unfolding scan scan_character
scan_complete _ end i p = (p, refl)
scan_complete _ (character {c} {cs} w body) i p =
    let (q, e) = scan_complete cs body (suc i) p in
    (q, scan_step i p c false false p cs (closed_character i p c w) ∙ e)
scan_complete _ (substitution name {cs} words start body) i p =
    let (j, e) = scan_substitution name cs (suc i) i (omega arith) words (λ z. start) in
    let (q, e') = scan_complete cs body (suc j) i in (q, e ∙ e')
