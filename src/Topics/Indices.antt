-- ===== src/Topics/Indices.antt =====
-- The index that the validation of a topic name (rcl/rcl/src/rcl/validate_topic_name.c) gives.
use pmros.Base.{
  ℕ, suc, ◌+◌, ◌<◌, Bool, true, false, none, some, [], ◌∷◌, length, ◌≡◌, ◌≢◌, ◌⊎◌, inl, inr, refl,
  arith,
}
use pmros.Base.Bytes.{Bytes}
use pmros.Topics.{
  Scan, refused, reached, scan, scan_character, check_tokens, after_scan, last_index,
  validate_topic_name, Validation, valid,
}

-- A refusal gives the index of a character of the name, or 0 where there is none.
abbrev pub InName : Bytes → Validation → Type 0
InName name (r, none) = r ≡ valid
InName name (r, some j) = (r ≢ valid) × ((j ≡ 0) ⊎ (j < length name))

abbrev InScan : ℕ → Scan → Type 0
InScan n (refused r j) = (r ≢ valid) × (j < n)
InScan n (reached true p) = p < n
InScan n (reached false p) = Unit

character_bound :
    (i c p : ℕ) (o : Bool) → (o ≡ true → p < i) → InScan (suc i) (scan_character i o p c)
unfolding scan_character
character_bound i c p o h = ground arith

scan_bound :
    (s : Bytes) (i p n : ℕ) (o : Bool)
    → (o ≡ true → p < i)
    → i + length s ≡ n
    → InScan n (scan i o p s)
unfolding scan
scan_bound [] i p n true h l = omega (arith, h refl, l)
scan_bound [] i p n false h l = tt
scan_bound (c ∷ cs) i p n o h l =
    go (scan_bound cs (suc i)) (scan_character i o p c) (character_bound i c p o h)
  where
    go :
        ((p n : ℕ) (o : Bool)
          → (o ≡ true → p < suc i)
          → suc i + length cs ≡ n
          → InScan n (scan (suc i) o p cs))
        → (s : Scan) → InScan (suc i) s
        → InScan n (elim s [ refused r j ↦ refused r j | reached o' p' ↦ scan (suc i) o' p' cs ])
    go rest (refused r j) (w, b) = (w, omega (arith, b, l))
    go rest (reached true p') b = rest p' n true (λ e. b) (omega (arith, l))
    go rest (reached false p') b = rest p' n false (λ e. absurd cc) (omega (arith, l))

last_index_lem : (cs : Bytes) → last_index cs ≡ length cs
last_index_lem [] = refl
last_index_lem (c ∷ cs) = omega (arith, last_index_lem cs)

abbrev InTokens : ℕ → Validation → Type 0
InTokens n (r, none) = r ≡ valid
InTokens n (r, some j) = (r ≢ valid) × (j < n)

tokens_bound : (s : Bytes) (first i n : ℕ) → i + length s ≡ n → InTokens n (check_tokens first i s)
unfolding check_tokens
tokens_bound [] first i n l = refl
tokens_bound (c ∷ []) first i n l = refl
tokens_bound (c ∷ d ∷ ds) first i n l =
    let rest = tokens_bound (d ∷ ds) first (suc i) n (omega (arith, l)) in ground arith

after_scan_bound :
    (c : ℕ) (cs : Bytes) (s : Scan)
    → InScan (length (c ∷ cs)) s
    → InTokens (length (c ∷ cs)) (check_tokens c 0 (c ∷ cs))
    → InTokens (length (c ∷ cs)) (after_scan c cs s)
unfolding after_scan
after_scan_bound c cs (refused r j) b t = b
after_scan_bound c cs (reached true p) b t = ((λ e. absurd cc), b)
after_scan_bound c cs (reached false p) b t = t

in_name : (name : Bytes) (v : Validation) → InTokens (length name) v → InName name v
in_name name (r, none) b = b
in_name name (r, some j) (w, b) = (w, inr b)

pub validate_topic_name-InName : (name : Bytes) → InName name (validate_topic_name name)
unfolding validate_topic_name
validate_topic_name-InName [] = ((λ e. absurd cc), inl refl)
validate_topic_name-InName (c ∷ cs) =
    let scanned = in_name (c ∷ cs) (after_scan c cs (scan 0 false 0 (c ∷ cs))) (
      after_scan_bound c cs (scan 0 false 0 (c ∷ cs))
        (scan_bound (c ∷ cs) 0 0 (length (c ∷ cs)) false (λ e. absurd cc) (omega arith))
        (tokens_bound (c ∷ cs) c 0 (length (c ∷ cs)) (omega arith))) in
    ground (arith, last_index_lem cs)
