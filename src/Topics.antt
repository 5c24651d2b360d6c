-- ===== src/Topics.antt =====
-- Validation of topic names (rcl/rcl/src/rcl/validate_topic_name.c). A name is the list of its bytes,
-- and the index of the character that is refused is given where the code stores one.
pub mod Grammar
pub mod Accepted
pub mod Indices
pub mod Expand
mod Tests
use pmros.Base.{
  ℕ, zero, suc, ◌+◌, ◌-◌, Bool, true, false, ◌&&◌, ◌||◌, not, ◌==◌, ltb, leb, if◌then◌else◌, Option,
  none, some, List, [], ◌∷◌,
}
use pmros.Base.Bytes.{Bytes, codes}

-- RCL_TOPIC_NAME_VALID and RCL_TOPIC_NAME_INVALID_...
pub data ValidationResult : Type 0 where
  valid is_empty_string ends_with_forward_slash contains_unallowed_characters : ValidationResult
  name_token_starts_with_number unmatched_curly_brace misplaced_tilde : ValidationResult
  tilde_not_followed_by_forward_slash : ValidationResult
  substitution_contains_unallowed_characters substitution_starts_with_number : ValidationResult

-- The result, and invalid_index where it is set.
abbrev pub Validation : Type 0
Validation = ValidationResult × Option ℕ

abbrev pub is_digit : ℕ → Bool
is_digit c = leb 48 c && leb c 57

abbrev pub is_alnum : ℕ → Bool
is_alnum c = is_digit c || (leb 65 c && leb c 90) || (leb 97 c && leb c 122)

-- A character refused, or the state of the curly braces: open or not, and where the last was opened.
pub data Scan : Type 0 where
  refused : ValidationResult → ℕ → Scan
  reached : Bool → ℕ → Scan

unfoldable pub scan_character : ℕ → Bool → ℕ → ℕ → Scan
scan_character i in_open opening c =
    if is_alnum c
    then if is_digit c && in_open && ltb 0 i && (i - 1 == opening)
      then refused substitution_starts_with_number i
      else reached in_open opening
    else if c == 95
    then reached in_open opening
    else if c == 47
    then if in_open
      then refused substitution_contains_unallowed_characters i
      else reached in_open opening
    else if c == 126
    then if i == 0 then reached in_open opening else refused misplaced_tilde i
    else if c == 123
    then if in_open then refused substitution_contains_unallowed_characters i else reached true i
    else if c == 125
    then if in_open then reached false opening else refused unmatched_curly_brace i
    else if in_open
    then refused substitution_contains_unallowed_characters i
    else refused contains_unallowed_characters i

unfoldable pub scan : ℕ → Bool → ℕ → Bytes → Scan
scan i in_open opening [] = reached in_open opening
scan i in_open opening (c ∷ cs) = elim (scan_character i in_open opening c) [
  | refused r j ↦ refused r j
  | reached in_open' opening' ↦ scan (suc i) in_open' opening' cs
]

-- The second loop. `first` is the first character; the last one is not looked at.
unfoldable pub check_tokens : ℕ → ℕ → Bytes → Validation
check_tokens first i [] = (valid, none)
check_tokens first i (c ∷ []) = (valid, none)
check_tokens first i (c ∷ d ∷ ds) =
    let rest = check_tokens first (suc i) (d ∷ ds) in
    if c == 47
    then if is_digit d then (name_token_starts_with_number, some (i + 1)) else rest
    else if i == 1 && first == 126
    then (tilde_not_followed_by_forward_slash, some 1)
    else rest

abbrev pub last : ℕ → Bytes → ℕ
last c [] = c
last c (d ∷ ds) = last d ds

abbrev pub last_index : Bytes → ℕ
last_index [] = 0
last_index (d ∷ ds) = last_index ds + 1

-- What follows the first loop.
unfoldable pub after_scan : ℕ → Bytes → Scan → Validation
after_scan c cs (refused r j) = (r, some j)
after_scan c cs (reached true opening) = (unmatched_curly_brace, some opening)
after_scan c cs (reached false opening) = check_tokens c 0 (c ∷ cs)

-- rcl_validate_topic_name_with_size
unfoldable pub validate_topic_name : Bytes → Validation
validate_topic_name [] = (is_empty_string, some 0)
validate_topic_name (c ∷ cs) =
    if is_digit c
    then (name_token_starts_with_number, some 0)
    else if last c cs == 47
    then (ends_with_forward_slash, some (last_index cs))
    else after_scan c cs (scan 0 false 0 (c ∷ cs))

-- rcl_topic_name_validation_result_string
unfoldable pub validation_result_string : ValidationResult → Option Bytes
validation_result_string valid = none
validation_result_string is_empty_string = some (codes "topic name must not be empty string")
validation_result_string ends_with_forward_slash =
    some (codes "topic name must not end with a forward slash")
validation_result_string contains_unallowed_characters =
    some (
      codes
        "topic name must not contain characters other than alphanumerics, '_', '~', '{', or '}'")
validation_result_string name_token_starts_with_number =
    some (codes "topic name token must not start with a number")
validation_result_string unmatched_curly_brace =
    some (codes "topic name must not have unmatched (unbalanced) curly braces '{}'")
validation_result_string misplaced_tilde =
    some (codes "topic name must not have tilde '~' unless it is the first character")
validation_result_string tilde_not_followed_by_forward_slash =
    some (codes "topic name must not have a tilde '~' that is not followed by a forward slash '/'")
validation_result_string substitution_contains_unallowed_characters =
    some (codes "substitution name must not contain characters other than alphanumerics or '_'")
validation_result_string substitution_starts_with_number =
    some (codes "substitution name must not start with a number")

-- The test for RCL_TOPIC_NAME_VALID.
abbrev pub is_valid : Validation → Bool
is_valid (valid, i) = true
is_valid (is_empty_string, i) = false
is_valid (ends_with_forward_slash, i) = false
is_valid (contains_unallowed_characters, i) = false
is_valid (name_token_starts_with_number, i) = false
is_valid (unmatched_curly_brace, i) = false
is_valid (misplaced_tilde, i) = false
is_valid (tilde_not_followed_by_forward_slash, i) = false
is_valid (substitution_contains_unallowed_characters, i) = false
is_valid (substitution_starts_with_number, i) = false
