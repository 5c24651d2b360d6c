-- ===== src/Topics/Expand.antt =====
-- Expansion of topic names (rcl/rcl/src/rcl/expand_topic_name.c). Parameters are what other packages
-- do: the validation of node names and namespaces (rmw), the substitutions (a string map of
-- rcutils), and rcutils_repl_str, which replaces every occurrence of a text. Allocation succeeds.
pub mod Segments
pub mod Replaced
pub mod Expanded
pub mod Names
pub mod Whole
pub mod Endless
mod Tests
use pmros.Base.{
  ℕ, zero, suc, ◌+◌, ◌-◌, ◌%◌, ◌^◌, Bool, true, false, ◌==◌, not, ◌&&◌, is_some, if◌then◌else◌,
  Option, none, some, List, [], ◌∷◌, ◌++◌, length, drop, ◌≡◌, ◌≢◌,
}
use pmros.Base.Bytes.{Bytes, codes, eq_bytes}
use pmros.Topics.{valid, validate_topic_name, is_valid}

abbrev pub take : ℕ → Bytes → Bytes
take zero s = []
take (suc n) [] = []
take (suc n) (c ∷ s) = c ∷ take n s

-- strchr, as an index.
abbrev pub index_of : ℕ → Bytes → Option ℕ
index_of c [] = none
index_of c (d ∷ s) =
    if d == c then some 0 else elim (index_of c s) [ none ↦ none | some i ↦ some (suc i) ]

abbrev pub is_prefix : Bytes → Bytes → Bool
is_prefix [] s = true
is_prefix (c ∷ k) [] = false
is_prefix (c ∷ k) (d ∷ s) = d == c && is_prefix k s

-- strncmp (a, b, n) == 0
abbrev pub same_start : ℕ → Bytes → Bytes → Bool
same_start n a b = eq_bytes (take n a) (take n b)

-- rcutils_repl_str: a copy of the text with every occurrence of `key` replaced, from the left.
pub record ReplStr : Type 0 where
  pub repl_str : Bytes → Bytes → Bytes → Bytes
  pub repl_end : (key r : Bytes) → repl_str [] key r ≡ []
  pub repl_here : (key r s : Bytes) → key ≢ [] → repl_str (key ++ s) key r ≡ r ++ repl_str s key r
  pub repl_skip :
      (key r : Bytes) (c : ℕ) (s : Bytes)
      → is_prefix key (c ∷ s) ≡ false
      → repl_str (c ∷ s) key r ≡ c ∷ repl_str s key r

pub data Loop : Type 0 where
  done : Bytes → Loop
  unknown : Loop
  undefined_behaviour : Loop
  out_of_fuel : Loop

pub data ExpandRet : Type 0 where
  ret_ok topic_name_invalid node_invalid_name node_invalid_namespace : ExpandRet
  unknown_substitution ret_undefined never_returns : ExpandRet

-- What an expansion is given.
pub record Environment : Type 0 where
  pub node_name : Bytes
  pub node_namespace : Bytes
  pub substitutions : Bytes → Option Bytes
  pub node_name_valid : Bytes → Bool
  pub namespace_valid : Bytes → Bool

-- The replacement for what starts with `{`, of which `len` characters are the substitution.
unfoldable pub replacement : Environment → ℕ → Bytes → Option Bytes
replacement env len opening =
    if same_start len (codes "{node}") opening
    then some env.node_name
    else if same_start len (codes "{ns}") opening
    then some env.node_namespace
    else if same_start len (codes "{namespace}") opening
    then some env.node_namespace
    else env.substitutions (take (len - 2) (drop 1 opening))

module _ (repl : ReplStr) (env : Environment) where
  open repl use {repl_str}

  -- The closing brace is looked for from the start of the text, and the difference of the pointers is
  -- a size_t. Without a closing brace the pointer is null.
  unfoldable pub expand_loop : ℕ → Bytes → Loop
  expand_loop zero current = out_of_fuel
  expand_loop (suc fuel) current = elim (index_of 123 current) [
    | none ↦ done current
    | some i ↦ elim (index_of 125 current) [
      | none ↦ undefined_behaviour
      | some j ↦
          let len = (j + 2 ^ 64 + 1 - i) % 2 ^ 64 in
          elim (replacement env len (drop i current)) [
            | none ↦ unknown
            | some r ↦ expand_loop fuel (repl_str current (take len (drop i current)) r)
          ]
    ]
  ]

  -- "%s/%s", and "%s%s" if the namespace is "/".
  abbrev pub in_namespace : Bytes → Bytes
  in_namespace s =
      if length env.node_namespace == 1
      then env.node_namespace ++ s
      else env.node_namespace ++ (47 ∷ s)

  abbrev pub starts_with : ℕ → Bytes → Bool
  starts_with c [] = false
  starts_with c (d ∷ s) = d == c

  abbrev pub absolute : Bytes → Bytes
  absolute s = if starts_with 47 s then s else in_namespace s

  abbrev pub without_tilde : Bytes → Bytes
  without_tilde [] = []
  without_tilde (c ∷ s) = if c == 126 then in_namespace (env.node_name ++ s) else c ∷ s

  abbrev pub finish_expansion : Loop → ExpandRet × Option Bytes
  finish_expansion (done s) = (ret_ok, some (absolute s))
  finish_expansion unknown = (unknown_substitution, none)
  finish_expansion undefined_behaviour = (ret_undefined, none)
  finish_expansion out_of_fuel = (never_returns, none)

  -- The part of rcl_expand_topic_name behind the checks. The loop is given one round more than the name
  -- has characters.
  abbrev pub expand_valid : Bytes → ExpandRet × Option Bytes
  expand_valid input =
      let has_a_substitution = is_some (index_of 123 input) in
      if starts_with 47 input && not has_a_substitution
      then (ret_ok, some input)
      else if has_a_substitution
      then finish_expansion (expand_loop (suc (length input)) (without_tilde input))
      else (ret_ok, some (absolute (without_tilde input)))

  unfoldable pub expand_topic_name : Bytes → ExpandRet × Option Bytes
  expand_topic_name input =
      if not (is_valid (validate_topic_name input))
      then (topic_name_invalid, none)
      else if not (env.node_name_valid env.node_name)
      then (node_invalid_name, none)
      else if not (env.namespace_valid env.node_namespace)
      then (node_invalid_namespace, none)
      else expand_valid input
