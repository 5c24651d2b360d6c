-- ===== src/Topics/Expand/Tests.antt =====
-- The theorems on the expansion of topic names at concrete names.
use pmros.Base.{
  ℕ, zero, suc, ◌-◌, true, if◌then◌else◌, Option, none, some, [], ◌∷◌, ◌++◌, length, ◌≡◌, ◌≢◌, refl,
  ap, ◌∙◌, arith,
}
use pmros.Base.Bytes.{Bytes, codes, eq_bytes}
use pmros.Topics.{check_tokens, scan, scan_character, after_scan, validate_topic_name}
use pmros.Topics.Expand.{
  is_prefix, ReplStr, Environment, replacement, expand_loop, ret_ok, topic_name_invalid,
  unknown_substitution, expand_topic_name,
}

-- A replacement from the left, with the number of characters still to leave out.
abbrev replace_from : Bytes → Bytes → ℕ → Bytes → Bytes
replace_from key r n [] = []
replace_from key r (suc n) (c ∷ s) = replace_from key r n s
replace_from key r zero (c ∷ s) =
    let here = replace_from key r (length key - 1) s in
    let next = replace_from key r 0 s in if is_prefix key (c ∷ s) then r ++ here else c ∷ next

is_prefix-append : (k s : Bytes) → is_prefix k (k ++ s) ≡ true
is_prefix-append [] s = refl
is_prefix-append (c ∷ k) s = ground (arith, is_prefix-append k s)

left_out : (key r k s : Bytes) → replace_from key r (length k) (k ++ s) ≡ replace_from key r 0 s
left_out key r [] s = refl
left_out key r (c ∷ k) s = left_out key r k s

replace_here :
    (key r s : Bytes) → key ≢ [] → replace_from key r 0 (key ++ s) ≡ r ++ replace_from key r 0 s
replace_here [] r s h = absurd (h refl)
replace_here (c ∷ k) r s h =
    let key = c ∷ k in
    let e : length key - 1 ≡ length k = omega arith in
    rw (is_prefix-append key s) (
      ap (λ (n : ℕ). r ++ replace_from key r n (k ++ s)) e
      ∙ ap (λ (xs : Bytes). r ++ xs) (left_out key r k s))

abbrev repl : ReplStr
repl = record {
  repl_str = λ s key r. replace_from key r 0 s;
  repl_end = λ key r. refl;
  repl_here = λ key r s h. replace_here key r s h;
  repl_skip = λ key r c s h. rw h refl;
}

abbrev only_ping : Bytes → Option Bytes
only_ping n = if eq_bytes n (codes "ping") then some (codes "pong") else none

abbrev env : Environment
env = record {
  node_name = codes "my_node";
  node_namespace = codes "/my_ns";
  substitutions = only_ping;
  node_name_valid = λ n. true;
  namespace_valid = λ n. true;
}

expansions :
    (expand_topic_name repl env (codes "{node}/chatter")
      ≡ (ret_ok, some (codes "/my_ns/my_node/chatter")))
    × (expand_topic_name repl env (codes "~/{ping}") ≡ (ret_ok, some (codes "/my_ns/my_node/pong")))
    × (expand_topic_name repl env (codes "{ns}/a") ≡ (ret_ok, some (codes "/my_ns/a")))
    × (expand_topic_name repl env (codes "/a/{b}") ≡ (unknown_substitution, none))
    × (expand_topic_name repl env (codes "a b") ≡ (topic_name_invalid, none))
unfolding expand_topic_name expand_loop replacement validate_topic_name after_scan scan
    scan_character check_tokens
expansions = (refl, refl, refl, refl, refl)
