-- ===== src/Topics/Expand/Endless.antt =====
-- A substitution that stands for itself, in the loop of rcl_expand_topic_name
-- (rcl/rcl/src/rcl/expand_topic_name.c).
use pmros.Base.{ℕ, zero, suc, ◌+◌, ◌^◌, ◌<◌, some, [], ◌∷◌, length, ◌≡◌, refl, ◌∙◌, ap, append-nil}
use pmros.Base.Bytes.{Bytes, eq_bytes_iff}
use pmros.Topics.Expand.{ReplStr, Environment, out_of_fuel, expand_loop}
use pmros.Topics.Expand.Segments.{NoBraces, named, flatten, value, brace}
use pmros.Topics.Expand.Replaced.{replace_segments, flatten-plains}
use pmros.Topics.Expand.Expanded.{named_at_start, expand_loop_step}

replace_itself :
    (m : Bytes) → flatten (replace_segments m (brace m) (named m ∷ [])) ≡ flatten (named m ∷ [])
replace_itself m =
    rw ((eq_bytes_iff m m).1 refl) (flatten-plains (brace m) [] ∙ append-nil (brace m))

module _ (repl : ReplStr) (env : Environment) where
  same_round :
      (m : Bytes) (fuel : ℕ)
      → NoBraces m
      → length m + 2 < 2 ^ 64
      → value env m ≡ some (brace m)
      → expand_loop repl env (suc fuel) (brace m) ≡ expand_loop repl env fuel (brace m)
  same_round m fuel b l v =
      let (f, e) = named_at_start m [] b l in
      (expand_loop_step repl env fuel (named m ∷ []) (b, l, tt) f).1 (brace m) (rw e v)
      ∙ rw e (ap (λ (s : Bytes). expand_loop repl env fuel s) (replace_itself m))

  -- A substitution whose value is itself in braces keeps the loop going for ever.
  expand_loop_never_ends :
      (m : Bytes) (fuel : ℕ)
      → NoBraces m
      → length m + 2 < 2 ^ 64
      → value env m ≡ some (brace m)
      → expand_loop repl env fuel (brace m) ≡ out_of_fuel
  unfolding expand_loop
  expand_loop_never_ends m zero b l v = refl
  expand_loop_never_ends m (suc fuel) b l v =
      same_round m fuel b l v ∙ expand_loop_never_ends m fuel b l v
