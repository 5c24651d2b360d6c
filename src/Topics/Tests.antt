-- ===== src/Topics/Tests.antt =====
-- The theorems on topic names at concrete names.
use pmros.Base.{none, some, ◌≡◌, ◌↔◌, refl}
use pmros.Base.Bytes.{codes}
use pmros.Topics.{
  valid, misplaced_tilde, tilde_not_followed_by_forward_slash, unmatched_curly_brace, check_tokens,
  scan, scan_character, after_scan, validate_topic_name,
}
use pmros.Topics.Indices.{InName}
use pmros.Topics.Accepted.{IsTopicName, validate_topic_name_lem}

outcomes :
    (validate_topic_name (codes "~/foo/{node}/bar_2") ≡ (valid, none))
    × (validate_topic_name (codes "~f") ≡ (valid, none))
    × (validate_topic_name (codes "foo/{}") ≡ (valid, none))
    × (validate_topic_name (codes "~foo") ≡ (tilde_not_followed_by_forward_slash, some 1))
    × (validate_topic_name (codes "foo/{bar") ≡ (unmatched_curly_brace, some 4))
    × (validate_topic_name (codes "/a/~b") ≡ (misplaced_tilde, some 3))
unfolding validate_topic_name after_scan scan scan_character check_tokens
outcomes = (refl, refl, refl, refl, refl, refl)

validate_topic_name_lem_example :
    ((validate_topic_name (codes "~/foo/{node}/bar_2") ≡ (valid, none))
      ↔ IsTopicName (codes "~/foo/{node}/bar_2"))
    × InName (codes "~/foo/{node}/bar_2") (validate_topic_name (codes "~/foo/{node}/bar_2"))
validate_topic_name_lem_example = validate_topic_name_lem (codes "~/foo/{node}/bar_2")
