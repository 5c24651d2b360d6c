-- ===== src/Topics/Expand/Whole.antt =====
-- What rcl_expand_topic_name promises (rcl/rcl/src/rcl/expand_topic_name.c), with the validation of
-- topic names before it.
use pmros.Base.{false, none, List, ◌≡◌, ◌⊎◌}
use pmros.Base.Bytes.{Bytes}
use pmros.Topics.Accepted.{IsTopicName}
use pmros.Topics.Expand.{
  ReplStr, Environment, topic_name_invalid, node_invalid_name, node_invalid_namespace,
  without_tilde, expand_topic_name,
}
use pmros.Topics.Expand.Segments.{Segment, flatten, WellFormed}
use pmros.Topics.Expand.Replaced.{expand}
use pmros.Topics.Expand.Names.{expansion}

-- The outcomes of an expansion.
abbrev pub IsExpanded : ReplStr → Environment → Bytes → Type 0
IsExpanded repl env input =
    let result = expand_topic_name repl env input in
    ((IsTopicName input → ⊥) × (result ≡ (topic_name_invalid, none)))
    ⊎ (IsTopicName input
        × (env.node_name_valid env.node_name ≡ false)
        × (result ≡ (node_invalid_name, none)))
    ⊎ (IsTopicName input
        × (env.namespace_valid env.node_namespace ≡ false)
        × (result ≡ (node_invalid_namespace, none)))
    ⊎ (IsTopicName input
        × ((segs : List Segment) × (flatten segs ≡ without_tilde repl env input)
            × WellFormed segs
            × (result ≡ expansion env repl (expand env segs))))
