-- ===== src/IntraProcess/Store.antt =====
-- Storing a message: it is then held for the subscriptions of the publisher's topic.
use pmros.Base.{
  ℕ, ◌+◌, ◌%◌, ◌^◌, ◌<◌, ◌≤◌, Bool, true, false, if◌then◌else◌, Option, none, some, [], ◌∷◌, arith,
  ◌≡◌, refl,
}
use pmros.Base.Maps.{find, insert, nat_key, find-insert}
use pmros.Base.Bytes.{bytes_key}
use pmros.Base.Results.{Result, ok}
use pmros.MappedRingBuffer.{
  Ptr, MappedRingBuffer, get_iterator_of_key, push_and_replace_unique, push_and_replace_shared,
}
use pmros.MappedRingBuffer.Invariant.{IsValid, Keeps, stored, absent, unique, shared, find_cases}
use pmros.MappedRingBuffer.Access.{pushed, push_lem}
use pmros.IntraProcess.{IdSet, has_id, copy_into, ids_of, Publisher, PublisherInfo, Manager}
use pmros.IntraProcess.Publish.{too_long}
use pmros.IntraProcess.Take.{Holds}

pub has_id-copy_into :
    (j : ℕ) (s t : IdSet) → has_id j (copy_into s t) ≡ (if has_id j s then true else has_id j t)
has_id-copy_into j [] t = refl
has_id-copy_into j ((id, u) ∷ s) t =
    ground (arith, has_id-copy_into j s (insert id u t), find-insert id j u t)

module _ {ℓ} {A : Type ℓ} where
  -- In a valid buffer what is not stored is not found.
  pub find_of_stored :
      (k : ℕ) (b : MappedRingBuffer A)
      → IsValid b
      → stored k b ≡ none
      → get_iterator_of_key k b.elements ≡ none
  find_of_stored k b v h = elim (find_cases k b v) [
    | absent e ↦ e
    | unique i e p at hk hu p1 p2 ↦ absurd (ground arith)
    | shared i e p at hk hu p1 p2 ↦ absurd (ground arith)
  ]

module _ {ℓ} {A : Type ℓ} (max_name : ℕ) (lock : ℕ → Option Publisher) where
  -- The publisher lives, has a name that fits and a valid buffer, and its next sequence number and
  -- those after it are not in use.
  pub record Ready (m : Manager A) (id : ℕ) : Type ℓ where
    pub info : PublisherInfo A
    pub buffer : MappedRingBuffer A
    pub publisher : Publisher
    pub entry : find id m.publishers ≡ some info
    pub has_buffer : info.buffer ≡ some buffer
    pub valid : IsValid buffer
    pub lives : lock info.publisher ≡ some publisher
    pub name_fits : too_long max_name publisher.topic_name ≡ false
    pub unused : (k : ℕ) → info.sequence_number ≤ k → stored k buffer ≡ none

  module _ (m : Manager A) (id : ℕ) (p : Ptr A) (r : Ready m id)
      (room : r.info.sequence_number + 1 < 2 ^ 64) where
    abbrev seq : ℕ
    seq = r.info.sequence_number

    -- The subscriptions of the topic.
    abbrev pub destined : IdSet
    destined = ids_of r.publisher.topic_name m.subscription_ids_by_topic

    -- The call returned the sequence number. The message is held for those subscriptions, the next
    -- one can be stored, and the subscriptions of no topic have changed.
    pub record Stored (call : Result ℕ × Manager A) : Type ℓ where
      pub manager : Manager A
      pub targets : IdSet
      pub returned : call ≡ (ok seq, manager)
      pub held : Holds manager id seq p.value targets
      pub everyone : (j : ℕ) → has_id j targets ≡ has_id j destined
      pub ready : Ready manager id
      pub next : ready.info.sequence_number ≡ seq + 1

    module _ (push : ℕ → MappedRingBuffer A → Bool × MappedRingBuffer A)
        (pushes : Keeps r.buffer (push seq r.buffer).1 (pushed seq p.value r.buffer)) where
      abbrev pushed_info : PublisherInfo A
      pushed_info = record r.info {
        sequence_number = (seq + 1) % 2 ^ 64;
        buffer = some (push seq r.buffer).1;
      }

      abbrev stored_info : PublisherInfo A
      stored_info = record pushed_info {
        target_subscriptions_by_message_sequence =
            insert seq (copy_into destined []) r.info.target_subscriptions_by_message_sequence;
      }

      abbrev after : Manager A
      after = record m {
        subscription_ids_by_topic =
            insert r.publisher.topic_name destined m.subscription_ids_by_topic;
        publishers = insert id stored_info (insert id pushed_info m.publishers);
      }

    abbrev both_keep :
        Keeps r.buffer
          (push_and_replace_shared seq (some p) r.buffer).1
          (pushed seq p.value r.buffer)
        × Keeps r.buffer
            (push_and_replace_unique seq (some p) r.buffer).1
            (pushed seq p.value r.buffer)
    both_keep =
        push_lem seq p r.buffer r.valid
          (find_of_stored seq r.buffer r.valid (r.unused seq (omega arith)))
