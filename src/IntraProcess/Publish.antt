-- ===== src/IntraProcess/Publish.antt =====
-- The calls of the intra process manager that look at publishers and subscriptions: subscribing,
-- storing a message, and the queries.
use pmros.Base.{
  ℕ, ◌+◌, ◌%◌, ◌^◌, Bool, true, false, ltb, if◌then◌else◌, Option, none, some, List, [], ◌∷◌,
  length,
}
use pmros.Base.Maps.{find, insert, nat_key}
use pmros.Base.Bytes.{Bytes, bytes_key}
use pmros.Base.Results.{Result, ok, err, runtime_error}
use pmros.MappedRingBuffer.{Ptr, MappedRingBuffer, push_and_replace_unique, push_and_replace_shared}
use pmros.IntraProcess.{
  copy_into, ids_of, Publisher, Subscription, PublisherInfo, Manager, get_next_unique_id,
  update_publisher,
}

-- fixed_size_string throws for a name longer than RMW_TOPIC_MAX_NAME_LENGTH.
abbrev pub too_long : ℕ → Bytes → Bool
too_long max_name name = ltb max_name (length name)

-- `max_name` is RMW_TOPIC_MAX_NAME_LENGTH, and `lock` is what std::weak_ptr::lock finds.
module _ {ℓ} {A : Type ℓ} (max_name : ℕ) (lock : ℕ → Option Publisher) where
  unfoldable pub add_subscription : Subscription → Manager A → Result ℕ × Manager A
  unfolding get_next_unique_id
  add_subscription s m = elim (get_next_unique_id m).0 [
    | err e ↦ (err e, (get_next_unique_id m).1)
    | ok id ↦
        let m' : Manager A = record m {
          next_unique_id = (get_next_unique_id m).1.next_unique_id;
          subscriptions = insert id s.handle m.subscriptions;
        } in
        if too_long max_name s.topic_name then (err runtime_error, m') else (
          ok id,
          record m' {
            subscription_ids_by_topic =
                insert s.topic_name (insert id tt (ids_of s.topic_name m.subscription_ids_by_topic))
                  m.subscription_ids_by_topic;
          },
        )
  ]

  -- The implementation's store_intra_process_message, at the entry `info` of the publisher.
  abbrev pub set_targets : ℕ → ℕ → PublisherInfo A → Publisher → Manager A → Result ℕ × Manager A
  set_targets id seq info p m =
      let destined = ids_of p.topic_name m.subscription_ids_by_topic in
      if too_long max_name p.topic_name then (err runtime_error, m) else (
        ok seq,
        record m {
          subscription_ids_by_topic = insert p.topic_name destined m.subscription_ids_by_topic;
          publishers =
              insert id
                (record info {
                  target_subscriptions_by_message_sequence =
                      insert seq (copy_into destined [])
                        info.target_subscriptions_by_message_sequence;
                })
                m.publishers;
        },
      )

  abbrev pub store_targets : ℕ → ℕ → PublisherInfo A → Manager A → Result ℕ × Manager A
  store_targets id seq info m = elim (lock info.publisher) [
    | none ↦ (err runtime_error, m)
    | some p ↦ set_targets id seq info p m
  ]

  -- store_intra_process_message: `push` inserts the message under its sequence number.
  abbrev pub store_with :
      (ℕ → MappedRingBuffer A → Bool × MappedRingBuffer A)
      → ℕ
      → Manager A
      → PublisherInfo A
      → Option (MappedRingBuffer A)
      → Result ℕ × Manager A
  store_with push id m info none = (
    err runtime_error,
    update_publisher id (record info { sequence_number = (info.sequence_number + 1) % 2 ^ 64 }) m,
  )
  store_with push id m info (some b) =
      let seq = info.sequence_number in
      let info' : PublisherInfo A = record info {
        sequence_number = (seq + 1) % 2 ^ 64;
        buffer = some (push seq b).1;
      } in
      store_targets id seq info' (update_publisher id info' m)

  unfoldable pub store_shared : ℕ → Option (Ptr A) → Manager A → Result ℕ × Manager A
  store_shared id message m = elim (find id m.publishers) [
    | none ↦ (err runtime_error, m)
    | some info ↦ store_with (λ seq b. push_and_replace_shared seq message b) id m info info.buffer
  ]

  unfoldable pub store_unique : ℕ → Option (Ptr A) → Manager A → Result ℕ × Manager A
  store_unique id message m = elim (find id m.publishers) [
    | none ↦ (err runtime_error, m)
    | some info ↦ store_with (λ seq b. push_and_replace_unique seq message b) id m info info.buffer
  ]

  -- `same` is the comparison of a publisher's gids with the one that is asked for.
  abbrev any_publisher : (Publisher → Bool) → List (ℕ × PublisherInfo A) → Bool
  any_publisher same [] = false
  any_publisher same ((id, info) ∷ ps) = elim (lock info.publisher) [
    | none ↦ any_publisher same ps
    | some p ↦ if same p then true else any_publisher same ps
  ]

  unfoldable pub matches_any_publishers : (Publisher → Bool) → Manager A → Bool
  matches_any_publishers same m = any_publisher same m.publishers

  unfoldable pub get_subscription_count : ℕ → Manager A → Result ℕ
  get_subscription_count id m = elim (find id m.publishers) [
    | none ↦ ok 0
    | some info ↦ elim (lock info.publisher) [
      | none ↦ err runtime_error
      | some p ↦
          if too_long max_name p.topic_name
          then err runtime_error
          else ok (length (ids_of p.topic_name m.subscription_ids_by_topic))
    ]
  ]
