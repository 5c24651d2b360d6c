-- ===== src/IntraProcess.antt =====
-- rclcpp::intra_process_manager (rclcpp/rclcpp/include/rclcpp/intra_process_manager.hpp and
-- intra_process_manager_impl.hpp, rclcpp/rclcpp/src/rclcpp/intra_process_manager.cpp).
-- A weak pointer is a number, and `lock` says what it points at, if that still lives. The ring
-- buffer of a publisher is reached through the manager alone, so it stands in the publisher's entry.
pub mod Publish
pub mod Take
pub mod Once
pub mod Store
pub mod Delivery
pub mod Removal
mod Tests
use pmros.Base.{
  ℕ, suc, ◌+◌, ◌%◌, ◌^◌, Bool, true, false, ◌==◌, ltb, if◌then◌else◌, Option, none, some, List, [],
  ◌∷◌, length, is_some,
}
use pmros.Base.Maps.{find, insert, erase, nat_key}
use pmros.Base.Bytes.{Bytes, bytes_key}
use pmros.Base.Results.{Result, ok, err, overflow_error, runtime_error}
use pmros.MappedRingBuffer.{
  Ptr, MappedRingBuffer, Outcome, get_unique, get_shared, pop_unique, pop_shared,
  push_and_replace_unique, push_and_replace_shared,
}

-- std::set<uint64_t>
abbrev pub IdSet : Type 0
IdSet = List (ℕ × Unit {0})

abbrev pub has_id : ℕ → IdSet → Bool
has_id id s = is_some (find id s)

-- std::copy of one set into another by std::inserter
abbrev pub copy_into : IdSet → IdSet → IdSet
copy_into [] s = s
copy_into ((id, u) ∷ ids) s = copy_into ids (insert id u s)

-- The set under a topic; `operator[]` makes an empty one.
abbrev pub ids_of : Bytes → List (Bytes × IdSet) → IdSet
ids_of topic ids = elim (find topic ids) [ none ↦ [] | some s ↦ s ]

abbrev pub erase_from_all {κ} : {K : Type κ} → ℕ → List (K × IdSet) → List (K × IdSet)
erase_from_all id [] = []
erase_from_all id ((k, s) ∷ m) = (k, erase id s) ∷ erase_from_all id m

-- What the manager asks of a PublisherBase and of a SubscriptionBase.
pub record Publisher : Type 0 where
  pub topic_name : Bytes
  pub gids : List ℕ

pub record Subscription : Type 0 where
  pub handle : ℕ
  pub topic_name : Bytes

pub record PublisherInfo {ℓ} (A : Type ℓ) : Type ℓ where
  pub publisher : ℕ
  pub sequence_number : ℕ
  pub buffer : Option (MappedRingBuffer A)
  pub target_subscriptions_by_message_sequence : List (ℕ × IdSet)

pub record Manager {ℓ} (A : Type ℓ) : Type ℓ where
  pub next_unique_id : ℕ
  pub subscriptions : List (ℕ × ℕ)
  pub subscription_ids_by_topic : List (Bytes × IdSet)
  pub publishers : List (ℕ × PublisherInfo A)

module _ {ℓ} {A : Type ℓ} where
  -- `fetch_add` on a uint64_t; a roll-over is an exception.
  unfoldable pub get_next_unique_id : Manager A → Result ℕ × Manager A
  get_next_unique_id m =
      let next_id = m.next_unique_id in
      let m' : Manager A = record m { next_unique_id = (next_id + 1) % 2 ^ 64 } in
      if next_id == 0 then (err overflow_error, m') else (ok next_id, m')

  abbrev pub update_publisher : ℕ → PublisherInfo A → Manager A → Manager A
  update_publisher id info m = record m { publishers = insert id info m.publishers }

  abbrev pub erase_from_targets : ℕ → List (ℕ × PublisherInfo A) → List (ℕ × PublisherInfo A)
  erase_from_targets id [] = []
  erase_from_targets id ((k, info) ∷ ps) =
      (
        k,
        record info {
          target_subscriptions_by_message_sequence =
              erase_from_all id info.target_subscriptions_by_message_sequence;
        },
      )
      ∷ erase_from_targets id ps

  unfoldable pub remove_subscription : ℕ → Manager A → Manager A
  remove_subscription id m = record m {
    subscriptions = erase id m.subscriptions;
    subscription_ids_by_topic = erase_from_all id m.subscription_ids_by_topic;
    publishers = erase_from_targets id m.publishers;
  }

  unfoldable pub remove_publisher : ℕ → Manager A → Manager A
  remove_publisher id m = record m { publishers = erase id m.publishers }

  -- IntraProcessManager::add_publisher. `make` is the publisher's make_mapped_ring_buffer. A size_t is
  -- never above the largest uint64_t, so add_publisher of the implementation does not throw.
  abbrev new_publisher :
      ℕ → (ℕ → Option (MappedRingBuffer A)) → ℕ → ℕ → Manager A → Result ℕ × Manager A
  new_publisher publisher make size id m =
      let info : PublisherInfo A = record {
        publisher = publisher;
        sequence_number = 0;
        buffer = make size;
        target_subscriptions_by_message_sequence = [];
      } in
      (if is_some (make size) then ok id else err runtime_error, update_publisher id info m)

  unfoldable pub add_publisher :
      ℕ → ℕ → (ℕ → Option (MappedRingBuffer A)) → ℕ → Manager A → Result ℕ × Manager A
  unfolding get_next_unique_id
  add_publisher publisher queue_size make buffer_size m = elim (get_next_unique_id m).0 [
    | err e ↦ (err e, (get_next_unique_id m).1)
    | ok id ↦
        new_publisher publisher make (if ltb 0 buffer_size then buffer_size else queue_size) id
          (get_next_unique_id m).1
  ]

  -- The implementation's take_intra_process_message: the number of subscriptions that are left, and
  -- the publisher's entry without the one that asks; `none` where it returns a null buffer.
  abbrev remaining : PublisherInfo A → ℕ → ℕ → Option (ℕ × PublisherInfo A)
  remaining info seq sub = elim (find seq info.target_subscriptions_by_message_sequence) [
    | none ↦ none
    | some target_subs ↦
        if has_id sub target_subs
        then some (
          length (erase sub target_subs),
          record info {
            target_subscriptions_by_message_sequence =
                insert seq (erase sub target_subs) info.target_subscriptions_by_message_sequence;
          },
        )
        else none
  ]

  unfoldable pub take_from_publisher : Manager A → ℕ → ℕ → ℕ → Option (ℕ × PublisherInfo A)
  take_from_publisher m id seq sub = elim (find id m.publishers) [
    | none ↦ none
    | some info ↦ remaining info seq sub
  ]

  -- After a call on the buffer `b` of `info`, which stands under `id`.
  abbrev after_buffer :
      Manager A → ℕ → PublisherInfo A → Outcome A → Result (Option (Ptr A)) × Manager A
  after_buffer m id info (ok (v, b)) =
      (ok v, update_publisher id (record info { buffer = some b }) m)
  after_buffer m id info (err e) = (err e, update_publisher id info m)

  -- `get` while subscriptions are left, and `pop` for the last one.
  abbrev deliver :
      (MappedRingBuffer A → Outcome A)
      → (MappedRingBuffer A → Outcome A)
      → Manager A
      → ℕ
      → ℕ
      → PublisherInfo A
      → Option (MappedRingBuffer A)
      → Result (Option (Ptr A)) × Manager A
  deliver get pop m id size info none = (ok none, update_publisher id info m)
  deliver get pop m id size info (some b) =
      after_buffer m id info (if size == 0 then pop b else get b)

  -- take_intra_process_message into a unique_ptr
  unfoldable pub take_unique : ℕ → ℕ → ℕ → Manager A → Result (Option (Ptr A)) × Manager A
  take_unique id seq sub m = elim (take_from_publisher m id seq sub) [
    | none ↦ (ok none, m)
    | some (size, info) ↦ deliver (get_unique seq) (pop_unique seq) m id size info info.buffer
  ]

  -- take_intra_process_message into a shared_ptr
  unfoldable pub take_shared : ℕ → ℕ → ℕ → Manager A → Result (Option (Ptr A)) × Manager A
  take_shared id seq sub m = elim (take_from_publisher m id seq sub) [
    | none ↦ (ok none, m)
    | some (size, info) ↦ deliver (get_shared seq) (pop_shared seq none) m id size info info.buffer
  ]
