-- ===== src/IntraProcess/Tests.antt =====
-- A publisher on /chat with two subscriptions, and the theorems at it.
use pmros.Base.{All, ℕ, ◌≡◌, ◌==◌, refl, none, some, List, [], ◌∷◌, arith, Option, if◌then◌else◌}
use pmros.Base.Maps.{nat_key}
use pmros.Base.Bytes.{Bytes, bytes_key, codes}
use pmros.Base.Results.{ok}
use pmros.MappedRingBuffer.{
  Ptr, MappedRingBuffer, unused, get_iterator_of_key, pop_unique, get_unique,
}
use pmros.MappedRingBuffer.Tests.{two, two-IsValid}
use pmros.IntraProcess.{
  IdSet, Manager, Publisher, take_unique, take_shared, remove_subscription, take_from_publisher,
}
use pmros.IntraProcess.Publish.{get_subscription_count}
use pmros.IntraProcess.Take.{Holds}
use pmros.IntraProcess.Once.{take_once}
use pmros.IntraProcess.Store.{Ready}
use pmros.IntraProcess.Delivery.{
  Taker, by_unique_ptr, by_shared_ptr, take_all, Delivered, take_all-Delivered,
}
use pmros.IntraProcess.Removal.{HeldMessage, StaysHeld, remove_subscription_lem}

abbrev chat : Bytes
chat = codes "/chat"

abbrev publisher : Publisher
publisher = record { topic_name = chat; gids = [] }

abbrev lock : ℕ → Option Publisher
lock handle = if handle == 5 then some publisher else none

abbrev both : IdSet
both = (2, tt) ∷ (3, tt) ∷ []

abbrev empty_buffer : MappedRingBuffer ℕ
empty_buffer = record { elements = unused ∷ unused ∷ []; head = 0; next_address = 1 }

abbrev manager_with : MappedRingBuffer ℕ → List (ℕ × IdSet) → Manager ℕ
manager_with b targets = record {
  next_unique_id = 4;
  subscriptions = (2, 20) ∷ (3, 30) ∷ [];
  subscription_ids_by_topic = (chat, both) ∷ [];
  publishers =
      (
        1,
        record {
          publisher = 5;
          sequence_number = 0;
          buffer = some b;
          target_subscriptions_by_message_sequence = targets;
        },
      )
      ∷ [];
}

abbrev idle : Manager ℕ
idle = manager_with empty_buffer []

abbrev message : Ptr ℕ
message = record { address = 9; value = 42 }

-- The object 70 of the buffer `two` is held for both subscriptions.
abbrev holding : Manager ℕ
holding = manager_with two ((7, both) ∷ [])

idle_ready : Ready 255 lock idle 1
unfolding get_iterator_of_key
idle_ready = record {
  info = record {
    publisher = 5;
    sequence_number = 0;
    buffer = some empty_buffer;
    target_subscriptions_by_message_sequence = [];
  };
  buffer = empty_buffer;
  publisher = publisher;
  entry = refl;
  has_buffer = refl;
  valid = record { in_range = omega arith; owners = (refl, (refl, tt)); distinct = ground arith };
  lives = refl;
  name_fits = refl;
  unused = λ k h. ground arith;
}

holding_70 : Holds holding 1 7 70 both
unfolding get_iterator_of_key
holding_70 = record {
  info = record {
    publisher = 5;
    sequence_number = 0;
    buffer = some two;
    target_subscriptions_by_message_sequence = (7, both) ∷ [];
  };
  buffer = two;
  entry = refl;
  has_buffer = refl;
  valid = two-IsValid;
  object = refl;
  targets = refl;
}

-- The last subscription gets the pointer that was stored.
moved :
    (take_unique 1 7 3 (take_unique 1 7 2 holding).1).0
    ≡ ok (some (record { address = 1; value = 70 }))
unfolding take_unique take_from_publisher get_unique pop_unique get_iterator_of_key
moved = refl

counted : get_subscription_count 255 lock 1 idle ≡ ok 2
unfolding get_subscription_count
counted = refl

take_once_example :
    let u = (take_unique 1 7 2 holding).1 in
    let s = (take_shared 1 7 2 holding).1 in
    ((take_unique 1 7 2 u ≡ (ok none, u)) × (take_shared 1 7 2 u ≡ (ok none, u)))
    × ((take_unique 1 7 2 s ≡ (ok none, s)) × (take_shared 1 7 2 s ≡ (ok none, s)))
take_once_example = take_once holding 1 7 2

abbrev takers : List Taker
takers = by_shared_ptr 3 ∷ by_unique_ptr 2 ∷ []

take_all-Delivered_example : Delivered 1 7 (take_all 1 7 takers holding) 70 []
take_all-Delivered_example =
    take_all-Delivered 1 7 takers holding 70 both holding_70 (λ e. cc) (refl, (refl, tt))

abbrev held : HeldMessage holding
held = record { id = 1; sequence_number = 7; object = 70; targets = both; holds = holding_70 }

remove_subscription_lem_example :
    let m = remove_subscription 2 holding in
    (take_unique 1 9 2 m ≡ (ok none, m))
    × (take_shared 1 9 2 m ≡ (ok none, m))
    × All (StaysHeld 2 holding) (held ∷ [])
remove_subscription_lem_example = remove_subscription_lem 2 holding 1 9 (held ∷ [])
