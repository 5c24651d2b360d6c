-- ===== src/MappedRingBuffer.antt =====
-- rclcpp::mapped_ring_buffer::MappedRingBuffer (rclcpp/rclcpp/include/rclcpp/mapped_ring_buffer.hpp).
-- A pointer is an address and the object that stands there. An allocation takes the next unused
-- address. A call that throws has changed nothing, so it returns the exception alone.
pub mod Find
pub mod Invariant
pub mod Taken
pub mod Access
pub mod Fifo
pub mod Ownership
pub mod Tests
use pmros.Base.{
  ℕ, suc, ◌+◌, ◌%◌, Bool, true, false, ◌&&◌, ◌==◌, if◌then◌else◌, Option, none, some, List, [], ◌∷◌,
  length, get_elem?, set, replicate, is_some,
}
use pmros.Base.Results.{Result, ok, err, invalid_argument, runtime_error}

-- std::unique_ptr or std::shared_ptr, where it is not null.
pub record Ptr {ℓ} (A : Type ℓ) : Type ℓ where
  pub address : ℕ
  pub value : A

pub record Element {ℓ} (A : Type ℓ) : Type ℓ where
  pub key : ℕ
  pub unique_value : Option (Ptr A)
  pub shared_value : Option (Ptr A)
  pub in_use : Bool

pub record MappedRingBuffer {ℓ} (A : Type ℓ) : Type ℓ where
  pub elements : List (Element A)
  pub head : ℕ
  pub next_address : ℕ

-- What a call leaves in `value`, and the buffer.
abbrev pub Outcome {ℓ} : Type ℓ → Type ℓ
Outcome A = Result (Option (Ptr A) × MappedRingBuffer A)

module _ {ℓ} {A : Type ℓ} where
  -- a value-initialised element
  abbrev pub unused : Element A
  unused = record { key = 0; unique_value = none; shared_value = none; in_use = false }

  -- The constructor; `next` is the first unused address.
  unfoldable pub construct : ℕ → ℕ → Result (MappedRingBuffer A)
  construct size next =
      if size == 0
      then err invalid_argument
      else ok (record { elements = replicate size unused; head = 0; next_address = next })

  abbrev pub matches : ℕ → Element A → Bool
  matches key e = e.key == key && e.in_use

  -- An iterator is a position with the element there; `none` is `elements_.end()`.
  abbrev advance : Option (ℕ × Element A) → Option (ℕ × Element A)
  advance none = none
  advance (some (i, e)) = some (suc i, e)

  unfoldable pub get_iterator_of_key : ℕ → List (Element A) → Option (ℕ × Element A)
  get_iterator_of_key key [] = none
  get_iterator_of_key key (e ∷ es) =
      if matches key e then some (0, e) else advance (get_iterator_of_key key es)

  abbrev write : MappedRingBuffer A → ℕ → Element A → MappedRingBuffer A
  write b i e = record b { elements = set b.elements i e }

  -- A copy of the object behind `p`, in newly allocated storage.
  abbrev copied : MappedRingBuffer A → Ptr A → Option (Ptr A)
  copied b p = some (record p { address = b.next_address })

  abbrev allocated : MappedRingBuffer A → MappedRingBuffer A
  allocated b = record b { next_address = suc b.next_address }

  abbrev get_unique_at : MappedRingBuffer A → Option (Ptr A) → Option (Ptr A) → Outcome A
  get_unique_at b (some p) s = ok (copied b p, allocated b)
  get_unique_at b none (some p) = ok (copied b p, allocated b)
  get_unique_at b none none = err runtime_error

  -- get(uint64_t, ElemUniquePtr &)
  unfoldable pub get_unique : ℕ → MappedRingBuffer A → Outcome A
  get_unique key b = elim (get_iterator_of_key key b.elements) [
    | none ↦ ok (none, b)
    | some (i, e) ↦ if e.in_use then get_unique_at b e.unique_value e.shared_value else ok (none, b)
  ]

  abbrev get_shared_at :
      MappedRingBuffer A → ℕ → Element A → Option (Ptr A) → Option (Ptr A) → Outcome A
  get_shared_at b i e u (some p) = ok (some p, b)
  get_shared_at b i e (some p) none =
      ok (some p, write b i (record e { unique_value = none; shared_value = some p }))
  get_shared_at b i e none none = err runtime_error

  -- get(uint64_t, ConstElemSharedPtr &)
  unfoldable pub get_shared : ℕ → MappedRingBuffer A → Outcome A
  get_shared key b = elim (get_iterator_of_key key b.elements) [
    | none ↦ ok (none, b)
    | some (i, e) ↦
        if e.in_use then get_shared_at b i e e.unique_value e.shared_value else ok (none, b)
  ]

  abbrev pop_unique_at :
      MappedRingBuffer A → ℕ → Element A → Option (Ptr A) → Option (Ptr A) → Outcome A
  pop_unique_at b i e (some p) s =
      ok (some p, write b i (record e { unique_value = none; in_use = false }))
  pop_unique_at b i e none (some p) =
      ok (copied b p, allocated (write b i (record e { shared_value = none; in_use = false })))
  pop_unique_at b i e none none = err runtime_error

  -- pop(uint64_t, ElemUniquePtr &)
  unfoldable pub pop_unique : ℕ → MappedRingBuffer A → Outcome A
  pop_unique key b = elim (get_iterator_of_key key b.elements) [
    | none ↦ ok (none, b)
    | some (i, e) ↦
        if e.in_use then pop_unique_at b i e e.unique_value e.shared_value else ok (none, b)
  ]

  abbrev pop_shared_at :
      MappedRingBuffer A → ℕ → Element A → Option (Ptr A) → Option (Ptr A) → Outcome A
  pop_shared_at b i e u (some p) =
      ok (some p, write b i (record e { shared_value = none; in_use = false }))
  pop_shared_at b i e (some p) none =
      ok (some p, write b i (record e { unique_value = none; in_use = false }))
  pop_shared_at b i e none none = err runtime_error

  -- pop(uint64_t, ConstElemSharedPtr &). It leaves `before`, the contents of `value` before the call,
  -- where the key is not found.
  unfoldable pub pop_shared : ℕ → Option (Ptr A) → MappedRingBuffer A → Outcome A
  pop_shared key before b = elim (get_iterator_of_key key b.elements) [
    | none ↦ ok (before, b)
    | some (i, e) ↦
        if e.in_use then pop_shared_at b i e e.unique_value e.shared_value else ok (before, b)
  ]

  abbrev in_use_at : Option (Element A) → Bool
  in_use_at none = false
  in_use_at (some e) = e.in_use

  abbrev replace_head : MappedRingBuffer A → Element A → Bool × MappedRingBuffer A
  replace_head b e = (
    in_use_at (get_elem? b.elements b.head),
    record b { elements = set b.elements b.head e; head = (b.head + 1) % length b.elements },
  )

  abbrev pub shared_element : ℕ → Option (Ptr A) → Element A
  shared_element key value = record {
    key = key;
    unique_value = none;
    shared_value = value;
    in_use = true;
  }

  abbrev pub unique_element : ℕ → Option (Ptr A) → Element A
  unique_element key value = record {
    key = key;
    unique_value = value;
    shared_value = none;
    in_use = true;
  }

  -- push_and_replace(uint64_t, ConstElemSharedPtr)
  unfoldable pub push_and_replace_shared :
      ℕ → Option (Ptr A) → MappedRingBuffer A → Bool × MappedRingBuffer A
  push_and_replace_shared key value b = replace_head b (shared_element key value)

  -- push_and_replace(uint64_t, ElemUniquePtr)
  unfoldable pub push_and_replace_unique :
      ℕ → Option (Ptr A) → MappedRingBuffer A → Bool × MappedRingBuffer A
  push_and_replace_unique key value b = replace_head b (unique_element key value)

  unfoldable pub has_key : ℕ → MappedRingBuffer A → Bool
  has_key key b = is_some (get_iterator_of_key key b.elements)
