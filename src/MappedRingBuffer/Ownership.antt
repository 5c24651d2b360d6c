-- ===== src/MappedRingBuffer/Ownership.antt =====
-- Which pointers the callers get: the stored one, or one to a copy.
use pmros.Base.{ℕ, suc, true, false, ◌≡◌, ◌+◌, ◌%◌, refl, none, some, set, arith, length, Option}
use mathlib.Core.Path.{subst₂}
use pmros.Base.Results.{ok}
use pmros.MappedRingBuffer.{
  Ptr, Element, MappedRingBuffer, get_iterator_of_key, get_unique, get_shared, pop_unique,
  pop_shared, push_and_replace_unique, unique_element,
}
use pmros.MappedRingBuffer.Find.{find-set_kept, find-set_new}
use pmros.MappedRingBuffer.Invariant.{IsValid, absent, unique, shared, find_cases}

module _ {ℓ} {A : Type ℓ} (key : ℕ) (before : Option (Ptr A)) where
  abbrev copy_in : MappedRingBuffer A → Ptr A → Ptr A
  copy_in b p = record p { address = b.next_address }

  -- The pointers that the four calls return: `p` itself, or a copy in newly allocated storage.
  abbrev pub SharesOnly : MappedRingBuffer A → Ptr A → Type ℓ
  SharesOnly c p =
      (get_shared key c ≡ ok (some p, c))
      × ((d : MappedRingBuffer A) × (get_unique key c ≡ ok (some (copy_in c p), d)))
      × ((d : MappedRingBuffer A) × (pop_unique key c ≡ ok (some (copy_in c p), d)))
      × ((d : MappedRingBuffer A) × (pop_shared key before c ≡ ok (some p, d)))

  shared_element_shares :
      (c : MappedRingBuffer A) (p : Ptr A) (i : ℕ) (e : Element A)
      → get_iterator_of_key key c.elements ≡ some (i, e)
      → e.in_use ≡ true
      → e.unique_value ≡ none
      → e.shared_value ≡ some p
      → SharesOnly c p
  unfolding get_shared get_unique pop_unique pop_shared
  shared_element_shares c p i e at hu p1 p2 = (
    ground arith,
    (record c { next_address = suc c.next_address }, ground arith),
    (
      record c {
        elements = set c.elements i (record e { shared_value = none; in_use = false });
        next_address = suc c.next_address;
      },
      ground arith,
    ),
    (
      record c { elements = set c.elements i (record e { shared_value = none; in_use = false }) },
      ground arith,
    ),
  )

  -- Once a value has been shared, it stays so: until it is popped, every `get` or `pop` into a
  -- shared_ptr returns the same pointer, and every one into a unique_ptr a pointer to a copy in
  -- storage of its own.
  pub get_shared_shares :
      (b c : MappedRingBuffer A) (p : Ptr A)
      → IsValid b
      → get_shared key b ≡ ok (some p, c)
      → SharesOnly c p
  unfolding get_shared
  get_shared_shares b c p v h = elim (find_cases key b v) [
    | absent at ↦ absurd (ground arith)
    | unique i e q at hk hu p1 p2 ↦
        let new : Element A = record e { unique_value = none; shared_value = some q } in
        let after : MappedRingBuffer A = record b { elements = set b.elements i new } in
        let same : (q ≡ p) × (after ≡ c) = ground arith in
        subst₂ SharesOnly same.1 same.0 (
          shared_element_shares after q i new
            (ground (arith, find-set_kept key key b.elements i e new at hk hu)) hu refl refl)
    | shared i e q at hk hu p1 p2 ↦
        let same : (q ≡ p) × (b ≡ c) = ground arith in
        subst₂ SharesOnly same.1 same.0 (shared_element_shares b q i e at hu p1 p2)
  ]

-- A value pushed by unique_ptr under a new key, and popped into a unique_ptr, moves: the caller gets
-- the pointer that was pushed, and nothing is allocated.
pub pop-push_unique {ℓ} :
    {A : Type ℓ} (key : ℕ) (p : Ptr A) (b : MappedRingBuffer A)
    → IsValid b
    → get_iterator_of_key key b.elements ≡ none
    → (c : MappedRingBuffer A) × (pop_unique key (push_and_replace_unique key (some p) b).1
        ≡ ok (some p, c))
      × (c.next_address ≡ b.next_address)
unfolding pop_unique push_and_replace_unique
pop-push_unique {A = A} key p b v new_key = (
  record b {
    elements =
        set (set b.elements b.head moved) b.head
          (record moved { unique_value = none; in_use = false });
    head = (b.head + 1) % length b.elements;
  },
  ground (arith, find-set_new key b.elements b.head moved v.distinct v.in_range new_key refl),
  refl,
)
  where
    moved : Element A
    moved = unique_element key (some p)
