-- ===== src/MappedRingBuffer/Access.antt =====
-- `get`, `pop` and `push_and_replace` as operations on the map from keys to objects.
use pmros.Base.{
  ℕ, ◌+◌, ◌%◌, ◌<◌, Bool, true, ◌==◌, if◌then◌else◌, Option, none, some, length, get_elem?, set,
  length-set, arith, ◌≡◌, refl,
}
use pmros.MappedRingBuffer.{
  Ptr, Element, MappedRingBuffer, get_iterator_of_key, get_unique, get_shared, pop_unique,
  pop_shared, push_and_replace_shared, push_and_replace_unique, shared_element, unique_element,
}
use pmros.MappedRingBuffer.Find.{find-set_new, Distinct-set_new, matches_at}
use pmros.MappedRingBuffer.Invariant.{IsValid, Keeps, stored, payload, owned, owned-set}
use pmros.MappedRingBuffer.Taken.{
  without, or_before, Gives, get_unique_lem, get_shared_lem, pop_unique_lem, pop_shared_lem,
}

module _ {ℓ} {A : Type ℓ} where
  -- The head slot, over which the next push writes.
  abbrev pub displaced : MappedRingBuffer A → ℕ → Bool
  displaced b j = matches_at j (get_elem? b.elements b.head)

  -- The map with a new key, and without the key that stood in the head slot.
  abbrev pub pushed : ℕ → A → MappedRingBuffer A → ℕ → Option A
  pushed key x b j = if key == j then some x else if displaced b j then none else stored j b

  -- On a valid buffer `get` and `pop`, in both forms, return the object of the key, without an
  -- exception. After `get` each key stores what it did. After `pop` nothing is stored under the key,
  -- and the same as before under the others. The buffer stays valid. For a key with no object the
  -- forms with a unique_ptr and `get` into a shared_ptr return none, and `pop` into a shared_ptr leaves
  -- in it what it held.
  pub get_unique-pop_unique :
      (key : ℕ) (before : Option (Ptr A)) (b : MappedRingBuffer A)
      → IsValid b
      → Gives b (get_unique key b) (stored key b) (λ j. stored j b)
        × Gives b (get_shared key b) (stored key b) (λ j. stored j b)
        × Gives b (pop_unique key b) (stored key b) (without key (λ j. stored j b))
        × Gives b
            (pop_shared key before b)
            (or_before before (stored key b))
            (without key (λ j. stored j b))
  get_unique-pop_unique key before b v = (
    get_unique_lem key b v,
    get_shared_lem key b v,
    pop_unique_lem key b v,
    pop_shared_lem key before b v,
  )

  module _ (key : ℕ) (p : Ptr A) (b : MappedRingBuffer A) (v : IsValid b)
      (new_key : get_iterator_of_key key b.elements ≡ none) where
    replaced :
        (e : Element A)
        → e.key ≡ key
        → e.in_use ≡ true
        → owned e ≡ true
        → ((i : ℕ) → payload (some (i, e)) ≡ some p.value)
        → Keeps b
            (record b {
              elements = set b.elements b.head e;
              head = (b.head + 1) % length b.elements;
            })
            (pushed key p.value b)
    replaced e hk hu ho same = record {
      valid = record {
        in_range = rw (length-set b.elements b.head e) (wrapped v.in_range);
        owners = owned-set b.elements b.head e v.owners ho;
        distinct = Distinct-set_new b.elements b.head e v.distinct v.in_range (rw hk new_key) hu;
      };
      size = length-set b.elements b.head e;
      contents = λ j. ground (
        arith,
        find-set_new j b.elements b.head e v.distinct v.in_range (rw hk new_key) hu,
        same b.head,
      );
    }
      where
        wrapped : {n h : ℕ} → h < n → (h + 1) % n < n
        wrapped h = omega arith

    -- On a valid buffer that does not have the key yet, both forms of `push_and_replace` store the
    -- object under the key and remove the key that stood in the head slot; the other keys keep their
    -- objects, and the buffer stays valid and keeps its number of slots.
    pub push_lem :
        Keeps b (push_and_replace_shared key (some p) b).1 (pushed key p.value b)
        × Keeps b (push_and_replace_unique key (some p) b).1 (pushed key p.value b)
    unfolding push_and_replace_shared push_and_replace_unique
    push_lem = (
      replaced (shared_element key (some p)) refl refl refl (λ i. refl),
      replaced (unique_element key (some p)) refl refl refl (λ i. refl),
    )
