-- ===== src/MappedRingBuffer/Tests.antt =====
-- A buffer of two slots, and the theorems at it.
use pmros.Base.{ℕ, ◌≡◌, refl, inr, none, some, List, [], ◌∷◌, arith}
use pmros.Base.Results.{ok, err, runtime_error}
use pmros.MappedRingBuffer.{
  Ptr, MappedRingBuffer, get_iterator_of_key, get_unique, get_shared, pop_unique, pop_shared,
  push_and_replace_shared, push_and_replace_unique, unique_element, shared_element,
}
use pmros.MappedRingBuffer.Invariant.{IsValid, Keeps, stored}
use pmros.MappedRingBuffer.Taken.{Gives, without, or_before}
use pmros.MappedRingBuffer.Access.{pushed, get_unique-pop_unique, push_lem}
use pmros.MappedRingBuffer.Fifo.{Push, by_shared, by_unique, push_all, slots, slots-push_all}

abbrev pub at : ℕ → ℕ → Ptr ℕ
at address value = record { address = address; value = value }

-- Key 7 holds 70 by a unique_ptr, key 8 holds 80 by a shared_ptr.
abbrev pub two : MappedRingBuffer ℕ
two = record {
  elements = unique_element 7 (some (at 1 70)) ∷ shared_element 8 (some (at 2 80)) ∷ [];
  head = 0;
  next_address = 3;
}

-- The same after key 7 was shared.
abbrev two_shared : MappedRingBuffer ℕ
two_shared = record two {
  elements = shared_element 7 (some (at 1 70)) ∷ shared_element 8 (some (at 2 80)) ∷ [];
}

pub two-IsValid : IsValid two
unfolding get_iterator_of_key
two-IsValid = record {
  in_range = omega arith;
  owners = (refl, (refl, tt));
  distinct = (inr refl, (inr refl, tt));
}

two_lacks_9 : get_iterator_of_key 9 two.elements ≡ none
unfolding get_iterator_of_key
two_lacks_9 = refl

shares_7 : get_shared 7 two ≡ ok (some (at 1 70), two_shared)
unfolding get_shared get_iterator_of_key
shares_7 = refl

-- A pointer that was null when it was pushed.
null_throws : get_unique 9 (push_and_replace_shared 9 none two).1 ≡ err runtime_error
unfolding get_unique push_and_replace_shared get_iterator_of_key
null_throws = refl

pop_twice : pop_shared 9 (some (at 5 50)) two ≡ ok (some (at 5 50), two)
unfolding pop_shared get_iterator_of_key
pop_twice = refl

push_lem_example :
    Keeps two (push_and_replace_shared 9 (some (at 5 90)) two).1 (pushed 9 90 two)
    × Keeps two (push_and_replace_unique 9 (some (at 5 90)) two).1 (pushed 9 90 two)
push_lem_example = push_lem 9 (at 5 90) two two-IsValid two_lacks_9

abbrev three_pushes : List (Push ℕ)
three_pushes =
    by_shared 9 (some (at 5 90)) ∷ by_unique 10 (some (at 6 100)) ∷ by_shared 11 none ∷ []

slots-push_all_example :
    slots (push_all three_pushes two)
    ≡ unique_element 10 (some (at 6 100)) ∷ shared_element 11 none ∷ []
slots-push_all_example = slots-push_all three_pushes two (omega arith)

get_unique-pop_unique_example :
    Gives two (get_unique 8 two) (stored 8 two) (λ j. stored j two)
    × Gives two (get_shared 8 two) (stored 8 two) (λ j. stored j two)
    × Gives two (pop_unique 8 two) (stored 8 two) (without 8 (λ j. stored j two))
    × Gives two
        (pop_shared 8 (some (at 5 50)) two)
        (or_before (some (at 5 50)) (stored 8 two))
        (without 8 (λ j. stored j two))
get_unique-pop_unique_example = get_unique-pop_unique 8 (some (at 5 50)) two two-IsValid
