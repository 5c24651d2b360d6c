-- ===== src/MappedRingBuffer/Find.antt =====
-- `get_iterator_of_key` after a write to the elements.
use pmros.Base.{
  ℕ, zero, suc, ◌<◌, Bool, true, false, ◌==◌, if◌then◌else◌, Option, none, some, List, [], ◌∷◌,
  length, get_elem?, set, arith, ◌≡◌, refl, ◌⊎◌,
}
use pmros.MappedRingBuffer.{Element, matches, get_iterator_of_key}

module _ {ℓ} {A : Type ℓ} where
  -- No two elements in use have one key.
  abbrev pub Distinct : List (Element A) → Type ℓ
  Distinct [] = Unit
  Distinct (e ∷ es) = ((e.in_use ≡ false) ⊎ (get_iterator_of_key e.key es ≡ none)) × Distinct es

  -- What an iterator points at is an element in use with the key that was asked for.
  pub find_sound :
      (key : ℕ) (es : List (Element A)) (i : ℕ) (e : Element A)
      → get_iterator_of_key key es ≡ some (i, e)
      → (get_elem? es i ≡ some e) × (e.key ≡ key) × (e.in_use ≡ true) × (i < length es)
  unfolding get_iterator_of_key
  find_sound key [] i e h = absurd (ground arith)
  find_sound key (x ∷ es) zero e h = ground arith
  find_sound key (x ∷ es) (suc i) e h = ground (arith, find_sound key es i e)

  -- Rewriting the element that was found, with its key, and still in use.
  pub find-set_kept :
      (key j : ℕ) (es : List (Element A)) (i : ℕ) (e new : Element A)
      → get_iterator_of_key key es ≡ some (i, e)
      → new.key ≡ key
      → new.in_use ≡ true
      → get_iterator_of_key j (set es i new)
        ≡ (if key == j then some (i, new) else get_iterator_of_key j es)
  unfolding get_iterator_of_key
  find-set_kept key j [] i e new h hk hu = absurd (ground arith)
  find-set_kept key j (x ∷ es) zero e new h hk hu = ground arith
  find-set_kept key j (x ∷ es) (suc i) e new h hk hu =
      ground (arith, find-set_kept key j es i e new)

  -- Taking the element that was found out of use.
  pub find-set_released :
      (key j : ℕ) (es : List (Element A)) (i : ℕ) (e new : Element A)
      → Distinct es
      → get_iterator_of_key key es ≡ some (i, e)
      → new.in_use ≡ false
      → get_iterator_of_key j (set es i new) ≡ (if key == j then none else get_iterator_of_key j es)
  unfolding get_iterator_of_key
  find-set_released key j [] i e new d h hu = absurd (ground arith)
  find-set_released key j (x ∷ es) zero e new d h hu = ground arith
  find-set_released key j (x ∷ es) (suc i) e new d h hu =
      ground (arith, find-set_released key j es i e new d.1)

  abbrev pub matches_at : ℕ → Option (Element A) → Bool
  matches_at j none = false
  matches_at j (some e) = matches j e

  -- What is not found stands nowhere.
  pub find-absent :
      (j : ℕ) (es : List (Element A)) (i : ℕ)
      → get_iterator_of_key j es ≡ none
      → matches_at j (get_elem? es i) ≡ false
  unfolding get_iterator_of_key
  find-absent j [] i h = refl
  find-absent j (x ∷ es) zero h = ground arith
  find-absent j (x ∷ es) (suc i) h = ground (arith, find-absent j es i)

  -- Writing an element with a new key over any other.
  pub find-set_new :
      (j : ℕ) (es : List (Element A)) (i : ℕ) (new : Element A)
      → Distinct es
      → i < length es
      → get_iterator_of_key new.key es ≡ none
      → new.in_use ≡ true
      → get_iterator_of_key j (set es i new) ≡ (
          if new.key == j
          then some (i, new)
          else if matches_at j (get_elem? es i)
          then none
          else get_iterator_of_key j es)
  unfolding get_iterator_of_key
  find-set_new j [] i new d hi absent hu = absurd (omega arith)
  find-set_new j (x ∷ es) zero new d hi absent hu = ground arith
  find-set_new j (x ∷ es) (suc i) new d hi absent hu =
      ground (arith, find-set_new j es i new d.1, find-absent j es i)

  pub Distinct-set_kept :
      (key : ℕ) (es : List (Element A)) (i : ℕ) (e new : Element A)
      → Distinct es
      → get_iterator_of_key key es ≡ some (i, e)
      → new.key ≡ key
      → new.in_use ≡ true
      → Distinct (set es i new)
  unfolding get_iterator_of_key
  Distinct-set_kept key [] i e new d h hk hu = tt
  Distinct-set_kept key (x ∷ es) zero e new d h hk hu = ground arith
  Distinct-set_kept key (x ∷ es) (suc i) e new d h hk hu =
      ground (arith, Distinct-set_kept key es i e new d.1, find-set_kept key x.key es i e new)

  pub Distinct-set_released :
      (key : ℕ) (es : List (Element A)) (i : ℕ) (e new : Element A)
      → Distinct es
      → get_iterator_of_key key es ≡ some (i, e)
      → new.in_use ≡ false
      → Distinct (set es i new)
  unfolding get_iterator_of_key
  Distinct-set_released key [] i e new d h hu = tt
  Distinct-set_released key (x ∷ es) zero e new d h hu = ground arith
  Distinct-set_released key (x ∷ es) (suc i) e new d h hu =
      ground (
        arith,
        Distinct-set_released key es i e new d.1,
        find-set_released key x.key es i e new d.1,
      )

  pub Distinct-set_new :
      (es : List (Element A)) (i : ℕ) (new : Element A)
      → Distinct es
      → i < length es
      → get_iterator_of_key new.key es ≡ none
      → new.in_use ≡ true
      → Distinct (set es i new)
  unfolding get_iterator_of_key
  Distinct-set_new [] i new d hi absent hu = tt
  Distinct-set_new (x ∷ es) zero new d hi absent hu = ground arith
  Distinct-set_new (x ∷ es) (suc i) new d hi absent hu =
      ground (arith, Distinct-set_new es i new d.1, find-set_new x.key es i new d.1)
