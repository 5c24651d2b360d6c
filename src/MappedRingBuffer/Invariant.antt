-- ===== src/MappedRingBuffer/Invariant.antt =====
-- What a ring buffer promises: a finite map from keys to objects, each owned by one pointer.
use pmros.Base.{
  ℕ, zero, suc, ◌<◌, Bool, true, false, ◌||◌, not, Option, none, some, List, [], ◌∷◌, length,
  get_elem?, set, replicate, All, ap, length-replicate, is_some, arith, ◌≡◌, refl, Option-cases,
  inl, inr,
}
use pmros.Base.Results.{ok, err, invalid_argument}
use pmros.MappedRingBuffer.{Ptr, Element, MappedRingBuffer, unused, construct, get_iterator_of_key}
use pmros.MappedRingBuffer.Find.{Distinct, find_sound}

abbrev exactly_one : Bool → Bool → Bool
exactly_one true b = not b
exactly_one false b = b

module _ {ℓ} {A : Type ℓ} where
  abbrev pub payload_of : Option (Ptr A) → Option (Ptr A) → Option A
  payload_of (some p) s = some p.value
  payload_of none (some p) = some p.value
  payload_of none none = none

  abbrev pub payload : Option (ℕ × Element A) → Option A
  payload none = none
  payload (some (i, e)) = payload_of e.unique_value e.shared_value

  -- The object that the buffer holds under a key.
  abbrev pub stored : ℕ → MappedRingBuffer A → Option A
  stored key b = payload (get_iterator_of_key key b.elements)

  -- An element in use has exactly one pointer.
  abbrev pub owned : Element A → Bool
  owned e = not e.in_use || exactly_one (is_some e.unique_value) (is_some e.shared_value)

  pub record IsValid (b : MappedRingBuffer A) : Type ℓ where
    pub in_range : b.head < length b.elements
    pub owners : All (λ e. owned e ≡ true) b.elements
    pub distinct : Distinct b.elements

  pub owned_at :
      (es : List (Element A)) (i : ℕ) (e : Element A)
      → All (λ e. owned e ≡ true) es
      → get_elem? es i ≡ some e
      → owned e ≡ true
  owned_at [] i e h p = absurd (ground arith)
  owned_at (x ∷ es) zero e h p = ground arith
  owned_at (x ∷ es) (suc i) e h p = owned_at es i e h.1 p

  pub owned-set :
      (es : List (Element A)) (i : ℕ) (new : Element A)
      → All (λ e. owned e ≡ true) es
      → owned new ≡ true
      → All (λ e. owned e ≡ true) (set es i new)
  owned-set [] i new h p = tt
  owned-set (x ∷ es) zero new h p = (p, h.1)
  owned-set (x ∷ es) (suc i) new h p = (h.0, owned-set es i new h.1 p)

  -- The three cases of a call with a key.
  pub data Found (key : ℕ) (b : MappedRingBuffer A) : Type ℓ where
    absent : get_iterator_of_key key b.elements ≡ none → Found key b
    unique :
        (i : ℕ) (e : Element A) (p : Ptr A)
        → get_iterator_of_key key b.elements ≡ some (i, e)
        → e.key ≡ key
        → e.in_use ≡ true
        → e.unique_value ≡ some p
        → e.shared_value ≡ none
        → Found key b
    shared :
        (i : ℕ) (e : Element A) (p : Ptr A)
        → get_iterator_of_key key b.elements ≡ some (i, e)
        → e.key ≡ key
        → e.in_use ≡ true
        → e.unique_value ≡ none
        → e.shared_value ≡ some p
        → Found key b

  classified :
      (key : ℕ) (b : MappedRingBuffer A) (i : ℕ) (e : Element A) (u s : Option (Ptr A))
      → IsValid b
      → get_iterator_of_key key b.elements ≡ some (i, e)
      → e.unique_value ≡ u
      → e.shared_value ≡ s
      → Found key b
  classified key b i e u s v h hu hs = at u s hu hs
    where
      sound :
          (get_elem? b.elements i ≡ some e)
          × (e.key ≡ key)
          × (e.in_use ≡ true)
          × (i < length b.elements)
      sound = find_sound key b.elements i e h

      fine : owned e ≡ true
      fine = owned_at b.elements i e v.owners sound.0

      at : (u s : Option (Ptr A)) → e.unique_value ≡ u → e.shared_value ≡ s → Found key b
      at none none hu hs = absurd (ground (arith, fine, sound))
      at (some p) none hu hs = unique i e p h sound.1 sound.2 hu hs
      at none (some p) hu hs = shared i e p h sound.1 sound.2 hu hs
      at (some p) (some q) hu hs = absurd (ground (arith, fine, sound))

  pub find_cases : (key : ℕ) (b : MappedRingBuffer A) → IsValid b → Found key b
  find_cases key b v = elim (Option-cases (get_iterator_of_key key b.elements)) [
    | inl h ↦ absent h
    | inr (at, h) ↦ classified key b at.0 at.1 at.1.unique_value at.1.shared_value v h refl refl
  ]

-- What a call has done: the buffer is valid and as large as before, and its map is `after`.
pub record Keeps {ℓ} {A : Type ℓ} (before b : MappedRingBuffer A) (after : ℕ → Option A)
    : Type ℓ where
  pub valid : IsValid b
  pub size : length b.elements ≡ length before.elements
  pub contents : (j : ℕ) → stored j b ≡ after j

module _ {ℓ} (A : Type ℓ) where
  unused_owned : (n : ℕ) → All (λ e. owned e ≡ true) (replicate n (unused {A = A}))
  unused_owned zero = tt
  unused_owned (suc n) = (refl, unused_owned n)

  unused-Distinct : (n : ℕ) → Distinct (replicate n (unused {A = A}))
  unused-Distinct zero = tt
  unused-Distinct (suc n) = (inl refl, unused-Distinct n)

  unused_absent : (j n : ℕ) → get_iterator_of_key j (replicate n (unused {A = A})) ≡ none
  unfolding get_iterator_of_key
  unused_absent j zero = refl
  unused_absent j (suc n) = ground (arith, unused_absent j n)

  -- The constructor refuses the size 0, and gives an empty valid buffer of any other size.
  pub construct-IsValid :
      (n next : ℕ)
      → (construct {A = A} 0 next ≡ err invalid_argument)
        × (b : MappedRingBuffer A) × (construct (suc n) next ≡ ok b)
        × IsValid b
        × (length b.elements ≡ suc n)
        × ((j : ℕ) → stored j b ≡ none)
  unfolding construct
  construct-IsValid n next = (
    refl,
    record { elements = replicate (suc n) unused; head = 0; next_address = next },
    ground arith,
    record {
      in_range = omega arith;
      owners = unused_owned (suc n);
      distinct = unused-Distinct (suc n);
    },
    length-replicate (suc n) unused,
    λ j. ap payload (unused_absent j (suc n)),
  )
