-- ===== src/MappedRingBuffer/Fifo.antt =====
-- The slots in the order of their age: every push drops the oldest one.
use pmros.Base.{
  ℕ, zero, suc, ◌+◌, ◌%◌, ◌<◌, ◌≤◌, Option, List, [], ◌∷◌, ◌++◌, length, set, map, length-set,
  arith, ◌≡◌, refl, ap, sym, ◌∙◌, append_assoc, append-nil,
}
use native.Mathlib.Nat.{mod-eq_of_lt, mod_self}
use native.Mathlib.Decide.{dec_lt}
use pmros.MappedRingBuffer.{
  Ptr, Element, MappedRingBuffer, push_and_replace_shared, push_and_replace_unique, shared_element,
  unique_element,
}

mod_inside : {m n : ℕ} → m + 1 < n → (m + 1) % n ≡ suc m
mod_inside {m} {n} h = omega (arith, mod-eq_of_lt {n = m + 1} {m = n} h)

mod_end : {m n : ℕ} → m < n → ¬ (m + 1 < n) → (m + 1) % n ≡ 0
mod_end {m} {n} h k = let e : m + 1 ≡ n = omega arith in rw e (mod_self n)

module _ {ℓ} {A : Type ℓ} where
  abbrev take : ℕ → List A → List A
  take zero xs = []
  take (suc n) [] = []
  take (suc n) (x ∷ xs) = x ∷ take n xs

  abbrev pub drop : ℕ → List A → List A
  drop zero xs = xs
  drop (suc n) [] = []
  drop (suc n) (x ∷ xs) = drop n xs

  -- From position `h` on, going round.
  abbrev rotated : ℕ → List A → List A
  rotated h xs = drop h xs ++ take h xs

  take_all : (n : ℕ) (xs : List A) → length xs ≤ n → take n xs ≡ xs
  take_all zero [] h = refl
  take_all zero (x ∷ xs) h = absurd (omega arith)
  take_all (suc n) [] h = refl
  take_all (suc n) (x ∷ xs) h = ap (◌∷◌ x) (take_all n xs (omega arith))

  take-set :
      (h : ℕ) (x : A) (xs : List A)
      → h < length xs
      → take (suc h) (set xs h x) ≡ take h xs ++ x ∷ []
  take-set h x [] p = absurd (omega arith)
  take-set zero x (y ∷ xs) p = refl
  take-set (suc h) x (y ∷ xs) p = ap (◌∷◌ y) (take-set h x xs (omega arith))

  drop-set : (h : ℕ) (x : A) (xs : List A) → drop (suc h) (set xs h x) ≡ drop (suc h) xs
  drop-set h x [] = refl
  drop-set zero x (y ∷ xs) = refl
  drop-set (suc h) x (y ∷ xs) = drop-set h x xs

  drop_all : (n : ℕ) (xs : List A) → length xs ≤ n → drop n xs ≡ []
  drop_all zero [] h = refl
  drop_all zero (x ∷ xs) h = absurd (omega arith)
  drop_all (suc n) [] h = refl
  drop_all (suc n) (x ∷ xs) h = drop_all n xs (omega arith)

  drop-one_drop :
      (h : ℕ) (xs ys : List A) → h < length xs → drop 1 (drop h xs ++ ys) ≡ drop (suc h) xs ++ ys
  drop-one_drop h [] ys p = absurd (omega arith)
  drop-one_drop zero (x ∷ xs) ys p = refl
  drop-one_drop (suc h) (x ∷ xs) ys p = drop-one_drop h xs ys (omega arith)

  drop-pos : (h : ℕ) (xs ys : List A) → h < length xs → 0 < length (drop h xs ++ ys)
  drop-pos h [] ys p = absurd (omega arith)
  drop-pos zero (x ∷ xs) ys p = omega arith
  drop-pos (suc h) (x ∷ xs) ys p = drop-pos h xs ys (omega arith)

  shift :
      (n : ℕ) (s r : List A) (x : A)
      → 0 < length s
      → drop n ((drop 1 s ++ x ∷ []) ++ r) ≡ drop (suc n) (s ++ x ∷ r)
  shift n [] r x p = absurd (omega arith)
  shift n (y ∷ s) r x p = rw (append_assoc s (x ∷ []) r)

  -- Writing at the head and moving it on.
  rotated-set :
      (h : ℕ) (x : A) (xs : List A)
      → h < length xs
      → rotated ((h + 1) % length xs) (set xs h x) ≡ drop 1 (rotated h xs) ++ x ∷ []
  rotated-set h x xs p = elim (dec_lt (h + 1) (length xs)) [
    | yes q ↦
        rw (mod_inside q, drop-set h x xs, take-set h x xs p, drop-one_drop h xs (take h xs) p)
          (sym (append_assoc (drop (suc h) xs) (take h xs) (x ∷ [])))
    | no q ↦
        rw
          (
            mod_end p q,
            append-nil (set xs h x),
            drop-one_drop h xs (take h xs) p,
            drop_all (suc h) xs (omega arith),
          )
          (sym (take_all (suc h) (set xs h x) (rw (length-set xs h x) (omega arith)))
            ∙ take-set h x xs p)
  ]

-- A call of either form of `push_and_replace`.
pub data Push {ℓ} (A : Type ℓ) : Type ℓ where
  by_shared : ℕ → Option (Ptr A) → Push A
  by_unique : ℕ → Option (Ptr A) → Push A

module _ {ℓ} {A : Type ℓ} where
  abbrev pub push : Push A → MappedRingBuffer A → MappedRingBuffer A
  push (by_shared key p) b = (push_and_replace_shared key p b).1
  push (by_unique key p) b = (push_and_replace_unique key p b).1

  abbrev pub element : Push A → Element A
  element (by_shared key p) = shared_element key p
  element (by_unique key p) = unique_element key p

  abbrev pub push_all : List (Push A) → MappedRingBuffer A → MappedRingBuffer A
  push_all [] b = b
  push_all (o ∷ os) b = push_all os (push o b)

  -- The slots, the one pushed longest ago first.
  abbrev pub slots : MappedRingBuffer A → List (Element A)
  slots b = rotated b.head b.elements

  abbrev InRange : MappedRingBuffer A → Type 0
  InRange b = b.head < length b.elements

  slots-push :
      (o : Push A) (b : MappedRingBuffer A)
      → InRange b
      → (slots (push o b) ≡ drop 1 (slots b) ++ element o ∷ []) × InRange (push o b)
  unfolding push_and_replace_shared push_and_replace_unique
  slots-push (by_shared key p) b h = (
    rotated-set b.head (shared_element key p) b.elements h,
    omega (arith, length-set b.elements b.head (shared_element key p)),
  )
  slots-push (by_unique key p) b h = (
    rotated-set b.head (unique_element key p) b.elements h,
    omega (arith, length-set b.elements b.head (unique_element key p)),
  )

  -- The buffer is a queue of a fixed number of slots: after any pushes, of either form, its slots in
  -- the order of their age are the last ones of the old slots followed by what was pushed.
  pub slots-push_all :
      (os : List (Push A)) (b : MappedRingBuffer A)
      → b.head < length b.elements
      → slots (push_all os b) ≡ drop (length os) (slots b ++ map element os)
  slots-push_all [] b h = sym (append-nil (slots b))
  slots-push_all (o ∷ os) b h =
      let (now, inside) = slots-push o b h in
      slots-push_all os (push o b) inside
      ∙ rw now (
          shift (length os) (slots b) (map element os) (element o)
            (drop-pos b.head b.elements (take b.head b.elements) h))
