-- ===== src/BoundedVector/Unbounded.antt =====
-- The calls of a bounded vector as those of a vector without a bound
-- (rosidl/rosidl_generator_cpp/include/rosidl_generator_cpp/bounded_vector.hpp).
use pmros.Base.{
  ℕ, zero, suc, ◌+◌, ◌-◌, ◌^◌, ◌≤◌, ◌<◌, leb, if◌then◌else◌, List, [], ◌∷◌, ◌++◌, length, drop,
  replicate, length-append, length-replicate, ◌≡◌, refl, arith, Bool-cases, inl, inr,
}
use pmros.BoundedVector.{
  take, without_last, Operation, assign_call, assign_range_call, assign_list_call, assign_from_call,
  resize_call, reserve_call, push_back_call, emplace_call, insert_call, insert_n_call,
  insert_list_call, insert_range_call, erase_call, pop_back_call, clear_call,
}

module _ {ℓ} {A : Type ℓ} where
  -- The calls on a vector without a bound.
  abbrev pub unbounded : Operation A → List A → List A
  unbounded (assign_call n x) v = replicate n x
  unbounded (assign_range_call xs) v = xs
  unbounded (assign_list_call l) v = l
  unbounded (assign_from_call l) v = l
  unbounded (resize_call n x) v =
      if leb n (length v) then take n v else v ++ replicate (n - length v) x
  unbounded (reserve_call n) v = v
  unbounded (push_back_call x) v = v ++ (x ∷ [])
  unbounded (emplace_call p x) v = take p v ++ (x ∷ drop p v)
  unbounded (insert_call p x) v = take p v ++ (x ∷ drop p v)
  unbounded (insert_n_call p n x) v = take p v ++ (replicate n x ++ drop p v)
  unbounded (insert_list_call p l) v = take p v ++ (l ++ drop p v)
  unbounded (insert_range_call p xs) v = take p v ++ (xs ++ drop p v)
  unbounded (erase_call p q) v = take p v ++ drop q v
  unbounded pop_back_call v = without_last v
  unbounded clear_call v = []

  -- The number of elements that a call asks for.
  abbrev pub size_after : Operation A → List A → ℕ
  size_after (reserve_call n) v = n
  size_after op v = length (unbounded op v)

  -- The sizes in a call are a size_t, and what is erased is in order.
  abbrev pub IsCall : Operation A → Type 0
  IsCall (insert_n_call p n x) = n < 2 ^ 64
  IsCall (insert_list_call p l) = length l < 2 ^ 64
  IsCall (insert_range_call p xs) = length xs < 2 ^ 64
  IsCall (erase_call p q) = p ≤ q
  IsCall op = Unit

  length-take-drop : (p : ℕ) (v : List A) → length (take p v) + length (drop p v) ≡ length v
  length-take-drop zero v = omega arith
  length-take-drop (suc p) [] = omega arith
  length-take-drop (suc p) (x ∷ v) = omega (arith, length-take-drop p v)

  length-drop_le : (p q : ℕ) (v : List A) → p ≤ q → length (drop q v) ≤ length (drop p v)
  length-drop_le zero zero v h = omega arith
  length-drop_le zero (suc q) [] h = omega arith
  length-drop_le zero (suc q) (x ∷ v) h = omega (arith, length-drop_le zero q v (omega arith))
  length-drop_le (suc p) (suc q) [] h = omega arith
  length-drop_le (suc p) (suc q) (x ∷ v) h = length-drop_le p q v (omega (arith, h))
  length-drop_le (suc p) zero v h = absurd (omega (arith, h))

  pub length-inserted :
      (p : ℕ) (xs v : List A) → length (take p v ++ (xs ++ drop p v)) ≡ length v + length xs
  length-inserted p xs v = omega (
    arith,
    length-append (take p v) (xs ++ drop p v),
    length-append xs (drop p v),
    length-take-drop p v,
  )

  pub length-without_last : (v : List A) → length (without_last v) ≤ length v
  length-without_last [] = omega arith
  length-without_last (x ∷ []) = omega arith
  length-without_last (x ∷ y ∷ v) = omega (arith, length-without_last (y ∷ v))

  pub length-erased : (p q : ℕ) (v : List A) → p ≤ q → length (take p v ++ drop q v) ≤ length v
  length-erased p q v h =
      omega
        (arith, length-append (take p v) (drop q v), length-take-drop p v, length-drop_le p q v h)

  length-take_all : (n : ℕ) (v : List A) → n ≤ length v → length (take n v) ≡ n
  length-take_all zero v h = refl
  length-take_all (suc n) [] h = absurd (omega (arith, h))
  length-take_all (suc n) (x ∷ v) h = omega (arith, length-take_all n v (omega (arith, h)))

  pub length-resized : (n : ℕ) (x : A) (v : List A) → length (unbounded (resize_call n x) v) ≡ n
  length-resized n x v = elim (Bool-cases (leb n (length v))) [
    | inl e ↦ rw e (length-take_all n v (ground (arith, e)))
    | inr e ↦
        let l = length-append v (replicate (n - length v) x) in
        let r = length-replicate (n - length v) x in rw e (ground (arith, e, l, r))
  ]
