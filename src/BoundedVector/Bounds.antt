-- ===== src/BoundedVector/Bounds.antt =====
-- What the calls of a bounded vector promise
-- (rosidl/rosidl_generator_cpp/include/rosidl_generator_cpp/bounded_vector.hpp).
use pmros.Base.{
  ℕ, suc, ◌+◌, ◌-◌, ◌%◌, ◌^◌, ◌≤◌, ◌<◌, ltb, leb, if◌then◌else◌, List, [], ◌∷◌, ◌++◌, length, drop,
  replicate, length-append, length-replicate, ◌≡◌, refl, arith, All, Bool-cases, inl, inr, subst,
  sym,
}
use pmros.Base.Results.{Result, ok, err, length_error, throw_if, ◌>>◌}
use pmros.BoundedVector.{
  take, Operation, assign_call, assign_range_call, assign_list_call, assign_from_call, resize_call,
  reserve_call, push_back_call, emplace_call, insert_call, insert_n_call, insert_list_call,
  insert_range_call, erase_call, pop_back_call, clear_call, construct_n, construct_list,
  construct_range, max_size, apply, kept, apply_all,
}
use pmros.BoundedVector.Unbounded.{
  unbounded, size_after, IsCall, length-inserted, length-without_last, length-erased,
  length-resized,
}

module _ {A : Type 0} (upper_bound base_max : ℕ) where
  abbrev pub if_fits : ℕ → List A → Result (List A)
  if_fits n w = if leb n (max_size upper_bound base_max) then ok w else err length_error

  checks :
      (n : ℕ) (w : List A)
      → (throw_if (ltb upper_bound n) length_error
          >> (throw_if (ltb base_max n) length_error >> ok w))
        ≡ if_fits n w
  unfolding max_size
  checks n w = ground arith

  insertion :
      (p n : ℕ) (xs v : List A)
      → length xs ≡ n
      → length v ≤ upper_bound
      → length v ≤ base_max
      → upper_bound < 2 ^ 64
      → base_max < 2 ^ 63
      → n < 2 ^ 64
      → (throw_if (ltb upper_bound ((length v + n) % 2 ^ 64)) length_error
          >> (throw_if (ltb (base_max - length v) (length xs)) length_error
              >> ok (take p v ++ (xs ++ drop p v))))
        ≡ if_fits (length (take p v ++ (xs ++ drop p v))) (take p v ++ (xs ++ drop p v))
  unfolding max_size
  insertion p n xs v e u b hu hb hn = ground (arith, length-inserted p xs v, e, u, b, hu, hb, hn)

  one_more :
      (w v : List A)
      → length w ≡ suc (length v)
      → (throw_if (leb upper_bound (length v)) length_error
          >> (throw_if (leb base_max (length v)) length_error >> ok w))
        ≡ if_fits (length w) w
  unfolding max_size
  one_more w v e = ground (arith, e)

  one_inserted :
      (p : ℕ) (x : A) (v : List A)
      → length v ≤ max_size upper_bound base_max
      → (throw_if (leb upper_bound (length v)) length_error
          >> (throw_if (ltb (base_max - length v) 1) length_error
              >> ok (take p v ++ (x ∷ drop p v))))
        ≡ if_fits (length (take p v ++ (x ∷ drop p v))) (take p v ++ (x ∷ drop p v))
  unfolding max_size
  one_inserted p x v h = ground (arith, length-inserted p (x ∷ []) v, h)

  apply-fits :
      (op : Operation A) (v : List A)
      → upper_bound < 2 ^ 64
      → base_max < 2 ^ 63
      → length v ≤ max_size upper_bound base_max
      → IsCall op
      → apply upper_bound base_max op v ≡ if_fits (size_after op v) (unbounded op v)
  unfolding apply max_size
  apply-fits (assign_call n x) v hu hb h c = rw (length-replicate n x) (checks n (replicate n x))
  apply-fits (assign_range_call xs) v hu hb h c = checks (length xs) xs
  apply-fits (assign_list_call l) v hu hb h c = checks (length l) l
  apply-fits (assign_from_call l) v hu hb h c = checks (length l) l
  apply-fits (resize_call n x) v hu hb h c =
      rw (length-resized n x v) (checks n (unbounded (resize_call n x) v))
  apply-fits (reserve_call n) v hu hb h c = checks n v
  apply-fits (push_back_call x) v hu hb h c =
      one_more (v ++ (x ∷ [])) v (omega (arith, length-append v (x ∷ [])))
  apply-fits (emplace_call p x) v hu hb h c = one_inserted p x v h
  apply-fits (insert_call p x) v hu hb h c = one_inserted p x v h
  apply-fits (insert_n_call p n x) v hu hb h c =
      insertion p n (replicate n x) v (length-replicate n x) (ground (arith, h)) (ground (arith, h))
        hu hb c
  apply-fits (insert_list_call p l) v hu hb h c =
      insertion p (length l) l v refl (ground (arith, h)) (ground (arith, h)) hu hb c
  apply-fits (insert_range_call p xs) v hu hb h c =
      insertion p (length xs) xs v refl (ground (arith, h)) (ground (arith, h)) hu hb c
  apply-fits (erase_call p q) v hu hb h c = ground (arith, length-erased p q v c)
  apply-fits pop_back_call v hu hb h c = ground (arith, length-without_last v)
  apply-fits clear_call v hu hb h c = ground arith

  constructs-fit :
      (n : ℕ) (x : A) (xs : List A)
      → (construct_n upper_bound base_max n x ≡ if_fits n (replicate n x))
        × (construct_list upper_bound base_max xs ≡ if_fits (length xs) xs)
        × (construct_range upper_bound base_max xs ≡ if_fits (length xs) xs)
  unfolding construct_n construct_list construct_range max_size
  constructs-fit n x xs = (ground (arith, length-replicate n x), ground arith, ground arith)

  kept-if_fits :
      (n : ℕ) (w v : List A)
      → length w ≤ n
      → length v ≤ max_size upper_bound base_max
      → length (kept v (if_fits n w)) ≤ max_size upper_bound base_max
  unfolding max_size
  kept-if_fits n w v l h = ground (arith, l, h)

  kept_bounded :
      (op : Operation A) (v : List A)
      → length v ≤ max_size upper_bound base_max
      → length (kept v (if_fits (size_after op v) (unbounded op v))) ≤ max_size upper_bound base_max
  kept_bounded (assign_call n x) v h =
      kept-if_fits _ (unbounded (assign_call n x) v) v (omega arith) h
  kept_bounded (assign_range_call xs) v h =
      kept-if_fits _ (unbounded (assign_range_call xs) v) v (omega arith) h
  kept_bounded (assign_list_call l) v h =
      kept-if_fits _ (unbounded (assign_list_call l) v) v (omega arith) h
  kept_bounded (assign_from_call l) v h =
      kept-if_fits _ (unbounded (assign_from_call l) v) v (omega arith) h
  kept_bounded (resize_call n x) v h =
      kept-if_fits _ (unbounded (resize_call n x) v) v (omega arith) h
  kept_bounded (reserve_call n) v h = elim (Bool-cases (leb n (max_size upper_bound base_max))) [
    | inl e ↦ rw e h
    | inr e ↦ rw e h
  ]
  kept_bounded (push_back_call x) v h =
      kept-if_fits _ (unbounded (push_back_call x) v) v (omega arith) h
  kept_bounded (emplace_call p x) v h =
      kept-if_fits _ (unbounded (emplace_call p x) v) v (omega arith) h
  kept_bounded (insert_call p x) v h =
      kept-if_fits _ (unbounded (insert_call p x) v) v (omega arith) h
  kept_bounded (insert_n_call p n x) v h =
      kept-if_fits _ (unbounded (insert_n_call p n x) v) v (omega arith) h
  kept_bounded (insert_list_call p l) v h =
      kept-if_fits _ (unbounded (insert_list_call p l) v) v (omega arith) h
  kept_bounded (insert_range_call p xs) v h =
      kept-if_fits _ (unbounded (insert_range_call p xs) v) v (omega arith) h
  kept_bounded (erase_call p q) v h =
      kept-if_fits _ (unbounded (erase_call p q) v) v (omega arith) h
  kept_bounded pop_back_call v h = kept-if_fits _ (unbounded pop_back_call v) v (omega arith) h
  kept_bounded clear_call v h = kept-if_fits _ (unbounded clear_call v) v (omega arith) h

  apply_all-bounded :
      (ops : List (Operation A)) (v : List A)
      → upper_bound < 2 ^ 64
      → base_max < 2 ^ 63
      → length v ≤ max_size upper_bound base_max
      → All IsCall ops
      → length (apply_all upper_bound base_max ops v) ≤ max_size upper_bound base_max
  unfolding apply_all
  apply_all-bounded [] v hu hb h c = h
  apply_all-bounded (op ∷ ops) v hu hb h (c, cs) =
      let next = kept v (apply upper_bound base_max op v) in
      apply_all-bounded ops next hu hb
        (subst (λ (r : Result (List A)). length (kept v r) ≤ max_size upper_bound base_max)
          (sym (apply-fits op v hu hb h c)) (kept_bounded op v h))
        cs

-- Let a bounded vector have no more than max_size elements, and let sizes be a size_t, and the
-- max_size of std::vector less than 2^63. A call is the call of a vector without a bound if what
-- it asks for is no more than max_size, and throws length_error and leaves the vector alone
-- otherwise, also where the sum of the sizes wraps around; the constructors are so too; and no
-- sequence of calls takes the vector beyond max_size.
pub calls-fit :
    {A : Type 0} (upper_bound base_max : ℕ) (op : Operation A) (ops : List (Operation A))
    (v : List A) (n : ℕ) (x : A) (xs : List A)
    → upper_bound < 2 ^ 64
    → base_max < 2 ^ 63
    → length v ≤ max_size upper_bound base_max
    → IsCall op
    → All IsCall ops
    → (apply upper_bound base_max op v
        ≡ if_fits upper_bound base_max (size_after op v) (unbounded op v))
      × (construct_n upper_bound base_max n x ≡ if_fits upper_bound base_max n (replicate n x))
      × (construct_list upper_bound base_max xs ≡ if_fits upper_bound base_max (length xs) xs)
      × (construct_range upper_bound base_max xs ≡ if_fits upper_bound base_max (length xs) xs)
      × (length (apply_all upper_bound base_max ops v) ≤ max_size upper_bound base_max)
calls-fit u b op ops v n x xs hu hb h c cs =
    let (by_n, by_list, by_range) = constructs-fit u b n x xs in
    (apply-fits u b op v hu hb h c, by_n, by_list, by_range, apply_all-bounded u b ops v hu hb h cs)
